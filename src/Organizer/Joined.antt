-- ===== src/Organizer/Joined.antt =====
-- A join: what the getters return behind it, the exceptions, and two members of one name.
use mathlib.Core.Bool.{true≢false}
use mathlib.Core.List.{cons-ne-nil}
use pla_co_r.Base.{
  ℕ, suc, ◌+◌, ◌^◌, ◌<◌, ◌≡◌, ◌≢◌, refl, sym, ◌∙◌, Bool, false, Option, none, some, none-ne-some,
  List, [], ◌∷◌, All, All-imp, length, ltb, ◌==◌, ==_iff, Bool-cases, inl, inr, subst, ap, arith,
}
use pla_co_r.Text.Bytes.{Bytes, bytes_eq, bytes_eq_self}
use pla_co_r.Organizer.Members.{
  Member, Table, emplace, find_if, find, Members, no_members, member_name, returned, does_not_exist,
  out_of_range, join, verified, insert, reading, get_idp, get_idm, get_idp_of_name, get_idm_of_name,
  get_total_members,
}
use pla_co_r.Organizer.Table.{differ, All-emplace, find_if-yes, find_if-no, emplace-Valid}
use pla_co_r.Organizer.Lookup.{found_too, found-idm, look-some, value}
use pla_co_r.Organizer.History.{Change, changes, Fine, changes-Fine}

module _ (m : Member) where
  pub find-emplace : (t : Table) → find t m.idp ≡ none → find (emplace t m) m.idp ≡ some m
  unfolding find emplace
  find-emplace [] e = find_if-yes _ m [] ((==_iff m.idp m.idp).1 refl)
  find-emplace (x ∷ xs) e = elim (Bool-cases (x.idp == m.idp)) [
    | inl f ↦ absurd (none-ne-some x (sym e ∙ find_if-yes (λ y. y.idp == m.idp) x xs f))
    | inr f ↦ elim (Bool-cases (ltb m.idp x.idp)) [
      | inl g ↦ rw g (find_if-yes _ m (x ∷ xs) ((==_iff m.idp m.idp).1 refl))
      | inr g ↦
          rw (g, differ x.idp m.idp f)
            (find_if-no _ x _ f
              ∙ find-emplace xs (sym (find_if-no (λ y. y.idp == m.idp) x xs f) ∙ e))
    ]
  ]

  length-emplace : (t : Table) → find t m.idp ≡ none → length (emplace t m) ≡ suc (length t)
  unfolding find emplace
  length-emplace [] e = refl
  length-emplace (x ∷ xs) e = elim (Bool-cases (x.idp == m.idp)) [
    | inl f ↦ absurd (none-ne-some x (sym e ∙ find_if-yes (λ y. y.idp == m.idp) x xs f))
    | inr f ↦ elim (Bool-cases (ltb m.idp x.idp)) [
      | inl g ↦ rw g refl
      | inr g ↦
          rw (g, differ x.idp m.idp f)
            (ap suc (length-emplace xs (sym (find_if-no (λ y. y.idp == m.idp) x xs f) ∙ e)))
    ]
  ]

pub ne : (a b : ℕ) → a ≢ b → (a == b) ≡ false
ne a b h = ground arith

pub find-only : (m : Member) → find (m ∷ []) m.idp ≡ some m
unfolding find
find-only m = find_if-yes _ m [] ((==_iff m.idp m.idp).1 refl)

pub find-emplace_ne :
    (m : Member) (k : ℕ) → k ≢ m.idp → (t : Table) → find (emplace t m) k ≡ find t k
unfolding find emplace
find-emplace_ne m k n [] = find_if-no _ m [] (differ k m.idp (ne k m.idp n))
find-emplace_ne m k n (x ∷ xs) = elim (Bool-cases (ltb m.idp x.idp)) [
  | inl g ↦ rw g (find_if-no _ m (x ∷ xs) (differ k m.idp (ne k m.idp n)))
  | inr g ↦ elim (Bool-cases (m.idp == x.idp)) [
    | inl f ↦ rw (g, f) refl
    | inr f ↦ elim (Bool-cases (x.idp == k)) [
      | inl u ↦ rw (g, f) (find_if-yes _ x _ u ∙ sym (find_if-yes _ x xs u))
      | inr u ↦
          rw (g, f) (find_if-no _ x _ u ∙ find-emplace_ne m k n xs ∙ sym (find_if-no _ x xs u))
    ]
  ]
]

nothing_found : (q : Member → Bool) (t : Table) → find_if q t ≡ none → All (λ y. q y ≡ false) t
nothing_found q [] e = tt
nothing_found q (x ∷ xs) e = elim (Bool-cases (q x)) [
  | inl f ↦ absurd (none-ne-some x (sym e ∙ find_if-yes q x xs f))
  | inr f ↦ (f, nothing_found q xs (sym (find_if-no q x xs f) ∙ e))
]

pub verified-returned :
    (o : Members) (idp : ℕ) (name : Bytes) (a b : Option Member)
    → (verified o idp name a b).result ≡ returned tt
    → (a ≡ none) × (b ≡ none)
unfolding verified
verified-returned o idp name (some m) b r = absurd (none-ne-some tt (ap value r))
verified-returned o idp name none (some m) r = absurd (none-ne-some tt (ap value r))
verified-returned o idp name none none r = (refl, refl)

pub join-insert :
    (o : Members) (idp : ℕ) (name : Bytes)
    → find o.table idp ≡ none
    → find_if (λ m. bytes_eq m.name name) o.table ≡ none
    → (join o idp name).state ≡ insert o idp name
unfolding join verified
join-insert o idp name e f =
    ap (λ a. (verified o idp name a (find_if (λ m. bytes_eq m.name name) o.table)).state) e
    ∙ ap (λ b. (verified o idp name none b).state) f

module _ (o : Members) (idp c : ℕ) (s : Bytes) where
  abbrev entry : Member
  entry = record { idp = idp; idm = o.next_idm; name = c ∷ s }

  abbrev named : Member → Bool
  named m = bytes_eq m.name (c ∷ s)

  find-key :
      find o.table idp ≡ none → find_if (λ y. y.idp == idp) (emplace o.table entry) ≡ some entry
  unfolding find
  find-key e = find-emplace entry o.table e

  -- The new entry is the only one with the name.
  find-named :
      find o.table idp ≡ none
      → find_if named o.table ≡ none
      → find_if named (emplace o.table entry) ≡ some entry
  find-named e f =
      found_too (λ y. y.idp == idp) named (emplace o.table entry) entry
        (All-emplace _ o.table entry
          (All-imp _ _ (λ y q u. absurd (true≢false (sym u ∙ q))) o.table
            (nothing_found named o.table f))
          (λ u. refl))
        (bytes_eq_self (c ∷ s)) (find-key e)

  inserted :
      (k : ℕ)
      → suc k < 2 ^ 32
      → Fine k o
      → find o.table idp ≡ none
      → find_if named o.table ≡ none
      → ((get_idm (insert o idp (c ∷ s)) idp).result ≡ returned o.next_idm)
        × (((get_idp (insert o idp (c ∷ s)) o.next_idm).result ≡ returned idp)
            × (((get_idp_of_name (insert o idp (c ∷ s)) (c ∷ s)).result ≡ returned idp)
                × (((get_idm_of_name (insert o idp (c ∷ s)) (c ∷ s)).result ≡ returned o.next_idm)
                    × ((get_total_members (insert o idp (c ∷ s))).result
                        ≡ returned (suc (length o.table))))))
  unfolding get_idm get_idp get_idp_of_name get_idm_of_name get_total_members insert member_name
      reading
  inserted k l h e f =
      let o2 = insert o idp (c ∷ s) in
      let v = emplace-Valid o.next_idm o.table entry h.0 e refl (cons-ne-nil c s) in
      (
        look-some o2 (λ m. m.idm) out_of_range _ entry (find-emplace entry o.table e),
        (
          look-some o2 (λ m. m.idp) does_not_exist _ entry
              (found-idm _ named (emplace o.table entry) entry v (find-named e f)),
          (
            look-some o2 (λ m. m.idp) does_not_exist _ entry (find-named e f),
            (
              look-some o2 (λ m. m.idm) does_not_exist _ entry (find-named e f),
              ap returned (length-emplace entry o.table e),
            ),
          ),
        ),
      )

-- After a join with a name that returned, in a group that has seen fewer than 2^32 - 1 joins and
-- leaves, `GetIdm` of the identifier is the next number, `GetIdp` of that number is the identifier,
-- the name leads to both, and the group has one member more.
pub join_then_look :
    (cs : List Change) (idp c : ℕ) (s : Bytes) (o o2 : Members)
    → suc (length cs) < 2 ^ 32
    → o ≡ changes cs no_members
    → (join o idp (c ∷ s)).result ≡ returned tt
    → o2 ≡ (join o idp (c ∷ s)).state
    → ((get_idm o2 idp).result ≡ returned o.next_idm)
      × (((get_idp o2 o.next_idm).result ≡ returned idp)
          × (((get_idp_of_name o2 (c ∷ s)).result ≡ returned idp)
              × (((get_idm_of_name o2 (c ∷ s)).result ≡ returned o.next_idm)
                  × ((get_total_members o2).result ≡ returned (suc (length o.table))))))
unfolding join no_members
join_then_look cs idp c s o o2 l eo r e2 =
    let free = verified-returned o idp (c ∷ s) _ _ r in
    subst
      (λ z.
        ((get_idm z idp).result ≡ returned o.next_idm)
        × (((get_idp z o.next_idm).result ≡ returned idp)
            × (((get_idp_of_name z (c ∷ s)).result ≡ returned idp)
                × (((get_idm_of_name z (c ∷ s)).result ≡ returned o.next_idm)
                    × ((get_total_members z).result ≡ returned (suc (length o.table)))))))
      (sym (e2 ∙ join-insert o idp (c ∷ s) free.0 free.1))
      (inserted o idp c s (length cs + 0) (omega (arith, l))
        (subst (Fine (length cs + 0)) (sym eo)
          (changes-Fine 0 cs no_members (omega (arith, l)) (tt, omega arith)))
        free.0 free.1)
