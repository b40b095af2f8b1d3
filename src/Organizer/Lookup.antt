-- ===== src/Organizer/Lookup.antt =====
-- What the getters find in a valid table.
use mathlib.Core.Bool.{true≢false}
use pla_co_r.Base.{
  ℕ, ◌≡◌, refl, sym, ◌∙◌, Bool, true, Option, none, some, some-injective, none-ne-some, [], ◌∷◌,
  All, All-imp, ◌==◌, ==_iff, Bool-cases, inl, inr, subst, ap, arith,
}
use pla_co_r.Organizer.Members.{
  Member, Table, find_if, find, Members, Result, returned, threw, Error, does_not_exist,
  out_of_range, look, reading, get_idp, get_idm,
}
use pla_co_r.Organizer.Table.{All-unit, Valid, All-find_if, find_if-yes, find_if-no}

-- What one test finds, another test that only that entry meets finds as well.
pub found_too :
    (p q : Member → Bool) (t : Table) (m : Member)
    → All (λ y. q y ≡ true → y ≡ m) t
    → q m ≡ true
    → find_if p t ≡ some m
    → find_if q t ≡ some m
unfolding find_if
found_too p q [] m h k e = e
found_too p q (x ∷ xs) m h k e = elim (Bool-cases (q x)) [
  | inl f ↦ find_if-yes q x xs f ∙ ap some (h.0 f)
  | inr f ↦ elim (Bool-cases (p x)) [
    | inl g ↦
        absurd (true≢false (sym k ∙ ap q (some-injective _ _ (sym e ∙ find_if-yes p x xs g)) ∙ f))
    | inr g ↦ find_if-no q x xs f ∙ found_too p q xs m h.1 k (sym (find_if-no p x xs g) ∙ e)
  ]
]

-- The number and the identifier of an entry are its own.
abbrev Own : Member → Member → Type 0
Own m y = (y.idm ≡ m.idm → y ≡ m) × (y.idp ≡ m.idp → y ≡ m)

pub found-Own :
    (n : ℕ) (p : Member → Bool) (t : Table) (m : Member)
    → Valid n t
    → find_if p t ≡ some m
    → All (Own m) t
found-Own n p [] m h e = tt
found-Own n p (x ∷ xs) m h e = elim (Bool-cases (p x)) [
  | inl f ↦
      subst (λ z. All (Own z) (x ∷ xs)) (some-injective _ _ (sym (find_if-yes p x xs f) ∙ e))
        (
          ((λ u. refl), (λ u. refl)),
          All-imp _ _ (λ y q. ((λ u. absurd (q.1 u)), (λ u. absurd (omega (arith, q.0, u))))) xs
              h.0,
        )
  | inr f ↦
      let e2 = sym (find_if-no p x xs f) ∙ e in
      let far = All-find_if _ p xs m h.0 e2 in
      (
        ((λ u. absurd (far.0.1 (sym u))), (λ u. absurd (omega (arith, far.0.0, u)))),
        found-Own n p xs m h.1.1.1 e2,
      )
]

pub found-idm :
    (n : ℕ) (p : Member → Bool) (t : Table) (m : Member)
    → Valid n t
    → find_if p t ≡ some m
    → find_if (λ y. y.idm == m.idm) t ≡ some m
found-idm n p t m h e =
    found_too p (λ y. y.idm == m.idm) t m
      (All-imp _ _ (λ y q u. q.0 ((==_iff y.idm m.idm).0 u)) t (found-Own n p t m h e))
      ((==_iff m.idm m.idm).1 refl) e

pub found-idp :
    (n : ℕ) (p : Member → Bool) (t : Table) (m : Member)
    → Valid n t
    → find_if p t ≡ some m
    → find t m.idp ≡ some m
unfolding find
found-idp n p t m h e =
    found_too p (λ y. y.idp == m.idp) t m
      (All-imp _ _ (λ y q u. q.1 ((==_iff y.idp m.idp).0 u)) t (found-Own n p t m h e))
      ((==_iff m.idp m.idp).1 refl) e

abbrev pub value : {A : Type 0} → Result A → Option A
value (returned v) = some v
value (threw e) = none

pub look-returned :
    {A : Type 0} (o : Members) (f : Member → A) (e : Error) (found : Option Member) (v : A)
    → (look o f e found).result ≡ returned v
    → (m : Member) × ((found ≡ some m) × (f m ≡ v))
unfolding look reading
look-returned o f e none v r = absurd (none-ne-some v (ap value r))
look-returned o f e (some m) v r = (m, (refl, some-injective _ _ (ap value r)))

pub look-some :
    {A : Type 0} (o : Members) (f : Member → A) (e : Error) (found : Option Member) (m : Member)
    → found ≡ some m
    → (look o f e found).result ≡ returned (f m)
unfolding look reading
look-some o f e found m r = rw r refl

-- In a valid table, a number leads back to the identifier that it was found under, and an
-- identifier to the number.
module _ (o : Members) (n : ℕ) (h : Valid n o.table) (idp idm : ℕ) where
  pub get_idm-get_idp :
      (get_idm o idp).result ≡ returned idm → (get_idp o idm).result ≡ returned idp
  unfolding get_idm get_idp find
  get_idm-get_idp r =
      let (m, (e, k)) = look-returned o (λ m. m.idm) out_of_range (find o.table idp) idm r in
      let same =
        (==_iff m.idp idp).0 (All-find_if (λ y. Unit {0}) _ o.table m (All-unit o.table) e).1 in
      look-some o (λ m. m.idp) does_not_exist _ m
        (subst (λ i. find_if (λ y. y.idm == i) o.table ≡ some m) k (found-idm n _ o.table m h e))
      ∙ ap returned same

  pub get_idp-get_idm :
      (get_idp o idm).result ≡ returned idp → (get_idm o idp).result ≡ returned idm
  unfolding get_idm get_idp
  get_idp-get_idm r =
      let (m, (e, k)) = look-returned o (λ m. m.idp) does_not_exist _ idp r in
      let same =
        (==_iff m.idm idm).0 (All-find_if (λ y. Unit {0}) _ o.table m (All-unit o.table) e).1 in
      look-some o (λ m. m.idm) out_of_range _ m
        (subst (λ i. find o.table i ≡ some m) k (found-idp n _ o.table m h e))
      ∙ ap returned same
