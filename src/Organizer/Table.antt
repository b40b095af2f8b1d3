-- ===== src/Organizer/Table.antt =====
-- The tables that the operations keep, and what is found in them.
use pla_co_r.Base.{
  ℕ, suc, ◌<◌, ◌≡◌, ◌≢◌, refl, ◌∙◌, Bool, true, false, none, some, [], ◌∷◌, All, All-imp, All-zip,
  sym, subst, some-injective, none-ne-some, ltb, ◌==◌, Bool-cases, inl, inr, arith,
}
use pla_co_r.Organizer.Members.{Member, Table, emplace, erase, find_if, find}

-- The entries are in the order of their keys, their numbers are distinct and below `n`, and
-- their names are not empty.
abbrev pub Valid : ℕ → Table → Type 0
Valid n [] = Unit
Valid n (x ∷ xs) =
    All (λ y. (x.idp < y.idp) × (y.idm ≢ x.idm)) xs × ((x.idm < n) × ((x.name ≢ []) × Valid n xs))

pub All-emplace :
    (P : Member → Type 0) (t : Table) (m : Member) → All P t → P m → All P (emplace t m)
unfolding emplace
All-emplace P [] m h p = (p, tt)
All-emplace P (x ∷ xs) m h p = elim (Bool-cases (ltb m.idp x.idp)) [
  | inl e ↦ rw e (p, h)
  | inr e ↦ elim (Bool-cases (m.idp == x.idp)) [
    | inl f ↦ rw (e, f) h
    | inr f ↦ rw (e, f) (h.0, All-emplace P xs m h.1 p)
  ]
]

pub All-erase : (P : Member → Type 0) (t : Table) (k : ℕ) → All P t → All P (erase t k)
unfolding erase
All-erase P [] k h = h
All-erase P (x ∷ xs) k h = elim (Bool-cases (x.idp == k)) [
  | inl e ↦ rw e h.1
  | inr e ↦ rw e (h.0, All-erase P xs k h.1)
]

module _ (p : Member → Bool) (x : Member) (xs : Table) where
  pub find_if-yes : p x ≡ true → find_if p (x ∷ xs) ≡ some x
  unfolding find_if
  find_if-yes f = rw f refl

  pub find_if-no : p x ≡ false → find_if p (x ∷ xs) ≡ find_if p xs
  unfolding find_if
  find_if-no f = rw f refl

pub All-find_if :
    (P : Member → Type 0) (p : Member → Bool) (t : Table) (m : Member)
    → All P t
    → find_if p t ≡ some m
    → P m × (p m ≡ true)
unfolding find_if
All-find_if P p [] m h e = cc
All-find_if P p (x ∷ xs) m h e = elim (Bool-cases (p x)) [
  | inl f ↦
      subst (λ y. P y × (p y ≡ true)) (some-injective _ _ (sym (find_if-yes p x xs f) ∙ e)) (h.0, f)
  | inr f ↦ All-find_if P p xs m h.1 (sym (find_if-no p x xs f) ∙ e)
]

Valid-mono : (n : ℕ) (t : Table) → Valid n t → Valid (suc n) t
Valid-mono n [] h = tt
Valid-mono n (x ∷ xs) h = (h.0, (omega (arith, h.1.0), (h.1.1.0, Valid-mono n xs h.1.1.1)))

below : (n : ℕ) (t : Table) → Valid n t → All (λ y. y.idm < n) t
below n [] h = tt
below n (x ∷ xs) h = (h.1.0, below n xs h.1.1.1)

pub erase-Valid : (n : ℕ) (t : Table) (k : ℕ) → Valid n t → Valid n (erase t k)
unfolding erase
erase-Valid n [] k h = tt
erase-Valid n (x ∷ xs) k h = elim (Bool-cases (x.idp == k)) [
  | inl e ↦ rw e h.1.1.1
  | inr e ↦ rw e (All-erase _ xs k h.0, (h.1.0, (h.1.1.0, erase-Valid n xs k h.1.1.1)))
]

pub differ : (a b : ℕ) → (a == b) ≡ false → (b == a) ≡ false
differ a b h = ground arith

-- A new key with the next number keeps the table valid.
pub emplace-Valid :
    (n : ℕ) (t : Table) (m : Member)
    → Valid n t
    → find t m.idp ≡ none
    → m.idm ≡ n
    → m.name ≢ []
    → Valid (suc n) (emplace t m)
unfolding emplace find find_if
emplace-Valid n [] m h e k l = (tt, (omega (arith, k), (l, tt)))
emplace-Valid n (x ∷ xs) m h e k l = elim (Bool-cases (x.idp == m.idp)) [
  | inl f ↦ absurd (none-ne-some x (sym e ∙ find_if-yes (λ y. y.idp == m.idp) x xs f))
  | inr f ↦ elim (Bool-cases (ltb m.idp x.idp)) [
    | inl g ↦ rw g (
      (
        (ground arith, ground arith),
        All-imp _ _ (λ y q. (ground arith, ground arith)) xs
            (All-zip _ _ xs h.0 (below n xs h.1.1.1)),
      ),
      (omega (arith, k), (l, Valid-mono n (x ∷ xs) h)),
    )
    | inr g ↦
        rw (g, differ x.idp m.idp f)
          (
            All-emplace _ xs m h.0 (ground arith, ground arith),
            (
              omega (arith, h.1.0),
              (
                h.1.1.0,
                emplace-Valid n xs m h.1.1.1 (sym (find_if-no (λ y. y.idp == m.idp) x xs f) ∙ e) k
                    l,
              ),
            ),
          )
  ]
]

pub All-unit : (t : Table) → All (λ y. Unit {0}) t
All-unit [] = tt
All-unit (x ∷ xs) = (tt, All-unit xs)
