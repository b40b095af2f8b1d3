-- ===== src/Base/Lists.antt =====
-- Lists measured and indexed by native numbers, predicates on their entries, and sums over them.
use Prim.Native.Nat.{ℕ, zero, suc, ◌+◌, ◌≤◌}
use mathlib.Core.Path.{◌≡◌, refl, ap, subst}
use mathlib.Core.Logic.{◌≢◌}
use mathlib.Core.List.{List, [], ◌∷◌, ◌++◌}
use mathlib.Core.Option.{Option, none, some, some-injective}
use native.Mathlib.Omega.{arith}

module _ {ℓ} {A : Type ℓ} where
  abbrev pub length : List A → ℕ
  length [] = 0
  length (x ∷ xs) = suc (length xs)

  abbrev pub get_elem? : List A → ℕ → Option A
  get_elem? [] i = none
  get_elem? (x ∷ xs) zero = some x
  get_elem? (x ∷ xs) (suc i) = get_elem? xs i

  -- A write out of bounds changes nothing.
  abbrev pub set : List A → ℕ → A → List A
  set [] i v = []
  set (x ∷ xs) zero v = v ∷ xs
  set (x ∷ xs) (suc i) v = x ∷ set xs i v

  pub length-append : (xs ys : List A) → length (xs ++ ys) ≡ length xs + length ys
  length-append [] ys = omega arith
  length-append (x ∷ xs) ys = omega (arith, length-append xs ys)

  abbrev pub replicate : ℕ → A → List A
  replicate zero a = []
  replicate (suc n) a = a ∷ replicate n a

  pub get_elem?-set_self :
      (xs : List A) (i : ℕ) (v w : A) → get_elem? xs i ≡ some w → get_elem? (set xs i v) i ≡ some v
  get_elem?-set_self [] i v w h = cc
  get_elem?-set_self (x ∷ xs) zero v w h = refl
  get_elem?-set_self (x ∷ xs) (suc i) v w h = get_elem?-set_self xs i v w h

  pub get_elem?-set_ne :
      (xs : List A) (i j : ℕ) (v : A) → i ≢ j → get_elem? (set xs i v) j ≡ get_elem? xs j
  get_elem?-set_ne [] i j v h = refl
  get_elem?-set_ne (x ∷ xs) zero zero v h = absurd (h refl)
  get_elem?-set_ne (x ∷ xs) zero (suc j) v h = refl
  get_elem?-set_ne (x ∷ xs) (suc i) zero v h = refl
  get_elem?-set_ne (x ∷ xs) (suc i) (suc j) v h = get_elem?-set_ne xs i j v (λ e. h (ap suc e))

-- A predicate at every entry.
abbrev pub All {ℓ κ} : {A : Type ℓ} → (A → Type κ) → List A → Type κ
All P [] = Unit
All P (x ∷ xs) = P x × All P xs

pub All-append {ℓ κ} :
    {A : Type ℓ} (P : A → Type κ) (xs ys : List A) → All P xs → All P ys → All P (xs ++ ys)
All-append P [] ys hx hy = hy
All-append P (x ∷ xs) ys hx hy = (hx.0, All-append P xs ys hx.1 hy)

pub All-imp {ℓ κ μ} :
    {A : Type ℓ} (P : A → Type κ) (Q : A → Type μ)
    → ((a : A) → P a → Q a)
    → (xs : List A) → All P xs
    → All Q xs
All-imp P Q f [] h = tt
All-imp P Q f (x ∷ xs) h = (f x h.0, All-imp P Q f xs h.1)

pub All-zip {ℓ κ μ} :
    {A : Type ℓ} (P : A → Type κ) (Q : A → Type μ) (xs : List A)
    → All P xs
    → All Q xs
    → All (λ a. P a × Q a) xs
All-zip P Q [] h k = tt
All-zip P Q (x ∷ xs) h k = ((h.0, k.0), All-zip P Q xs h.1 k.1)

-- Without the entry at a place.
abbrev pub without {ℓ} : {A : Type ℓ} → List A → ℕ → List A
without [] k = []
without (x ∷ xs) zero = xs
without (x ∷ xs) (suc k) = x ∷ without xs k

pub All-without {ℓ κ} :
    {A : Type ℓ} (P : A → Type κ) (xs : List A) (k : ℕ) → All P xs → All P (without xs k)
All-without P [] k h = tt
All-without P (x ∷ xs) zero h = h.1
All-without P (x ∷ xs) (suc k) h = (h.0, All-without P xs k h.1)

pub All-get {ℓ κ} :
    {A : Type ℓ} (P : A → Type κ) (xs : List A) (k : ℕ) (x : A)
    → All P xs
    → get_elem? xs k ≡ some x
    → P x
All-get P [] k x h e = cc
All-get P (y ∷ xs) zero x h e = subst P (some-injective _ _ e) h.0
All-get P (y ∷ xs) (suc k) x h e = All-get P xs k x h.1 e

-- No entry occurs twice.
abbrev pub Distinct {ℓ} : {A : Type ℓ} → List A → Type ℓ
Distinct [] = Unit
Distinct (x ∷ xs) = All (λ y. y ≢ x) xs × Distinct xs

-- The sum of a weight over a list.
module _ {ℓ} {A : Type ℓ} (w : A → ℕ) where
  unfoldable pub total : List A → ℕ
  total [] = 0
  total (x ∷ xs) = w x + total xs

  pub total-set :
      (xs : List A) (i : ℕ) (p q : A)
      → get_elem? xs i ≡ some p
      → total (set xs i q) + w p ≡ total xs + w q
  unfolding total
  total-set [] i p q e = ground arith
  total-set (x ∷ xs) zero p q e = ground arith
  total-set (x ∷ xs) (suc i) p q e = omega (arith, total-set xs i p q e)

  pub total-append : (xs ys : List A) → total (xs ++ ys) ≡ total xs + total ys
  unfolding total
  total-append [] ys = omega arith
  total-append (x ∷ xs) ys = omega (arith, total-append xs ys)

  pub total-replicate : (n : ℕ) (a : A) → w a ≡ 0 → total (replicate n a) ≡ 0
  unfolding total
  total-replicate zero a e = refl
  total-replicate (suc n) a e = omega (arith, e, total-replicate n a e)

  pub le-total : (xs : List A) (i : ℕ) (p : A) → get_elem? xs i ≡ some p → w p ≤ total xs
  unfolding total
  le-total [] i p e = ground arith
  le-total (x ∷ xs) zero p e = ground arith
  le-total (x ∷ xs) (suc i) p e = omega (arith, le-total xs i p e)

pub two-le-total {ℓ} :
    {A : Type ℓ} (w : A → ℕ) (xs : List A) (i j : ℕ) (p q : A)
    → get_elem? xs i ≡ some p
    → get_elem? xs j ≡ some q
    → i ≢ j
    → w p + w q ≤ total w xs
unfolding total
two-le-total w [] i j p q e f n = cc
two-le-total w (x ∷ xs) zero zero p q e f n = absurd (n refl)
two-le-total w (x ∷ xs) zero (suc j) p q e f n = ground (arith, le-total w xs j q f)
two-le-total w (x ∷ xs) (suc i) zero p q e f n = ground (arith, le-total w xs i p e)
two-le-total w (x ∷ xs) (suc i) (suc j) p q e f n =
    omega (arith, two-le-total w xs i j p q e f (λ h. n (ap suc h)))

pub total_mono {ℓ} :
    {A : Type ℓ} (v w : A → ℕ) → ((a : A) → v a ≤ w a) → (xs : List A) → total v xs ≤ total w xs
unfolding total
total_mono v w h [] = omega arith
total_mono v w h (x ∷ xs) = omega (arith, h x, total_mono v w h xs)

pub length-without {ℓ} :
    {A : Type ℓ} (xs : List A) (k : ℕ) (x : A)
    → get_elem? xs k ≡ some x
    → length (without xs k) + 1 ≡ length xs
length-without [] k x e = cc
length-without (y ∷ xs) zero x e = omega arith
length-without (y ∷ xs) (suc k) x e = omega (arith, length-without xs k x e)

pub total-without {ℓ} :
    {A : Type ℓ} (w : A → ℕ) (xs : List A) (k : ℕ) (p : A)
    → get_elem? xs k ≡ some p
    → total w (without xs k) + w p ≡ total w xs
unfolding total
total-without w [] k p e = cc
total-without w (x ∷ xs) zero p e = ground arith
total-without w (x ∷ xs) (suc k) p e = omega (arith, total-without w xs k p e)
