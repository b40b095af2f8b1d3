-- ===== src/Base/Maps.antt =====
-- `std::map` from numbers, as the list of its entries in the order of their keys.
use Prim.Native.Nat.{ℕ}
use mathlib.Core.Path.{◌≡◌, refl, sym, ◌∙◌, ap}
use mathlib.Core.Logic.{◌≢◌, inl, inr}
use mathlib.Core.Bool.{true, false}
use mathlib.Core.Option.{Option, none, some, none-ne-some}
use mathlib.Core.List.{List, [], ◌∷◌}
use native.Mathlib.Omega.{arith}
use pla_co_r.Base.Tests.{◌==◌, ltb, if◌then◌else◌, Bool-cases, Option-cases}

abbrev pub Dict : Type 0 → Type 0
Dict V = List (ℕ × V)

pub ==_self : (a : ℕ) → (a == a) ≡ true
==_self a = ground arith

pub ==_ne : (a b : ℕ) → a ≢ b → (a == b) ≡ false
==_ne a b n = ground arith

module _ {V : Type 0} where
  unfoldable pub lookup : Dict V → ℕ → Option V
  lookup [] k = none
  lookup (x ∷ xs) k = let rest = lookup xs k in if x.0 == k then some x.1 else rest

  -- A key that is not there yet.
  unfoldable pub place : Dict V → ℕ → V → Dict V
  place [] k v = (k, v) ∷ []
  place (x ∷ xs) k v = let rest = place xs k v in if ltb k x.0 then (k, v) ∷ (x ∷ xs) else x ∷ rest

  -- A key that is there.
  unfoldable pub change : Dict V → ℕ → V → Dict V
  change [] k v = []
  change (x ∷ xs) k v = let rest = change xs k v in if x.0 == k then (k, v) ∷ rest else x ∷ rest

  -- By what is there under the key.
  abbrev pub keep_or : Option V → Dict V → Dict V → Dict V
  keep_or none d fresh = fresh
  keep_or (some w) d fresh = d

  -- `emplace`: a key that is there keeps its value.
  unfoldable pub put_new : Dict V → ℕ → V → Dict V
  put_new d k v = keep_or (lookup d k) d (place d k v)

  -- `d[k] = v`.
  unfoldable pub put : Dict V → ℕ → V → Dict V
  put d k v = keep_or (lookup d k) (change d k v) (place d k v)

  unfoldable pub remove : Dict V → ℕ → Dict V
  remove [] k = []
  remove (x ∷ xs) k = let rest = remove xs k in if x.0 == k then rest else x ∷ rest

  pub lookup-head : (k : ℕ) (v : V) (xs : Dict V) → lookup ((k, v) ∷ xs) k ≡ some v
  unfolding lookup
  lookup-head k v xs = rw (==_self k) refl

  pub lookup-tail : (x : ℕ × V) (xs : Dict V) (k : ℕ) → x.0 ≢ k → lookup (x ∷ xs) k ≡ lookup xs k
  unfolding lookup
  lookup-tail x xs k n = rw (==_ne x.0 k n) refl

  pub lookup-yes :
      (x : ℕ × V) (xs : Dict V) (k : ℕ) → (x.0 == k) ≡ true → lookup (x ∷ xs) k ≡ some x.1
  unfolding lookup
  lookup-yes x xs k e = rw e refl

  pub lookup-no :
      (x : ℕ × V) (xs : Dict V) (k : ℕ) → (x.0 == k) ≡ false → lookup (x ∷ xs) k ≡ lookup xs k
  unfolding lookup
  lookup-no x xs k e = rw e refl

  lookup-place : (d : Dict V) (k : ℕ) (v : V) → lookup d k ≡ none → lookup (place d k v) k ≡ some v
  unfolding place
  lookup-place [] k v e = lookup-head k v []
  lookup-place (x ∷ xs) k v e = elim (Bool-cases (x.0 == k)) [
    | inl f ↦ absurd (none-ne-some x.1 (sym e ∙ lookup-yes x xs k f))
    | inr f ↦ elim (Bool-cases (ltb k x.0)) [
      | inl g ↦ rw g (lookup-head k v (x ∷ xs))
      | inr g ↦
          rw g (lookup-no x (place xs k v) k f ∙ lookup-place xs k v (sym (lookup-no x xs k f) ∙ e))
    ]
  ]

  lookup-place_ne : (d : Dict V) (k j : ℕ) (v : V) → k ≢ j → lookup (place d k v) j ≡ lookup d j
  unfolding place
  lookup-place_ne [] k j v n = lookup-tail (k, v) [] j n
  lookup-place_ne (x ∷ xs) k j v n = elim (Bool-cases (ltb k x.0)) [
    | inl g ↦ rw g (lookup-tail (k, v) (x ∷ xs) j n)
    | inr g ↦ elim (Bool-cases (x.0 == j)) [
      | inl f ↦ rw g (lookup-yes x (place xs k v) j f ∙ sym (lookup-yes x xs j f))
      | inr f ↦
          rw g
            (lookup-no x (place xs k v) j f ∙ lookup-place_ne xs k j v n ∙ sym (lookup-no x xs j f))
    ]
  ]

  lookup-change :
      (d : Dict V) (k : ℕ) (v w : V) → lookup d k ≡ some w → lookup (change d k v) k ≡ some v
  unfolding change lookup
  lookup-change [] k v w e = cc
  lookup-change (x ∷ xs) k v w e = elim (Bool-cases (x.0 == k)) [
    | inl f ↦ rw f (lookup-head k v (change xs k v))
    | inr f ↦
        rw f
          (lookup-no x (change xs k v) k f ∙ lookup-change xs k v w (sym (lookup-no x xs k f) ∙ e))
  ]

  lookup-change_ne : (d : Dict V) (k j : ℕ) (v : V) → k ≢ j → lookup (change d k v) j ≡ lookup d j
  unfolding change
  lookup-change_ne [] k j v n = refl
  lookup-change_ne (x ∷ xs) k j v n = elim (Bool-cases (x.0 == k)) [
    | inl f ↦ rw f (
        lookup-tail (k, v) (change xs k v) j n
        ∙ lookup-change_ne xs k j v n
        ∙ sym (lookup-tail x xs j (λ e. n (ground arith))))
    | inr f ↦ elim (Bool-cases (x.0 == j)) [
      | inl g ↦ rw f (lookup-yes x (change xs k v) j g ∙ sym (lookup-yes x xs j g))
      | inr g ↦
          rw f (
            lookup-no x (change xs k v) j g
            ∙ lookup-change_ne xs k j v n
            ∙ sym (lookup-no x xs j g))
    ]
  ]

  keep_none : (o : Option V) (d f : Dict V) → o ≡ none → keep_or o d f ≡ f
  keep_none none d f e = refl
  keep_none (some w) d f e = cc

  keep_some : (o : Option V) (d f : Dict V) (w : V) → o ≡ some w → keep_or o d f ≡ d
  keep_some none d f w e = cc
  keep_some (some x) d f w e = refl

  pub put-none : (d : Dict V) (k : ℕ) (v : V) → lookup d k ≡ none → put d k v ≡ place d k v
  unfolding put
  put-none d k v e = keep_none (lookup d k) (change d k v) (place d k v) e

  put-some : (d : Dict V) (k : ℕ) (v w : V) → lookup d k ≡ some w → put d k v ≡ change d k v
  unfolding put
  put-some d k v w e = keep_some (lookup d k) (change d k v) (place d k v) w e

  pub put_new-none : (d : Dict V) (k : ℕ) (v : V) → lookup d k ≡ none → put_new d k v ≡ place d k v
  unfolding put_new
  put_new-none d k v e = keep_none (lookup d k) d (place d k v) e

  pub put_new-some : (d : Dict V) (k : ℕ) (v w : V) → lookup d k ≡ some w → put_new d k v ≡ d
  unfolding put_new
  put_new-some d k v w e = keep_some (lookup d k) d (place d k v) w e

  pub lookup-put : (d : Dict V) (k : ℕ) (v : V) → lookup (put d k v) k ≡ some v
  lookup-put d k v = elim (Option-cases (lookup d k)) [
    | inl e ↦ ap (λ x. lookup x k) (put-none d k v e) ∙ lookup-place d k v e
    | inr (w, e) ↦ ap (λ x. lookup x k) (put-some d k v w e) ∙ lookup-change d k v w e
  ]

  pub lookup-put_ne : (d : Dict V) (k j : ℕ) (v : V) → k ≢ j → lookup (put d k v) j ≡ lookup d j
  lookup-put_ne d k j v n = elim (Option-cases (lookup d k)) [
    | inl e ↦ ap (λ x. lookup x j) (put-none d k v e) ∙ lookup-place_ne d k j v n
    | inr (w, e) ↦ ap (λ x. lookup x j) (put-some d k v w e) ∙ lookup-change_ne d k j v n
  ]

  pub lookup-put_new :
      (d : Dict V) (k : ℕ) (v : V) → lookup d k ≡ none → lookup (put_new d k v) k ≡ some v
  lookup-put_new d k v e = ap (λ x. lookup x k) (put_new-none d k v e) ∙ lookup-place d k v e

  pub lookup-put_new_ne :
      (d : Dict V) (k j : ℕ) (v : V) → k ≢ j → lookup (put_new d k v) j ≡ lookup d j
  lookup-put_new_ne d k j v n = elim (Option-cases (lookup d k)) [
    | inl e ↦ ap (λ x. lookup x j) (put_new-none d k v e) ∙ lookup-place_ne d k j v n
    | inr (w, e) ↦ ap (λ x. lookup x j) (put_new-some d k v w e)
  ]

  pub lookup-remove : (d : Dict V) (k : ℕ) → lookup (remove d k) k ≡ none
  unfolding remove lookup
  lookup-remove [] k = refl
  lookup-remove (x ∷ xs) k = elim (Bool-cases (x.0 == k)) [
    | inl f ↦ rw f (lookup-remove xs k)
    | inr f ↦ rw f (rw f (lookup-remove xs k))
  ]

  pub lookup-remove_ne : (d : Dict V) (k j : ℕ) → k ≢ j → lookup (remove d k) j ≡ lookup d j
  unfolding remove
  lookup-remove_ne [] k j n = refl
  lookup-remove_ne (x ∷ xs) k j n = elim (Bool-cases (x.0 == k)) [
    | inl f ↦ rw f (lookup-remove_ne xs k j n ∙ sym (lookup-tail x xs j (λ e. n (ground arith))))
    | inr f ↦ elim (Bool-cases (x.0 == j)) [
      | inl g ↦ rw f (lookup-yes x (remove xs k) j g ∙ sym (lookup-yes x xs j g))
      | inr g ↦
          rw f
            (lookup-no x (remove xs k) j g ∙ lookup-remove_ne xs k j n ∙ sym (lookup-no x xs j g))
    ]
  ]
