-- ===== src/Registry/Domain.antt =====
-- `GetDomainIdp` (libcor/src/cor/services/resource_manager.cpp): its loop ends, and where.
use mathlib.Core.Bool.{true≢false}
use pla_co_r.Base.{
  ℕ, zero, suc, ◌≤◌, ◌≡◌, ◌≢◌, refl, sym, ◌∙◌, ap, subst, Option, none, some, some-injective,
  none-ne-some, if◌then◌else◌, ◌==◌, ==_iff, Bool-cases, Option-cases, inl, inr, arith, Dict,
  lookup, put_new, remove, lookup-put_new, lookup-put_new_ne, lookup-remove, lookup-remove_ne,
  ==_ne, ◌⊎◌, put_new-some,
}
use pla_co_r.Page.Manager.{meta_domain}
use pla_co_r.Registry.State.{Registry}

-- The end of the loop of `GetDomainIdp`, or of as many rounds of it as there is fuel for.
pub data Climb : Type 0 where
  reached : (idp : ℕ) → Climb
  missing : Climb  -- `at` throws
  climbing : Climb

-- A look at `_predecessors.at(ret)`, and the rest of the loop.
unfoldable pub looked : ℕ → (ℕ → Climb) → Option ℕ → Climb
looked ret rest none = missing
looked ret rest (some ctx) = let up = rest ctx in if ctx == meta_domain then reached ret else up

unfoldable pub climb : ℕ → Dict ℕ → ℕ → Climb
unfolding looked
climb zero p ret = climbing
climb (suc n) p ret = looked ret (climb n p) (lookup p ret)

unfoldable pub get_domain_idp : ℕ → Registry → ℕ → Climb
unfolding climb
get_domain_idp fuel r idp = climb fuel r.predecessors idp

-- The loop from a resource ends within `n` rounds.
pub data Ends (p : Dict ℕ) : ℕ → ℕ → Type 0 where
  end_missing : {n i : ℕ} → lookup p i ≡ none → Ends p (suc n) i
  end_top : {n i : ℕ} → lookup p i ≡ some meta_domain → Ends p (suc n) i
  end_up : {n i ctx : ℕ} → lookup p i ≡ some ctx → Ends p n ctx → Ends p (suc n) i

looked-top :
    (i : ℕ) (f : ℕ → Climb) (o : Option ℕ) → o ≡ some meta_domain → looked i f o ≡ reached i
unfolding looked
looked-top i f none e = absurd (none-ne-some meta_domain e)
looked-top i f (some x) e = rw ((==_iff x meta_domain).1 (some-injective _ _ e)) refl

looked-up :
    (i ctx : ℕ) (f : ℕ → Climb) (o : Option ℕ)
    → o ≡ some ctx
    → ctx ≢ meta_domain
    → looked i f o ≡ f ctx
unfolding looked
looked-up i ctx f none e n = absurd (none-ne-some ctx e)
looked-up i ctx f (some x) e n =
    rw (==_ne x meta_domain (λ h. n (sym (some-injective _ _ e) ∙ h))) (ap f (some-injective _ _ e))

-- `d` is `i`, or a resource that holds it, directly or not.
pub data Above (p : Dict ℕ) : ℕ → ℕ → Type 0 where
  itself : {i : ℕ} → Above p i i
  further : {d i ctx : ℕ} → lookup p i ≡ some ctx → Above p d ctx → Above p d i

-- How the loop ends.
abbrev pub Found : Dict ℕ → ℕ → Climb → Type 0
Found p i c =
    (c ≡ missing) ⊎ ((d : ℕ) × ((c ≡ reached d) × (Above p d i × (lookup p d ≡ some meta_domain))))

climb-up :
    (p : Dict ℕ) (n i ctx : ℕ)
    → lookup p i ≡ some ctx
    → ctx ≢ meta_domain
    → climb (suc n) p i ≡ climb n p ctx
unfolding climb
climb-up p n i ctx e h = looked-up i ctx (climb n p) (lookup p i) e h

Found-up :
    (p : Dict ℕ) (i ctx : ℕ) (c : Climb) → lookup p i ≡ some ctx → Found p ctx c → Found p i c
Found-up p i ctx c e (inl m) = inl m
Found-up p i ctx c e (inr (d, (r, (a, t)))) = inr (d, (r, (further e a, t)))

climb-top : (p : Dict ℕ) (n i : ℕ) → lookup p i ≡ some meta_domain → Found p i (climb (suc n) p i)
unfolding climb
climb-top p n i e = inr (i, (looked-top i (climb n p) (lookup p i) e, (itself, e)))

pub Ends-Found : (p : Dict ℕ) (n i : ℕ) → Ends p n i → Found p i (climb n p i)
unfolding climb looked
Ends-Found p zero i h = elim h [ ]
Ends-Found p (suc n) i (end_missing e) = inl (ap (looked i (climb n p)) e)
Ends-Found p (suc n) i (end_top e) = climb-top p n i e
Ends-Found p (suc n) i (end_up {ctx = ctx} e h) = elim (Bool-cases (ctx == meta_domain)) [
  | inl f ↦ climb-top p n i (e ∙ ap some ((==_iff ctx meta_domain).0 f))
  | inr f ↦
      let up = climb-up p n i ctx e (λ g. true≢false (sym ((==_iff ctx meta_domain).1 g) ∙ f)) in
      subst (Found p i) (sym up) (Found-up p i ctx (climb n p ctx) e (Ends-Found p n ctx h))
]

pub Ends-mono : (p : Dict ℕ) (n m i : ℕ) → n ≤ m → Ends p n i → Ends p m i
Ends-mono p zero m i l h = elim h [ ]
Ends-mono p (suc n) zero i l h = absurd (omega (arith, l))
Ends-mono p (suc n) (suc m) i l (end_missing e) = end_missing e
Ends-mono p (suc n) (suc m) i l (end_top e) = end_top e
Ends-mono p (suc n) (suc m) i l (end_up {ctx = ctx} e h) =
    end_up e (Ends-mono p n m ctx (omega (arith, l)) h)

-- A new identifier: it has no entry, and no entry leads to it.
abbrev pub Fresh : Dict ℕ → ℕ → Type 0
Fresh p k = (lookup p k ≡ none) × ((j ctx : ℕ) → lookup p j ≡ some ctx → ctx ≢ k)

Ends-put_new :
    (p : Dict ℕ) (k c n i : ℕ) → Fresh p k → k ≢ i → Ends p n i → Ends (put_new p k c) n i
Ends-put_new p k c zero i f d h = elim h [ ]
Ends-put_new p k c (suc n) i f d (end_missing e) = end_missing (lookup-put_new_ne p k i c d ∙ e)
Ends-put_new p k c (suc n) i f d (end_top e) = end_top (lookup-put_new_ne p k i c d ∙ e)
Ends-put_new p k c (suc n) i f d (end_up {ctx = ctx} e h) =
    end_up (lookup-put_new_ne p k i c d ∙ e)
      (Ends-put_new p k c n ctx f (λ g. f.1 i ctx e (sym g)) h)

-- The loop ends from everywhere.
abbrev pub AllEnd : Dict ℕ → ℕ → Type 0
AllEnd p n = (i : ℕ) → Ends p (suc n) i

pub put_new-AllEnd :
    (p : Dict ℕ) (k c n : ℕ) → Fresh p k → k ≢ c → AllEnd p n → AllEnd (put_new p k c) (suc n)
put_new-AllEnd p k c n f d h i = elim (Bool-cases (k == i)) [
  | inl e ↦
      subst (Ends (put_new p k c) (suc (suc n))) ((==_iff k i).0 e)
        (end_up (lookup-put_new p k c f.0) (Ends-put_new p k c (suc n) c f d (h c)))
  | inr e ↦
      Ends-mono _ (suc n) (suc (suc n)) i (omega arith)
        (Ends-put_new p k c (suc n) i f (λ g. true≢false (sym ((==_iff k i).1 g) ∙ e)) (h i))
]

module _ (p : Dict ℕ) (e : lookup p meta_domain ≡ none) where
  new_meta : lookup (put_new p meta_domain meta_domain) meta_domain ≡ some meta_domain
  new_meta = lookup-put_new p meta_domain meta_domain e

  -- One round, where the round that follows is known.
  one_round_meta :
      (n i : ℕ)
      → ((j : ℕ) → Ends p n j → Ends (put_new p meta_domain meta_domain) n j)
      → meta_domain ≢ i
      → Ends p (suc n) i
      → Ends (put_new p meta_domain meta_domain) (suc n) i
  one_round_meta n i f d (end_missing h) = end_missing (lookup-put_new_ne p _ i _ d ∙ h)
  one_round_meta n i f d (end_top h) = end_top (lookup-put_new_ne p _ i _ d ∙ h)
  one_round_meta n i f d (end_up {ctx = ctx} h k) =
      end_up (lookup-put_new_ne p _ i _ d ∙ h) (f ctx k)

  new_meta-Ends : (n i : ℕ) → Ends p n i → Ends (put_new p meta_domain meta_domain) n i
  new_meta-Ends zero i h = elim h [ ]
  new_meta-Ends (suc n) i h = elim (Bool-cases (meta_domain == i)) [
    | inl g ↦ end_top (
        subst (λ j. lookup (put_new p meta_domain meta_domain) j ≡ some meta_domain)
          ((==_iff meta_domain i).0 g) new_meta)
    | inr g ↦
        one_round_meta n i (new_meta-Ends n)
          (λ q. true≢false (sym ((==_iff meta_domain i).1 q) ∙ g)) h
  ]

pub put_meta-AllEnd :
    (p : Dict ℕ) (n : ℕ) → AllEnd p n → AllEnd (put_new p meta_domain meta_domain) n
put_meta-AllEnd p n h i = elim (Option-cases (lookup p meta_domain)) [
  | inl e ↦ new_meta-Ends p e (suc n) i (h i)
  | inr (c, e) ↦
      subst (λ q. Ends q (suc n) i) (sym (put_new-some p meta_domain meta_domain c e)) (h i)
]

one_round_removed :
    (p : Dict ℕ) (k n i : ℕ)
    → ((j : ℕ) → Ends p n j → Ends (remove p k) n j)
    → k ≢ i
    → Ends p (suc n) i
    → Ends (remove p k) (suc n) i
one_round_removed p k n i f d (end_missing e) = end_missing (lookup-remove_ne p k i d ∙ e)
one_round_removed p k n i f d (end_top e) = end_top (lookup-remove_ne p k i d ∙ e)
one_round_removed p k n i f d (end_up {ctx = ctx} e h) =
    end_up (lookup-remove_ne p k i d ∙ e) (f ctx h)

pub remove-Ends : (p : Dict ℕ) (k n i : ℕ) → Ends p n i → Ends (remove p k) n i
remove-Ends p k zero i h = elim h [ ]
remove-Ends p k (suc n) i h = elim (Bool-cases (k == i)) [
  | inl e ↦
      end_missing (subst (λ j. lookup (remove p k) j ≡ none) ((==_iff k i).0 e) (lookup-remove p k))
  | inr e ↦
      one_round_removed p k n i (remove-Ends p k n) (λ g. true≢false (sym ((==_iff k i).1 g) ∙ e)) h
]
