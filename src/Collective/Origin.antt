-- ===== src/Collective/Origin.antt =====
-- What every state of a collective creation keeps: what each member was told, and where the
-- identifiers come from.
use pla_co_r.Base.{
  ℕ, suc, ◌≤◌, ◌≡◌, ◌⊎◌, refl, sym, subst, Bool, true, false, Option, none, some, List, [], ◌∷◌,
  ◌++◌, All, All-append, All-imp, length, ◌==◌, ==_iff, Bool-cases, inl, inr, arith,
}
use pla_co_r.Text.Bytes.{Bytes}
use pla_co_r.Collective.Init.{Collective}
use pla_co_r.Collective.First.{member}
use pla_co_r.Collective.Creation.{
  created, found, referenced, Stage, outside, counting, asking, getting, threw, returned,
  CollectivePod, World, put, occurs,
}

abbrev pub is_head : ℕ → List ℕ → Bool
is_head p [] = false
is_head p (x ∷ xs) = x == p

-- The promise of the member of a pod has a value once its message is counted: was it the first?
abbrev pub IsTold : ℕ → List ℕ → Option Bool → Type 0
IsTold p cs none = occurs p cs ≡ false
IsTold p cs (some b) = (occurs p cs ≡ true) × (b ≡ is_head p cs)

-- Some pod has created the resource, and had counted its own message first.
abbrev pub Origin : World → ℕ → Type 0
Origin w idp =
    (q : ℕ) × ((w.pods q).phase ≡ returned (created idp)) × (is_head q (w.pods q).counted ≡ true)

abbrev pub Heard : World → Option ℕ → Type 0
Heard w none = Unit
Heard w (some idp) = Origin w idp

-- By what a pod has counted and its entry.
abbrev pub AtPhase : World → ℕ → List ℕ → Option Collective → Stage → Type 0
AtPhase w p cs o outside = o ≡ none
AtPhase w p cs o counting = Unit
AtPhase w p cs o asking = Unit
AtPhase w p cs o getting = (occurs p cs ≡ true) × (is_head p cs ≡ false)
AtPhase w p cs o (threw early) =
    (early ≡ true) × ((o ≡ none) ⊎ ((occurs p cs ≡ true) × (is_head p cs ≡ false)))
AtPhase w p cs o (returned (created idp)) = is_head p cs ≡ true
AtPhase w p cs o (returned (found idp)) = Origin w idp
AtPhase w p cs o (returned (referenced idp)) = Origin w idp

abbrev pub InPhase : World → ℕ → CollectivePod → Type 0
InPhase w p d = AtPhase w p d.counted d.collective d.phase

-- What one pod keeps in a step.
pub record Grows (p : ℕ) (d e : CollectivePod) : Type 0 where
  pub stays : (idp : ℕ) → d.phase ≡ returned (created idp) → e.phase ≡ returned (created idp)
  pub head : is_head p d.counted ≡ true → is_head p e.counted ≡ true

pub eq_self : (p : ℕ) → (p == p) ≡ true
eq_self p = (==_iff p p).1 refl

pub put_self : (w : World) (p : ℕ) (d : CollectivePod) (ms : List ℕ) → (put w p d ms).pods p ≡ d
unfolding put
put_self w p d ms = rw (eq_self p) refl

pub Origin-put :
    (w : World) (p : ℕ) (d : CollectivePod) (ms : List ℕ) (idp : ℕ)
    → Grows p (w.pods p) d
    → Origin w idp
    → Origin (put w p d ms) idp
unfolding put
Origin-put w p d ms idp grows (q, e, h) = elim (Bool-cases (q == p)) [
  | inl s ↦
      let same = (==_iff q p).0 s in
      (
        p,
        rw (eq_self p)
            (grows.stays idp (subst (λ r. (w.pods r).phase ≡ returned (created idp)) same e)),
        rw (eq_self p) (grows.head (subst (λ r. is_head r (w.pods r).counted ≡ true) same h)),
      )
  | inr s ↦ (q, rw s e, rw s h)
]

pub at_pods :
    (w : World) (p : ℕ) (d : CollectivePod) (ms : List ℕ) (P : ℕ → CollectivePod → Type 0)
    → ((q : ℕ) → P q (w.pods q))
    → P p d
    → (q : ℕ) → P q ((put w p d ms).pods q)
unfolding put
at_pods w p d ms P others this q = elim (Bool-cases (q == p)) [
  | inl s ↦ rw s (subst (λ r. P r d) (sym ((==_iff q p).0 s)) this)
  | inr s ↦ rw s (others q)
]

sent_put :
    (w : World) (p : ℕ) (d : CollectivePod) (ms : List ℕ) → (put w p d ms).sent ≡ w.sent ++ ms
unfolding put
sent_put w p d ms = refl

Heard-mono :
    (w v : World) (o : Option ℕ) → ((idp : ℕ) → Origin w idp → Origin v idp) → Heard w o → Heard v o
Heard-mono w v none f h = tt
Heard-mono w v (some idp) f h = f idp h

AtPhase-mono :
    (w v : World) (p : ℕ) (cs : List ℕ) (o : Option Collective) (ph : Stage)
    → ((idp : ℕ) → Origin w idp → Origin v idp)
    → AtPhase w p cs o ph
    → AtPhase v p cs o ph
AtPhase-mono w v p cs o outside f h = h
AtPhase-mono w v p cs o counting f h = h
AtPhase-mono w v p cs o asking f h = h
AtPhase-mono w v p cs o getting f h = h
AtPhase-mono w v p cs o (threw early) f h = h
AtPhase-mono w v p cs o (returned (created idp)) f h = h
AtPhase-mono w v p cs o (returned (found idp)) f h = f idp h
AtPhase-mono w v p cs o (returned (referenced idp)) f h = f idp h

module _ (tid : ℕ → Bytes) (total : ℕ) where
  abbrev pub Entry : ℕ → List ℕ → Option Collective → Type 0
  Entry p cs none = cs ≡ []
  Entry p cs (some c) =
      (v : Option Bool) × (c ≡ member [] (tid p) total (length cs) v) × IsTold p cs v

  pub record IsSound (n : ℕ) (w : World) : Type 0 where
    pub entry : (p : ℕ) → Entry p (w.pods p).counted (w.pods p).collective
    pub short : (p : ℕ) → length (w.pods p).counted ≤ n
    pub at_phase : (p : ℕ) → InPhase w p (w.pods p)
    pub heard : (p : ℕ) → Heard w (w.pods p).cc_idp
    pub origins : All (Origin w) w.sent

  -- One pod changes; what it becomes is described where the others are as they were.
  module _ (n : ℕ) (w : World) (p : ℕ) (d : CollectivePod) (ms : List ℕ) where
    pub put-IsSound :
        IsSound n w
        → Grows p (w.pods p) d
        → Entry p d.counted d.collective
        → length d.counted ≤ suc n
        → InPhase w p d
        → Heard w d.cc_idp
        → All (Origin (put w p d ms)) ms
        → IsSound (suc n) (put w p d ms)
    put-IsSound s grows entry short at_phase heard origins =
        let v = put w p d ms in
        let f : (idp : ℕ) → Origin w idp → Origin v idp =
          λ idp o. Origin-put w p d ms idp grows o in
        record {
          entry = at_pods w p d ms (λ q c. Entry q c.counted c.collective) s.entry entry;
          short =
              at_pods w p d ms (λ q c. length c.counted ≤ suc n) (λ q. omega (arith, s.short q))
                short;
          at_phase =
              at_pods w p d ms (λ q c. InPhase v q c)
                (λ q.
                  AtPhase-mono w v q (w.pods q).counted (w.pods q).collective (w.pods q).phase f
                    (s.at_phase q))
                (AtPhase-mono w v p d.counted d.collective d.phase f at_phase);
          heard =
              at_pods w p d ms (λ q c. Heard v c.cc_idp)
                (λ q. Heard-mono w v (w.pods q).cc_idp f (s.heard q))
                (Heard-mono w v d.cc_idp f heard);
          origins = subst (All (Origin v)) (sym (sent_put w p d ms)) (
              All-append (Origin v) w.sent ms (All-imp (Origin w) (Origin v) f w.sent s.origins)
                origins);
        }
