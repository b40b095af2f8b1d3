-- ===== src/Collective/Moves.antt =====
-- What the steps of one pod do to it.
use pla_co_r.Base.{
  ℕ, suc, ◌+◌, ◌^◌, ◌<◌, ◌≡◌, ◌⊎◌, refl, sym, ap, subst, ◌∙◌, Bool, true, false, ◌||◌, Option, none,
  some, some-injective, none-ne-some, List, [], ◌∷◌, ◌++◌, length, length-append, ◌==◌, ==_iff,
  ◌>>=◌, if◌then◌else◌, Bool-cases, inl, inr, arith,
}
use pla_co_r.Text.Bytes.{Bytes}
use pla_co_r.Collective.Init.{Collective, handle_init}
use pla_co_r.Collective.First.{member, handle_init-other, own_step}
use pla_co_r.Collective.Creation.{
  found, referenced, Stage, outside, counting, asking, getting, threw, returned, CollectivePod,
  handled, counted_in, or_early, got_known, is_getting, got_idp, pass_init,
  get_create_collective_first, branch, asked_first, ask, occurs,
}
use pla_co_r.Collective.Origin.{is_head, IsTold, Entry, eq_self}

-- A wait goes on, or ends early with an exception.
pub or_early-some :
    (early : Bool) (d e : CollectivePod) (o : Option CollectivePod)
    → or_early early d o ≡ some e
    → ((o ≡ none) × ((early ≡ true) × (e ≡ record d { phase = threw true }))) ⊎ (o ≡ some e)
unfolding or_early
or_early-some early d e (some x) h = inr h
or_early-some true d e none h = inl (refl, (refl, sym (some-injective _ _ h)))
or_early-some false d e none h = absurd (none-ne-some e h)

pub counted_in-none :
    (tid : Bytes) (local : Bool) (k : ℕ) (d : CollectivePod) (o : Option Collective)
    → counted_in tid local k d o ≡ none
    → o ≡ none
counted_in-none tid local k d none h = refl
counted_in-none tid local k d (some c) h = absurd (none-ne-some _ (sym h))

pub is_getting-eq : (ph : Stage) → is_getting ph ≡ true → ph ≡ getting
is_getting-eq getting h = refl
is_getting-eq outside h = cc
is_getting-eq counting h = cc
is_getting-eq asking h = cc
is_getting-eq (threw early) h = cc
is_getting-eq (returned x) h = cc

pub pass_init-some :
    (d e : CollectivePod)
    → pass_init d ≡ some e
    → (d.phase ≡ counting) × (e ≡ record d { phase = asking })
unfolding pass_init
pass_init-some d e h = ground arith

pub got_idp-some :
    (contains : Bool) (d e : CollectivePod)
    → got_known contains d ≡ some e
    → (idp : ℕ) × (d.cc_idp ≡ some idp)
      × (d.phase ≡ getting)
      × (e ≡ record d { phase = returned (if contains then found idp else referenced idp) })
unfolding got_idp
got_idp-some contains d e h = go d.cc_idp refl
  where
    go :
        (o : Option ℕ)
        → d.cc_idp ≡ o
        → (idp : ℕ) × (d.cc_idp ≡ some idp)
          × (d.phase ≡ getting)
          × (e ≡ record d { phase = returned (if contains then found idp else referenced idp) })
    go none f = ground arith
    go (some idp) f = (idp, f, ground arith, ground arith)

pub ask-some :
    (tid : Bytes) (idp : ℕ) (d : CollectivePod) (r : CollectivePod × List ℕ)
    → ask tid idp d ≡ some r
    → (c : Collective) × (d.collective ≡ some c)
      × (d.phase ≡ asking)
      × (branch idp d (get_create_collective_first c.cc_first tid) ≡ some r)
unfolding ask asked_first
ask-some tid idp d r h = go d.collective refl
  where
    go :
        (o : Option Collective)
        → d.collective ≡ o
        → (c : Collective) × (d.collective ≡ some c)
          × (d.phase ≡ asking)
          × (branch idp d (get_create_collective_first c.cc_first tid) ≡ some r)
    go none f = ground arith
    go (some c) f = (c, f, ground arith, ground arith)

occurs-snoc : (p k : ℕ) (cs : List ℕ) → occurs p (cs ++ k ∷ []) ≡ (occurs p cs || (k == p))
occurs-snoc p k [] = ground arith
occurs-snoc p k (x ∷ cs) = ground (arith, occurs-snoc p k cs)

pub is_head-snoc : (p k : ℕ) (cs : List ℕ) → is_head p cs ≡ true → is_head p (cs ++ k ∷ []) ≡ true
is_head-snoc p k [] h = cc
is_head-snoc p k (x ∷ cs) h = h

occurs-nonempty :
    (p k : ℕ) (cs : List ℕ) → occurs p cs ≡ true → is_head p cs ≡ is_head p (cs ++ k ∷ [])
occurs-nonempty p k [] h = cc
occurs-nonempty p k (x ∷ cs) h = refl

pub not_first-snoc :
    (p k : ℕ) (cs : List ℕ)
    → (occurs p cs ≡ true) × (is_head p cs ≡ false)
    → (occurs p (cs ++ k ∷ []) ≡ true) × (is_head p (cs ++ k ∷ []) ≡ false)
not_first-snoc p k cs (o, h) =
    (ground (arith, occurs-snoc p k cs), sym (occurs-nonempty p k cs o) ∙ h)

other-IsTold :
    (p k : ℕ) (cs : List ℕ) (v : Option Bool)
    → (k == p) ≡ false
    → IsTold p cs v
    → IsTold p (cs ++ k ∷ []) v
other-IsTold p k cs none e h = ground (arith, occurs-snoc p k cs)
other-IsTold p k cs (some b) e (o, h) =
    (ground (arith, occurs-snoc p k cs), h ∙ occurs-nonempty p k cs o)

own_head :
    (p : ℕ) (cs : List ℕ) → occurs p cs ≡ false → (suc (length cs) == 1) ≡ is_head p (cs ++ p ∷ [])
own_head p [] h = ground (arith, eq_self p)
own_head p (x ∷ cs) h = ground arith

own-IsTold :
    (p : ℕ) (cs : List ℕ)
    → occurs p cs ≡ false
    → IsTold p (cs ++ p ∷ []) (some (suc (length cs) == 1))
own-IsTold p cs h = (ground (arith, occurs-snoc p p cs, eq_self p), own_head p cs h)

length-snoc : (k : ℕ) (cs : List ℕ) → suc (length cs) ≡ length (cs ++ k ∷ [])
length-snoc k cs = omega (arith, length-append cs (k ∷ []))

module _ (tid : ℕ → Bytes) (total : ℕ) where
  -- The entry of a pod once it has counted a message.
  abbrev Counted : ℕ → ℕ → List ℕ → Option Collective → Type 0
  Counted p k cs none = ⊥
  Counted p k cs (some c) = Entry tid total p (cs ++ k ∷ []) (some c)

  after-own :
      (p : ℕ) (cs : List ℕ) (v : Option Bool)
      → occurs p cs ≡ false
      → IsTold p cs v
      → length cs + 1 < 2 ^ 32
      → Counted p p cs (handle_init (tid p) true (member [] (tid p) total (length cs) v))
  after-own p cs none o t l = rw (own_step [] (tid p) total (length cs) l) (
    some (suc (length cs) == 1),
    ap (λ n. member [] (tid p) total n (some (suc (length cs) == 1))) (length-snoc p cs),
    own-IsTold p cs o,
  )
  after-own p cs (some b) o t l = absurd (ground (arith, t.0))

  after-other :
      (p k : ℕ) (cs : List ℕ) (v : Option Bool)
      → (k == p) ≡ false
      → IsTold p cs v
      → length cs + 1 < 2 ^ 32
      → Counted p k cs (handle_init (tid k) false (member [] (tid p) total (length cs) v))
  after-other p k cs v e t l =
      rw (handle_init-other (tid k) (member [] (tid p) total (length cs) v) l)
        (v, ap (λ n. member [] (tid p) total n v) (length-snoc k cs), other-IsTold p k cs v e t)

  after_count :
      (p k : ℕ) (cs : List ℕ) (v : Option Bool)
      → occurs k cs ≡ false
      → IsTold p cs v
      → length cs + 1 < 2 ^ 32
      → Counted p k cs (handle_init (tid k) (k == p) (member [] (tid p) total (length cs) v))
  after_count p k cs v o t l = elim (Bool-cases (k == p)) [
    | inl e ↦ rw e (
        subst
          (λ j. Counted p j cs (handle_init (tid j) true (member [] (tid p) total (length cs) v)))
          (sym ((==_iff k p).0 e))
          (after-own p cs v (subst (λ j. occurs j cs ≡ false) ((==_iff k p).0 e) o) t l))
    | inr e ↦ rw e (after-other p k cs v e t l)
  ]

  handled-Counted :
      (p k : ℕ) (d : CollectivePod) (o : Option Collective)
      → Counted p k d.counted o
      → (c : Collective) × (handled k d o
          ≡ record d { collective = some c; counted = d.counted ++ k ∷ [] })
        × Entry tid total p (d.counted ++ k ∷ []) (some c)
  unfolding handled
  handled-Counted p k d none h = absurd h
  handled-Counted p k d (some c) h = (c, refl, h)

  -- A handler that goes on has counted its message.
  pub counts-some :
      (p k : ℕ) (d e : CollectivePod)
      → Entry tid total p d.counted d.collective
      → occurs k d.counted ≡ false
      → length d.counted + 1 < 2 ^ 32
      → counted_in (tid k) (k == p) k d d.collective ≡ some e
      → (c : Collective) × (e ≡ record d { collective = some c; counted = d.counted ++ k ∷ [] })
        × Entry tid total p (d.counted ++ k ∷ []) (some c)
  counts-some p k d e entry o l h = go d.collective refl entry
    where
      go :
          (x : Option Collective)
          → d.collective ≡ x
          → Entry tid total p d.counted x
          → (c : Collective) × (e ≡ record d { collective = some c; counted = d.counted ++ k ∷ [] })
            × Entry tid total p (d.counted ++ k ∷ []) (some c)
      go none f n = absurd (none-ne-some e (ground arith))
      go (some c) f (v, m, t) =
          let (c', q, r) = handled-Counted p k d (handle_init (tid k) (k == p) c) (
            subst (λ y. Counted p k d.counted (handle_init (tid k) (k == p) y)) (sym m)
              (after_count p k d.counted v o t l)) in
          (
            c',
            some-injective _ _ (
                  sym h
                  ∙ ap (λ x. x >>= λ y. some (handled k d (handle_init (tid k) (k == p) y))) f)
                ∙ q,
            r,
          )
