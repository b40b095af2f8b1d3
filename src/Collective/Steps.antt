-- ===== src/Collective/Steps.antt =====
-- Every step of a collective creation keeps what the pods were told and where identifiers come from.
use pla_co_r.Base.{
  ℕ, suc, ◌+◌, ◌^◌, ◌<◌, ◌≡◌, refl, sym, ap, subst, ◌∙◌, Bool, true, false, Option, none, some,
  some-injective, none-ne-some, List, [], ◌∷◌, ◌++◌, All-get, length, length-append, get_elem?, inl,
  inr, ◌&&◌, ◌==◌, if◌then◌else◌, arith,
}
use pla_co_r.Text.Bytes.{Bytes, bytes_eq_self}
use pla_co_r.Collective.Init.{Collective, init_create_collective}
use pla_co_r.Collective.First.{member}
use pla_co_r.Collective.Creation.{
  created, found, referenced, Stage, outside, counting, asking, getting, threw, returned,
  CollectivePod, World, put, quiet, enter, pass_init, ask, branch, get_create_collective_first,
  counted_in, got_known, is_getting, get_create_collective_idp, handle_create_collective_idp,
  handle_init_create_collective, occurs, Step, calls, counts, passes, asks, hears, gets, Run,
  starts, then_steps,
}
use pla_co_r.Collective.Origin.{
  is_head, IsTold, Entry, Origin, put_self, AtPhase, Heard, Grows, IsSound, put-IsSound,
}
use pla_co_r.Collective.Moves.{
  or_early-some, counted_in-none, is_getting-eq, pass_init-some, got_idp-some, ask-some,
  is_head-snoc, not_first-snoc, counts-some,
}

abbrev NotReturned : Stage → Type 0
NotReturned (returned x) = ⊥
NotReturned _ = Unit

-- A pod that counts as before and has not returned yet grows.
keeps-Grows :
    (p : ℕ) (d e : CollectivePod) (ph : Stage)
    → d.phase ≡ ph
    → NotReturned ph
    → e.counted ≡ d.counted
    → Grows p d e
keeps-Grows p d e ph f n c = record {
  stays = λ idp h. absurd (subst NotReturned (sym f ∙ h) n);
  head = λ h. subst (λ cs. is_head p cs ≡ true) (sym c) h;
}

no_entry :
    (tid : Bytes) (local : Bool) (k : ℕ) (b d : CollectivePod)
    → counted_in tid local k b b.collective ≡ some d
    → b.collective ≡ none
    → ⊥
no_entry tid local k b d h e = none-ne-some d (ground arith)

module _ (tid : ℕ → Bytes) (total : ℕ) where
  calls-IsSound :
      (n : ℕ) (w : World) (p : ℕ)
      → (w.pods p).phase ≡ outside
      → IsSound tid total n w
      → IsSound tid total (suc n) (put w p (enter (tid p) total (w.pods p)) [])
  unfolding enter init_create_collective
  calls-IsSound n w p e s =
      let bare : (w.pods p).collective ≡ none =
        subst (AtPhase w p (w.pods p).counted (w.pods p).collective) e (s.at_phase p) in
      let fresh : (w.pods p).counted ≡ [] =
        subst (Entry tid total p (w.pods p).counted) bare (s.entry p) in
      put-IsSound tid total n w p (enter (tid p) total (w.pods p)) [] s
        (keeps-Grows p _ _ outside e tt refl)
        (
          none,
          ap (λ cs. member [] (tid p) total (length cs) none) (sym fresh),
          subst (λ cs. occurs p cs ≡ false) (sym fresh) refl,
        )
        (omega (arith, s.short p)) tt (s.heard p) tt

  AtPhase-counted :
      (w : World) (p k : ℕ) (cs : List ℕ) (o : Option Collective) (c : Collective) (ph : Stage)
      → (o ≡ none → ⊥)
      → AtPhase w p cs o ph
      → AtPhase w p (cs ++ k ∷ []) (some c) ph
  AtPhase-counted w p k cs o c outside f h = absurd (f h)
  AtPhase-counted w p k cs o c counting f h = tt
  AtPhase-counted w p k cs o c asking f h = tt
  AtPhase-counted w p k cs o c getting f h = not_first-snoc p k cs h
  AtPhase-counted w p k cs o c (threw early) f h =
      (h.0, elim h.1 [ inl e ↦ absurd (f e) | inr g ↦ inr (not_first-snoc p k cs g) ])
  AtPhase-counted w p k cs o c (returned (created idp)) f h = is_head-snoc p k cs h
  AtPhase-counted w p k cs o c (returned (found idp)) f h = h
  AtPhase-counted w p k cs o c (returned (referenced idp)) f h = h

  -- A handler whose wait ends early ends the program of a pod that has not entered.
  stops-IsSound :
      (n : ℕ) (w : World) (p : ℕ)
      → (w.pods p).collective ≡ none
      → IsSound tid total n w
      → IsSound tid total (suc n) (put w p (record (w.pods p) { phase = threw true }) [])
  stops-IsSound n w p e s =
      put-IsSound tid total n w p (record (w.pods p) { phase = threw true }) [] s
        (record {
          stays = λ idp h. absurd (
              headless
                (subst (AtPhase w p (w.pods p).counted (w.pods p).collective) h (s.at_phase p)));
          head = λ h. h;
        })
        (s.entry p) (omega (arith, s.short p)) (refl, inl e) (s.heard p) tt
    where
      fresh : (w.pods p).counted ≡ []
      fresh = subst (Entry tid total p (w.pods p).counted) e (s.entry p)

      headless : is_head p (w.pods p).counted ≡ true → ⊥
      headless h = ground (arith, h, fresh)

  gives_up-IsSound :
      (n : ℕ) (w : World) (p : ℕ)
      → (w.pods p).phase ≡ getting
      → IsSound tid total n w
      → IsSound tid total (suc n) (put w p (record (w.pods p) { phase = threw true }) [])
  gives_up-IsSound n w p e s =
      put-IsSound tid total n w p (record (w.pods p) { phase = threw true }) [] s
        (keeps-Grows p _ _ getting e tt refl) (s.entry p) (omega (arith, s.short p))
        (refl, inr (subst (AtPhase w p (w.pods p).counted (w.pods p).collective) e (s.at_phase p)))
        (s.heard p) tt

  counted-IsSound :
      (n : ℕ) (w : World) (p k : ℕ) (d : CollectivePod)
      → occurs k (w.pods p).counted ≡ false
      → counted_in (tid k) (k == p) k (w.pods p) (w.pods p).collective ≡ some d
      → n + 1 < 2 ^ 32
      → IsSound tid total n w
      → IsSound tid total (suc n) (put w p d [])
  counted-IsSound n w p k d o h l s =
      let b = w.pods p in
      let (c, q, entry) =
        counts-some tid total p k b d (s.entry p) o (omega (arith, s.short p, l)) h in
      subst (λ y. IsSound tid total (suc n) (put w p y [])) (sym q)
        (put-IsSound tid total n w p
          (record b { collective = some c; counted = b.counted ++ k ∷ [] }) [] s
          (record { stays = λ i e. e; head = is_head-snoc p k b.counted }) entry
          (omega (arith, s.short p, length-append b.counted (k ∷ [])))
          (AtPhase-counted w p k b.counted b.collective c b.phase
            (λ e. no_entry (tid k) (k == p) k b d h e) (s.at_phase p))
          (s.heard p) tt)

  counts-IsSound :
      (n : ℕ) (w : World) (p k : ℕ) (early : Bool) (d : CollectivePod)
      → occurs k (w.pods p).counted ≡ false
      → handle_init_create_collective (tid k) (k == p) k early (w.pods p) ≡ some d
      → n + 1 < 2 ^ 32
      → IsSound tid total n w
      → IsSound tid total (suc n) (put w p d [])
  unfolding handle_init_create_collective
  counts-IsSound n w p k early d o h l s =
      let b = w.pods p in
      let x = counted_in (tid k) (k == p) k b b.collective in
      elim (or_early-some early b d x h) [
        | inl (e, (f, q)) ↦
            subst (λ y. IsSound tid total (suc n) (put w p y [])) (sym q)
              (stops-IsSound n w p (counted_in-none (tid k) (k == p) k b b.collective e) s)
        | inr g ↦ counted-IsSound n w p k d o g l s
      ]

  passes-IsSound :
      (n : ℕ) (w : World) (p : ℕ) (d : CollectivePod)
      → pass_init (w.pods p) ≡ some d
      → IsSound tid total n w
      → IsSound tid total (suc n) (put w p d [])
  passes-IsSound n w p d h s =
      let (e, q) = pass_init-some (w.pods p) d h in
      subst (λ y. IsSound tid total (suc n) (put w p y [])) (sym q)
        (put-IsSound tid total n w p (record (w.pods p) { phase = asking }) [] s
          (keeps-Grows p _ _ counting e tt refl) (s.entry p) (omega (arith, s.short p)) tt
          (s.heard p) tt)

  hears-IsSound :
      (n : ℕ) (w : World) (p k idp : ℕ)
      → get_elem? w.sent k ≡ some idp
      → IsSound tid total n w
      → IsSound tid total (suc n) (put w p (handle_create_collective_idp idp (w.pods p)) [])
  unfolding handle_create_collective_idp
  hears-IsSound n w p k idp e s =
      put-IsSound tid total n w p (record (w.pods p) { cc_idp = some idp }) [] s
        (record { stays = λ i h. h; head = λ h. h }) (s.entry p) (omega (arith, s.short p))
        (s.at_phase p) (All-get (Origin w) w.sent k idp s.origins e) tt

  got-IsSound :
      (n : ℕ) (w : World) (p : ℕ) (contains : Bool) (d : CollectivePod)
      → got_known contains (w.pods p) ≡ some d
      → IsSound tid total n w
      → IsSound tid total (suc n) (put w p d [])
  got-IsSound n w p contains d h s =
      let (idp, e, f, q) = got_idp-some contains (w.pods p) d h in
      subst (λ y. IsSound tid total (suc n) (put w p y [])) (sym q)
        (put-IsSound tid total n w p
          (record (w.pods p) { phase = returned (if contains then found idp else referenced idp) })
          [] s (keeps-Grows p _ _ getting f tt refl) (s.entry p) (omega (arith, s.short p))
          (either contains idp (subst (Heard w) e (s.heard p))) (s.heard p) tt)
    where
      either :
          (b : Bool) (idp : ℕ)
          → Origin w idp
          → AtPhase w p
              (w.pods p).counted
              (w.pods p).collective
              (returned (if b then found idp else referenced idp))
      either true idp o = o
      either false idp o = o

  gets-IsSound :
      (n : ℕ) (w : World) (p : ℕ) (contains early : Bool) (d : CollectivePod)
      → get_create_collective_idp contains early (w.pods p) ≡ some d
      → IsSound tid total n w
      → IsSound tid total (suc n) (put w p d [])
  unfolding get_create_collective_idp
  gets-IsSound n w p contains early d h s =
      let b = w.pods p in
      elim (or_early-some (early && is_getting b.phase) b d (got_known contains b) h) [
        | inl (e, (f, q)) ↦
            subst (λ y. IsSound tid total (suc n) (put w p y [])) (sym q)
              (gives_up-IsSound n w p (is_getting-eq b.phase (ground (arith, f))) s)
        | inr g ↦ got-IsSound n w p contains d g s
      ]

  told-IsSound :
      (n : ℕ) (w : World) (p idp : ℕ) (v : Option Bool) (r : CollectivePod × List ℕ)
      → (w.pods p).phase ≡ asking
      → IsTold p (w.pods p).counted v
      → branch idp (w.pods p) (some v) ≡ some r
      → IsSound tid total n w
      → IsSound tid total (suc n) (put w p r.0 r.1)
  unfolding branch
  told-IsSound n w p idp none r e t h s = absurd (none-ne-some r h)
  told-IsSound n w p idp (some true) r e t h s =
      subst (λ y. IsSound tid total (suc n) (put w p y.0 y.1)) (some-injective _ _ h)
        (put-IsSound tid total n w p (record (w.pods p) { phase = returned (created idp) })
          (idp ∷ []) s (keeps-Grows p _ _ asking e tt refl) (s.entry p) (omega (arith, s.short p))
          (sym t.1) (s.heard p) (new_origin, tt))
    where
      new_origin :
          Origin (put w p (record (w.pods p) { phase = returned (created idp) }) (idp ∷ [])) idp
      new_origin = (
        p,
        rw (put_self w p (record (w.pods p) { phase = returned (created idp) }) (idp ∷ [])) refl,
        rw (put_self w p (record (w.pods p) { phase = returned (created idp) }) (idp ∷ []))
            (sym t.1),
      )
  told-IsSound n w p idp (some false) r e t h s =
      subst (λ y. IsSound tid total (suc n) (put w p y.0 y.1)) (some-injective _ _ h)
        (put-IsSound tid total n w p (record (w.pods p) { phase = getting }) [] s
          (keeps-Grows p _ _ asking e tt refl) (s.entry p) (omega (arith, s.short p)) (t.0, sym t.1)
          (s.heard p) tt)

  pub get_first-member :
      (t : Bytes) (k : ℕ) (v : Option Bool)
      → get_create_collective_first (member [] t total k v).cc_first t ≡ some v
  unfolding get_create_collective_first
  get_first-member t k v = rw (bytes_eq_self t) refl

  asks-IsSound :
      (n : ℕ) (w : World) (p idp : ℕ) (r : CollectivePod × List ℕ)
      → ask (tid p) idp (w.pods p) ≡ some r
      → IsSound tid total n w
      → IsSound tid total (suc n) (put w p r.0 r.1)
  asks-IsSound n w p idp r h s =
      let b = w.pods p in
      let (c, f, e, g) = ask-some (tid p) idp b r h in
      let (v, m, t) : Entry tid total p b.counted (some c) =
        subst (Entry tid total p b.counted) f (s.entry p) in
      told-IsSound n w p idp v r e t
        (ap (branch idp b) (
            sym (get_first-member (tid p) (length b.counted) v)
            ∙ ap (λ y. get_create_collective_first y.cc_first (tid p)) (sym m))
          ∙ g)
        s

  Step-IsSound :
      (n : ℕ) {w v : World}
      → n + 1 < 2 ^ 32
      → IsSound tid total n w
      → Step tid total w v
      → IsSound tid total (suc n) v
  Step-IsSound n {w} l s (calls p e) = calls-IsSound n w p e s
  Step-IsSound n {w} l s (counts p k early d c o h) = counts-IsSound n w p k early d o h l s
  Step-IsSound n {w} l s (passes p d h) = passes-IsSound n w p d h s
  Step-IsSound n {w} l s (asks p idp r h) = asks-IsSound n w p idp r h s
  Step-IsSound n {w} l s (hears p k idp h) = hears-IsSound n w p k idp h s
  Step-IsSound n {w} l s (gets p contains early d h) = gets-IsSound n w p contains early d h s

  pub Run-IsSound : {n : ℕ} {w : World} → n < 2 ^ 32 → Run tid total n w → IsSound tid total n w
  unfolding quiet
  Run-IsSound l starts = record {
    entry = λ p. refl;
    short = λ p. omega arith;
    at_phase = λ p. refl;
    heard = λ p. tt;
    origins = tt;
  }
  Run-IsSound l (then_steps {n} r s) =
      Step-IsSound n (omega (arith, l)) (Run-IsSound (omega (arith, l)) r) s
