-- ===== src/Collective/Agree.antt =====
-- All members of a collective creation get the same resource, and how they go on.
use pla_co_r.Base.{
  ℕ, ◌^◌, ◌<◌, ◌≡◌, refl, sym, ap, subst, ◌∙◌, Bool, true, false, Option, none, some, none-ne-some,
  List, [], ◌∷◌, length, ◌⊎◌, ◌==◌, Bool-cases, inl, inr, ==_iff, if◌then◌else◌, arith,
}
use pla_co_r.Text.Bytes.{Bytes}
use pla_co_r.Collective.Init.{Collective}
use pla_co_r.Collective.First.{member}
use pla_co_r.Collective.Creation.{
  Pointer, created, found, referenced, Stage, outside, counting, asking, getting, threw, returned,
  CollectivePod, World, pass_init, ask, branch, get_create_collective_first,
  get_create_collective_idp, occurs, Run,
}
use pla_co_r.Collective.Origin.{is_head, IsTold, Entry, Origin, AtPhase, IsSound}
use pla_co_r.Collective.Steps.{Run-IsSound, get_first-member}

-- A pod that has counted anything has counted the message of the pod `l` first.
abbrev pub FirstIs : ℕ → List ℕ → Type 0
FirstIs l [] = Unit
FirstIs l (x ∷ xs) = x ≡ l

abbrev pub idp_of : Pointer → ℕ
idp_of (created idp) = idp
idp_of (found idp) = idp
idp_of (referenced idp) = idp

abbrev pub is_created : Pointer → Bool
is_created (created idp) = true
is_created (found idp) = false
is_created (referenced idp) = false

abbrev is_creator : Stage → Bool
is_creator (returned x) = is_created x
is_creator _ = false

is_head-FirstIs : (l p : ℕ) (cs : List ℕ) → FirstIs l cs → is_head p cs ≡ true → p ≡ l
is_head-FirstIs l p [] f h = cc
is_head-FirstIs l p (x ∷ cs) f h = sym ((==_iff x p).0 h) ∙ f

module _ (w : World) (l : ℕ) (firsts : (p : ℕ) → FirstIs l (w.pods p).counted) where
  from_first : (idp : ℕ) → Origin w idp → (w.pods l).phase ≡ returned (created idp)
  from_first idp (q, e, h) =
      subst (λ r. (w.pods r).phase ≡ returned (created idp))
        (is_head-FirstIs l q (w.pods q).counted (firsts q) h) e

  abbrev Shares : ℕ → Pointer → Type 0
  Shares p x = ((w.pods l).phase ≡ returned (created (idp_of x))) × (is_created x ≡ (p == l))

  Origin-Shares :
      (p : ℕ) (x : Pointer)
      → (w.pods p).phase ≡ returned x
      → is_created x ≡ false
      → Origin w (idp_of x)
      → Shares p x
  Origin-Shares p x e c o = (
    from_first (idp_of x) o,
    elim (Bool-cases (p == l)) [
      | inl s ↦
          ap is_creator (sym e)
          ∙ ap (λ r. is_creator (w.pods r).phase) ((==_iff p l).0 s)
          ∙ ap is_creator (from_first (idp_of x) o)
          ∙ sym s
      | inr s ↦ c ∙ sym s
    ],
  )

  shared :
      (p : ℕ) (x : Pointer)
      → (w.pods p).phase ≡ returned x
      → AtPhase w p (w.pods p).counted (w.pods p).collective (returned x)
      → Shares p x
  shared p (created idp) e h =
      let same = is_head-FirstIs l p (w.pods p).counted (firsts p) h in
      (subst (λ r. (w.pods r).phase ≡ returned (created idp)) same e, sym ((==_iff p l).1 same))
  shared p (found idp) e h = Origin-Shares p (found idp) e refl h
  shared p (referenced idp) e h = Origin-Shares p (referenced idp) e refl h

-- If no pod has counted another message before that of the pod `l`, then, whatever the order in
-- which the pods call, count, hear and wake up, in fewer than 2^32 steps, every member that has
-- returned has the resource that the member of `l` created, and only the member of `l` has created
-- one.
pub agreed :
    (tid : ℕ → Bytes) (total n : ℕ) (w : World) (l p : ℕ) (x : Pointer)
    → Run tid total n w
    → n < 2 ^ 32
    → ((q : ℕ) → FirstIs l (w.pods q).counted)
    → (w.pods p).phase ≡ returned x
    → ((w.pods l).phase ≡ returned (created (idp_of x))) × (is_created x ≡ (p == l))
agreed tid total n w l p x r b firsts e = shared w l firsts p x e (
    subst (AtPhase w p (w.pods p).counted (w.pods p).collective) e
      ((Run-IsSound tid total b r).at_phase p))

-- The next step of the member of a pod is there, or it is not the first and no identifier has come,
-- or a wait ended early.
abbrev pub GoesOn : Bytes → ℕ → ℕ → Bool → CollectivePod → Stage → Type 0
GoesOn tid p idp contains d outside = Unit
GoesOn tid p idp contains d counting = (e : CollectivePod) × (pass_init d ≡ some e)
GoesOn tid p idp contains d asking = (r : CollectivePod × List ℕ) × (ask tid idp d ≡ some r)
GoesOn tid p idp contains d getting =
    ((e : CollectivePod) × (get_create_collective_idp contains false d ≡ some e))
    ⊎ ((d.cc_idp ≡ none) × (is_head p d.counted ≡ false))
GoesOn tid p idp contains d (threw early) = (early ≡ true) × (is_head p d.counted ≡ false)
GoesOn tid p idp contains d (returned x) = Unit

pass_lem :
    (d : CollectivePod) (c : Collective)
    → d.collective ≡ some c
    → d.phase ≡ counting
    → c.count ≡ c.total_members
    → pass_init d ≡ some (record d { phase = asking })
unfolding pass_init
pass_lem d c f e h = ground arith

ask_lem :
    (tid : Bytes) (idp : ℕ) (d : CollectivePod) (c : Collective) (o : Option (Option Bool))
    → d.collective ≡ some c
    → d.phase ≡ asking
    → get_create_collective_first c.cc_first tid ≡ o
    → ask tid idp d ≡ branch idp d o
unfolding ask
ask_lem tid idp d c o f e h = ground arith

get_lem :
    (contains : Bool) (d : CollectivePod) (idp : ℕ)
    → d.cc_idp ≡ some idp
    → d.phase ≡ getting
    → get_create_collective_idp contains false d
      ≡ some (record d { phase = returned (if contains then found idp else referenced idp) })
unfolding get_create_collective_idp
get_lem contains d idp f e = ground arith

empty : (p : ℕ) (cs : List ℕ) → cs ≡ [] → occurs p cs ≡ true → ⊥
empty p [] e h = cc
empty p (x ∷ cs) e h = cc

module _ (tid : ℕ → Bytes) (total idp p : ℕ) (contains : Bool) (d : CollectivePod) (c : Collective)
    (v : Option Bool) (own : occurs p d.counted ≡ true) (entered : d.collective ≡ some c)
    (is_member : c ≡ member [] (tid p) total (length d.counted) v) (told : IsTold p d.counted v)
    (all : length d.counted ≡ total) where
  value : get_create_collective_first c.cc_first (tid p) ≡ some v
  value =
      ap (λ y. get_create_collective_first y.cc_first (tid p)) is_member
      ∙ get_first-member tid total (tid p) (length d.counted) v

  asks_on :
      (u : Option Bool)
      → v ≡ u
      → IsTold p d.counted u
      → d.phase ≡ asking
      → (r : CollectivePod × List ℕ) × (ask (tid p) idp d ≡ some r)
  unfolding branch
  asks_on none g t e = absurd (ground arith)
  asks_on (some true) g t e = (
    (record d { phase = returned (created idp) }, idp ∷ []),
    ask_lem (tid p) idp d c (some (some true)) entered e (value ∙ ap some g),
  )
  asks_on (some false) g t e = (
    (record d { phase = getting }, []),
    ask_lem (tid p) idp d c (some (some false)) entered e (value ∙ ap some g),
  )

  gets_on :
      (o : Option ℕ)
      → d.cc_idp ≡ o
      → d.phase ≡ getting
      → is_head p d.counted ≡ false
      → GoesOn (tid p) p idp contains d getting
  gets_on none f e h = inr (f, h)
  gets_on (some heard) f e h = inl (
    record d { phase = returned (if contains then found heard else referenced heard) },
    get_lem contains d heard f e,
  )

  by_phase :
      (w : World) (ph : Stage)
      → d.phase ≡ ph
      → AtPhase w p d.counted d.collective ph
      → GoesOn (tid p) p idp contains d ph
  by_phase w outside e h = tt
  by_phase w counting e h =
      (record d { phase = asking }, pass_lem d c entered e (ground (arith, is_member, all)))
  by_phase w asking e h = asks_on v refl told e
  by_phase w getting e h = gets_on d.cc_idp refl e h.1
  by_phase w (threw early) e h =
      (h.0, elim h.1 [ inl f ↦ absurd (none-ne-some c (sym f ∙ entered)) | inr g ↦ g.1 ])
  by_phase w (returned x) e h = tt

-- A member whose pod has counted the messages of all members, its own among them, is not stuck,
-- whatever happened before, in fewer than 2^32 steps: it has returned, or its next step is there,
-- or it is not the first, and waits for an identifier that has not come, or has ended with an
-- exception behind a wait that a spurious wake-up ended early. The first never throws.
pub goes_on :
    (tid : ℕ → Bytes) (total n : ℕ) (w : World) (p idp : ℕ) (contains : Bool)
    → Run tid total n w
    → n < 2 ^ 32
    → occurs p (w.pods p).counted ≡ true
    → length (w.pods p).counted ≡ total
    → GoesOn (tid p) p idp contains (w.pods p) (w.pods p).phase
goes_on tid total n w p idp contains r b own all =
    let s = Run-IsSound tid total b r in go s (w.pods p).collective refl (s.entry p)
  where
    go :
        IsSound tid total n w
        → (o : Option Collective) → (w.pods p).collective ≡ o
        → Entry tid total p (w.pods p).counted o
        → GoesOn (tid p) p idp contains (w.pods p) (w.pods p).phase
    go s none f e = absurd (empty p (w.pods p).counted e own)
    go s (some c) f (v, m, t) =
        by_phase tid total idp p contains (w.pods p) c v own f m t all w (w.pods p).phase refl
          (s.at_phase p)
