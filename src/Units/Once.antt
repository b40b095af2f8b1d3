-- ===== src/Units/Once.antt =====
-- Every agent of a pool (units/pool.cpp) runs every dispatched task, once.
use mathlib.Core.Bool.{true≢false}
use mathlib.Core.List.{append-nil, append_assoc}
use pla_co_r.Base.{
  ℕ, zero, suc, ◌+◌, ◌^◌, ◌<◌, ◌≡◌, ◌⊎◌, refl, sym, ◌∙◌, ap, subst, Bool, true, false, Option, none,
  some, List, [], ◌∷◌, ◌++◌, length, get_elem?, set, replicate, total-replicate, All, All-imp,
  All-get, All-zip, if◌then◌else◌, ◌==◌, Bool-cases, inl, inr, arith,
}
use pla_co_r.Units.Range.{size_t}
use pla_co_r.Units.Pool.{
  barrier, arrive, same, release_threads, Task, Pc, starts, waits, released, runs, ends, Agent,
  Owner, outside, dispatching, idle_for, assigned, shutting, idle_to_shut, joining, Pool, pool,
  agent_step, owner_step, Event, agent, owner_goes_on, dispatch, join_agents, went_on, step, run,
}
use pla_co_r.Units.Dispatch.{
  dispatched, Keeps, at_release, releases, Up, Good, here, arrived, Idle, pool_of, Counted, Inv,
  All-set, turned, retasked, up_to_date, same_self, All-gone, All-here, moved_Counted,
  one_more_here,
}

abbrev at : Pc → List (Option Task) → Agent
at pc ran = record { pc = pc; ran = ran }

becomes-Idle : (o : Owner) (i : Bool) → Idle o i → Idle o true
becomes-Idle outside i h = h
becomes-Idle (dispatching u) i h = h
becomes-Idle (idle_for u) i h = refl
becomes-Idle assigned i h = refl
becomes-Idle shutting i h = h
becomes-Idle idle_to_shut i h = h
becomes-Idle joining i h = h

module _ (n : ℕ) (m : n < 2 ^ 64) (log : List (Option Task)) (t : Option Task) (o : Owner) where
  abbrev Held : ℕ → Bool → Bool → List Agent → Type 0
  Held c s i xs = Inv n log (pool_of n c s i t xs o)

  held :
      (c : ℕ) (s i : Bool) (xs : List Agent)
      → Counted n c s i xs
      → All (λ a. Good s log t a.pc a.ran) xs
      → Idle o i
      → Held c s i xs
  held c s i xs h g d = (refl, (refl, (h, (g, d))))

  -- An agent that moves where it is not counted.
  moved :
      (c : ℕ) (s i : Bool) (xs : List Agent) (k : ℕ) (a b : Agent)
      → get_elem? xs k ≡ some a
      → here s a.pc ≡ here s b.pc
      → Good s log t b.pc b.ran
      → Held c s i xs
      → Held c s i (set xs k b)
  moved c s i xs k a b e f g h =
      held c s i (set xs k b) (moved_Counted n m log c s i xs k a b e f h.1.1.0)
        (All-set _ xs k b h.1.1.1.0 g) h.1.1.1.1

  Good-at :
      (c : ℕ) (s i : Bool) (xs : List Agent) (k : ℕ) (a : Agent)
      → get_elem? xs k ≡ some a
      → Held c s i xs
      → Good s log t a.pc a.ran
  Good-at c s i xs k a e h = All-get (λ a. Good s log t a.pc a.ran) xs k a h.1.1.1.0 e

  whole : (c : ℕ) → (size_t (c + 1) == n) ≡ true → c < n → suc c ≡ n
  whole c f l = ground (arith, f, l, m)

  less : (c : ℕ) → (size_t (c + 1) == n) ≡ false → c < n → size_t (c + 1) < n
  less c f l = ground (arith, f, l, m)

  not_idle :
      (c : ℕ) (i : Bool) (w : ℕ)
      → i ≡ false
      → w ≡ suc c
      → c < n
      → w ≡ (if i then n else size_t (c + 1))
  not_idle c i w e f l = rw e (omega (arith, f, l, m))

  -- `Barrier::Wait` of an agent.
  arrived_Held :
      (c : ℕ) (s i : Bool) (xs : List Agent) (k : ℕ) (ran : List (Option Task))
      → get_elem? xs k ≡ some (at starts ran)
      → Held c s i xs
      → Inv n log (went_on k (pool_of n c s i t xs o) (some (at starts ran)))
  unfolding went_on agent_step arrive
  arrived_Held c s i xs k ran e h =
      let b = at (waits s) ran in
      let old = h.1.1.0 in
      let now = one_more_here n m log c s i xs k _ b e refl (rw (same_self s) refl) old in
      let good =
        All-set (λ a. Good s log t a.pc a.ran) xs k b h.1.1.1.0
          (subst (λ x. Up x log t ran) (sym (same_self s)) (Good-at c s i xs k _ e h)) in
      elim (Bool-cases (size_t (c + 1) == n)) [
        | inl f ↦ rw f (
            held 0 s true (set xs k b)
              (now.1.0, (now.1.1 ∙ whole c f old.1.1.0, (omega (arith, old.1.1.0), λ x. refl))) good
              (becomes-Idle o i h.1.1.1.1))
        | inr f ↦ rw f (
            held (size_t (c + 1)) s i (set xs k b)
              (
                now.1.0,
                (
                  not_idle c i _ now.0 now.1.1 old.1.1.0,
                  (less c f old.1.1.0, λ x. absurd (true≢false (sym x ∙ now.0))),
                ),
              )
              good h.1.1.1.1)
      ]

  agent_Held :
      (c : ℕ) (s i : Bool) (xs : List Agent) (k : ℕ) (pc : Pc) (ran : List (Option Task))
      → get_elem? xs k ≡ some (at pc ran)
      → Held c s i xs
      → Inv n log (went_on k (pool_of n c s i t xs o) (some (at pc ran)))
  unfolding went_on agent_step
  agent_Held c s i xs k starts ran e h = arrived_Held c s i xs k ran e h
  agent_Held c s i xs k (waits l) ran e h = elim (Bool-cases (same l s)) [
    | inl f ↦ rw f (moved c s i xs k _ (at (waits l) ran) e refl (Good-at c s i xs k _ e h) h)
    | inr f ↦ rw f (
        moved c s i xs k _ (at released ran) e (rw f refl)
          (subst (λ b. Up b log t ran) f (Good-at c s i xs k _ e h)) h)
  ]
  agent_Held c s i xs k released ran e h =
      moved c s i xs k _ (at (runs t) (ran ++ t ∷ [])) e refl (sym (Good-at c s i xs k _ e h)) h
  agent_Held c s i xs k (runs u) ran e h =
      moved c s i xs k _ (at starts ran) e refl (Good-at c s i xs k _ e h) h
  agent_Held c s i xs k ends ran e h = elim (Good-at c s i xs k _ e h) [ ]

unlogged : (n : ℕ) (log : List (Option Task)) (p : Pool) → Inv n log p → Inv n (log ++ []) p
unlogged n log p h = subst (λ l. Inv n l p) (sym (append-nil log)) h

module _ (n : ℕ) (m : n < 2 ^ 64) (log : List (Option Task)) where
  All-waiting :
      (t : Option Task) (o : Owner) (c : ℕ) (s : Bool) (xs : List Agent)
      → Held n m log t o c s true xs
      → All (λ a. (here s a.pc ≡ 1) × Good s log t a.pc a.ran) xs
  All-waiting t o c s xs h = All-zip _ _ xs (All-here n m log c s xs h.1.1.0) h.1.1.1.0

  owner_Inv :
      (t : Option Task) (o : Owner) (c : ℕ) (s i : Bool) (xs : List Agent)
      → Held n m log t o c s i xs
      → Inv n (log ++ at_release o t) (owner_step (pool_of n c s i t xs o))
  unfolding owner_step release_threads
  owner_Inv t outside c s i xs h = unlogged n log (pool_of n c s i t xs outside) h
  owner_Inv t (dispatching u) c s true xs h =
      unlogged n log (pool_of n c s true t xs (idle_for u))
        (h.0, (h.1.0, (h.1.1.0, (h.1.1.1.0, refl))))
  owner_Inv t (dispatching u) c s false xs h =
      unlogged n log (pool_of n c s false t xs (dispatching u)) h
  owner_Inv t (idle_for u) c s false xs h = absurd (true≢false (sym h.1.1.1.1))
  owner_Inv t (idle_for u) c s true xs h =
      unlogged n log (pool_of n c s true (some u) xs assigned) (
        h.0,
        (
          h.1.0,
          (
            h.1.1.0,
            (
              All-imp _ _ (λ a g. retasked log t (some u) a.ran s a.pc g.0 g.1) xs
                  (All-waiting t (idle_for u) c s xs h),
              refl,
            ),
          ),
        ),
      )
  owner_Inv t assigned c s false xs h = absurd (true≢false (sym h.1.1.1.1))
  owner_Inv t assigned c s true xs h =
      let w = All-waiting t assigned c s xs h in
      let k = h.1.1.0 in
      (
        h.0,
        (
          h.1.0,
          (
            (
              k.0,
              (
                All-gone s xs (All-here n m log c s xs k) ∙ sym (k.1.1.1 refl),
                (k.1.1.0, λ x. absurd (true≢false (sym x))),
              ),
            ),
            (All-imp _ _ (λ a g. turned log t t a.ran s a.pc g.0 g.1) xs w, tt),
          ),
        ),
      )
  owner_Inv t shutting c s i xs h = elim h.1.1.1.1 [ ]
  owner_Inv t idle_to_shut c s i xs h = elim h.1.1.1.1 [ ]
  owner_Inv t joining c s i xs h = elim h.1.1.1.1 [ ]

  dispatch_Inv :
      (t : Option Task) (o : Owner) (c : ℕ) (s i : Bool) (xs : List Agent) (u : Task)
      → Held n m log t o c s i xs
      → Inv n (log ++ []) (step (dispatch u) (pool_of n c s i t xs o))
  unfolding step
  dispatch_Inv t outside c s i xs u h = unlogged n log (pool_of n c s i t xs (dispatching u)) h
  dispatch_Inv t (dispatching v) c s i xs u h =
      unlogged n log (pool_of n c s i t xs (dispatching v)) h
  dispatch_Inv t (idle_for v) c s i xs u h = unlogged n log (pool_of n c s i t xs (idle_for v)) h
  dispatch_Inv t assigned c s i xs u h = unlogged n log (pool_of n c s i t xs assigned) h
  dispatch_Inv t shutting c s i xs u h = unlogged n log (pool_of n c s i t xs shutting) h
  dispatch_Inv t idle_to_shut c s i xs u h = unlogged n log (pool_of n c s i t xs idle_to_shut) h
  dispatch_Inv t joining c s i xs u h = unlogged n log (pool_of n c s i t xs joining) h

  agent_Inv :
      (t : Option Task) (o : Owner) (c : ℕ) (s i : Bool) (xs : List Agent) (k : ℕ)
      (a : Option Agent)
      → get_elem? xs k ≡ a
      → Held n m log t o c s i xs
      → Inv n (log ++ []) (went_on k (pool_of n c s i t xs o) a)
  unfolding went_on
  agent_Inv t o c s i xs k none e h = unlogged n log (pool_of n c s i t xs o) h
  agent_Inv t o c s i xs k (some a) e h =
      unlogged n log (went_on k (pool_of n c s i t xs o) (some a))
        (agent_Held n m log t o c s i xs k a.pc a.ran e h)

  event_Inv :
      (e : Event) (t : Option Task) (o : Owner) (c : ℕ) (s i : Bool) (xs : List Agent)
      → Keeps e
      → Held n m log t o c s i xs
      → Inv n (log ++ releases e (pool_of n c s i t xs o)) (step e (pool_of n c s i t xs o))
  unfolding step
  event_Inv (agent k) t o c s i xs q h = agent_Inv t o c s i xs k (get_elem? xs k) refl h
  event_Inv owner_goes_on t o c s i xs q h = owner_Inv t o c s i xs h
  event_Inv (dispatch u) t o c s i xs q h = dispatch_Inv t o c s i xs u h
  event_Inv join_agents t o c s i xs q h = elim q [ ]

  state_of :
      (p : Pool)
      → Inv n log p
      → p ≡ pool_of n p.barrier.counter p.barrier.status p.barrier.is_idle p.task p.agents p.owner
  state_of p h =
      ap (λ k. record p { barrier = record p.barrier { nthreads = k } }) h.0
      ∙ ap (λ b. record p { barrier = record p.barrier { nthreads = n }; shut = b }) h.1.0

  step-Inv : (e : Event) (p : Pool) → Keeps e → Inv n log p → Inv n (log ++ releases e p) (step e p)
  step-Inv e p q h =
      subst (λ p. Inv n log p → Inv n (log ++ releases e p) (step e p)) (sym (state_of p h))
        (event_Inv e p.task p.owner p.barrier.counter p.barrier.status p.barrier.is_idle p.agents q)
        h

run-Inv :
    (n : ℕ)
    → n < 2 ^ 64
    → (es : List Event) (log : List (Option Task)) (p : Pool) → All Keeps es
    → Inv n log p
    → Inv n (log ++ dispatched es p) (run es p)
unfolding dispatched run
run-Inv n m [] log p q h = unlogged n log p h
run-Inv n m (e ∷ es) log p q h =
    subst (λ l. Inv n l (run es (step e p)))
      (append_assoc log (releases e p) (dispatched es (step e p)))
      (run-Inv n m es (log ++ releases e p) (step e p) q.1 (step-Inv n m log e p q.0 h))

length-replicate : (k : ℕ) (a : Agent) → length (replicate k a) ≡ k
length-replicate zero a = refl
length-replicate (suc k) a = ap suc (length-replicate k a)

All-replicate : (P : Agent → Type 0) (k : ℕ) (a : Agent) → P a → All P (replicate k a)
All-replicate P zero a h = tt
All-replicate P (suc k) a h = (h, All-replicate P k a h)

pool-Inv : (n : ℕ) → 0 < n → Inv n [] (pool n)
unfolding pool barrier
pool-Inv n l = (
  refl,
  (
    refl,
    (
      (
        length-replicate n (at starts []),
        (
          total-replicate (arrived true) n (at starts []) refl,
          (l, λ x. absurd (true≢false (sym x))),
        ),
      ),
      (All-replicate _ n (at starts []) refl, tt),
    ),
  ),
)

behind_by_one :
    (s : Bool) (log : List (Option Task)) (t : Option Task) (pc : Pc) (ran : List (Option Task))
    → Good s log t pc ran
    → (ran ≡ log) ⊎ ((u : Option Task) × (log ≡ ran ++ u ∷ []))
behind_by_one s log t starts ran g = inl g
behind_by_one s log t (waits l) ran g = go (same l s) g
  where
    go : (b : Bool) → Up b log t ran → (ran ≡ log) ⊎ ((u : Option Task) × (log ≡ ran ++ u ∷ []))
    go true g = inl g
    go false g = inr (t, g)
behind_by_one s log t released ran g = inr (t, g)
behind_by_one s log t (runs u) ran g = inl g
behind_by_one s log t ends ran g = elim g [ ]

-- While nobody destroys a pool of agents, fewer than 2^64 and at least one, every agent has run the
-- tasks for which the agents were released, each of them once and in their order, or all of them
-- but the last; and while the barrier is idle, which is what `WaitForIdle` waits for, each has run
-- all of them.
pub each_task_once :
    (n : ℕ) (es : List Event)
    → 0 < n
    → n < 2 ^ 64
    → All Keeps es
    → (length (run es (pool n)).agents ≡ n)
      × (All
            (λ a.
              (a.ran ≡ dispatched es (pool n))
              ⊎ ((u : Option Task) × (dispatched es (pool n) ≡ a.ran ++ u ∷ [])))
            (run es (pool n)).agents
          × ((run es (pool n)).barrier.is_idle ≡ true
              → All (λ a. a.ran ≡ dispatched es (pool n)) (run es (pool n)).agents))
each_task_once n es l m q =
    let log = dispatched es (pool n) in
    let p = run es (pool n) in
    let h = run-Inv n m es [] (pool n) q (pool-Inv n l) in
    (
      h.1.1.0.0,
      (
        All-imp _ _ (λ a g. behind_by_one p.barrier.status log p.task a.pc a.ran g) p.agents
            h.1.1.1.0,
        (λ i.
            All-imp _ _ (λ a g. up_to_date log p.task p.task a.ran p.barrier.status a.pc g.0 g.1)
              p.agents
              (All-zip _ _ p.agents
                (All-here n m log p.barrier.counter p.barrier.status p.agents
                  (subst (λ b. Counted n p.barrier.counter p.barrier.status b p.agents) i h.1.1.0))
                h.1.1.1.0)),
      ),
    )
