-- ===== src/Units/Dispatch.antt =====
-- What the agents of a pool (units/pool.cpp) run, while nobody destroys the pool.
use pla_co_r.Base.{
  ℕ, zero, suc, ◌^◌, ◌≤◌, ◌<◌, ◌≡◌, refl, sym, ◌∙◌, ap, subst, Bool, true, false, not, Option, some,
  List, [], ◌∷◌, ◌++◌, length, get_elem?, set, total, total-set, All, if◌then◌else◌, Bool-cases,
  inl, inr, arith,
}
use pla_co_r.Units.Pool.{
  same, Task, Pc, starts, waits, released, runs, ends, Agent, Owner, outside, dispatching, idle_for,
  assigned, Pool, Event, owner_goes_on, join_agents, step,
}

-- The tasks for which the agents are released, in order.
abbrev pub at_release : Owner → Option Task → List (Option Task)
at_release assigned t = t ∷ []
at_release _ t = []

abbrev pub releases : Event → Pool → List (Option Task)
releases owner_goes_on p = at_release p.owner p.task
releases _ p = []

unfoldable pub dispatched : List Event → Pool → List (Option Task)
unfolding step
dispatched [] p = []
dispatched (e ∷ es) p = releases e p ++ dispatched es (step e p)

-- Nobody destroys the pool.
abbrev pub Keeps : Event → Type 0
Keeps join_agents = ⊥
Keeps _ = Unit

-- What an agent has run: all tasks of the log, or all but the last, which is the pool's.
abbrev pub Up : Bool → List (Option Task) → Option Task → List (Option Task) → Type 0
Up true log t ran = ran ≡ log
Up false log t ran = log ≡ ran ++ t ∷ []

abbrev pub Good : Bool → List (Option Task) → Option Task → Pc → List (Option Task) → Type 0
Good s log t starts ran = Up true log t ran
Good s log t (waits l) ran = Up (same l s) log t ran
Good s log t released ran = Up false log t ran
Good s log t (runs u) ran = Up true log t ran
Good s log t ends ran = ⊥

abbrev pub here : Bool → Pc → ℕ
here s (waits l) = if same l s then 1 else 0
here s _ = 0

abbrev pub arrived : Bool → Agent → ℕ
arrived s a = here s a.pc

abbrev pub Idle : Owner → Bool → Type 0
Idle outside i = Unit
Idle (dispatching t) i = Unit
Idle (idle_for t) i = i ≡ true
Idle assigned i = i ≡ true
Idle _ i = ⊥

abbrev pub pool_of : (n c : ℕ) → (s i : Bool) → Option Task → List Agent → Owner → Pool
pool_of n c s i t xs o = record {
  barrier = record { nthreads = n; counter = c; status = s; is_idle = i };
  task = t;
  shut = false;
  agents = xs;
  owner = o;
}

-- The agents that have arrived are counted.
abbrev pub Counted : (n c : ℕ) → (s i : Bool) → List Agent → Type 0
Counted n c s i xs =
    (length xs ≡ n)
    × ((total (arrived s) xs ≡ (if i then n else c)) × ((c < n) × (i ≡ true → c ≡ 0)))

abbrev pub Inv : ℕ → List (Option Task) → Pool → Type 0
Inv n log p =
    (p.barrier.nthreads ≡ n)
    × ((p.shut ≡ false)
        × (Counted n p.barrier.counter p.barrier.status p.barrier.is_idle p.agents
            × (All (λ a. Good p.barrier.status log p.task a.pc a.ran) p.agents
                × Idle p.owner p.barrier.is_idle)))

pub All-set :
    (P : Agent → Type 0) (xs : List Agent) (k : ℕ) (a : Agent) → All P xs → P a → All P (set xs k a)
All-set P [] k a h g = tt
All-set P (x ∷ xs) zero a h g = (g, h.1)
All-set P (x ∷ xs) (suc k) a h g = (h.0, All-set P xs k a h.1 g)

pub length-set : (xs : List Agent) (k : ℕ) (a : Agent) → length (set xs k a) ≡ length xs
length-set [] k a = refl
length-set (x ∷ xs) zero a = refl
length-set (x ∷ xs) (suc k) a = ap suc (length-set xs k a)

here-le : (s : Bool) (pc : Pc) → here s pc ≤ 1
here-le s starts = omega arith
here-le s (waits l) = elim (Bool-cases (same l s)) [
  | inl e ↦ rw e (omega arith)
  | inr e ↦ rw e (omega arith)
]
here-le s released = omega arith
here-le s (runs t) = omega arith
here-le s ends = omega arith

pub total-le : (s : Bool) (xs : List Agent) → total (arrived s) xs ≤ length xs
unfolding total
total-le s [] = omega arith
total-le s (a ∷ xs) = omega (arith, here-le s a.pc, total-le s xs)

-- If all have arrived, each has.
each_here :
    (s : Bool) (xs : List Agent) → total (arrived s) xs ≡ length xs → All (λ a. here s a.pc ≡ 1) xs
unfolding total
each_here s [] e = tt
each_here s (a ∷ xs) e = (
  omega (arith, e, here-le s a.pc, total-le s xs),
  each_here s xs (omega (arith, e, here-le s a.pc, total-le s xs)),
)

-- What holds of the arrived agents holds of an agent that waits with the status of the barrier.
arrived_elim :
    (P : Bool → Pc → Type 0)
    → ((s : Bool) → P s (waits s))
    → (s : Bool) (pc : Pc) → here s pc ≡ 1
    → P s pc
arrived_elim P f s starts h = absurd (omega (arith, h))
arrived_elim P f true (waits true) h = f true
arrived_elim P f true (waits false) h = absurd (omega (arith, h))
arrived_elim P f false (waits true) h = absurd (omega (arith, h))
arrived_elim P f false (waits false) h = f false
arrived_elim P f s released h = absurd (omega (arith, h))
arrived_elim P f s (runs t) h = absurd (omega (arith, h))
arrived_elim P f s ends h = absurd (omega (arith, h))

pub same_self : (s : Bool) → same s s ≡ true
same_self true = refl
same_self false = refl

same-not : (s : Bool) → same s (not s) ≡ false
same-not true = refl
same-not false = refl

module _ (log : List (Option Task)) (t u : Option Task) (ran : List (Option Task)) where
  -- An agent that has arrived is up to date, and behind once the status has changed.
  pub turned :
      (s : Bool) (pc : Pc)
      → here s pc ≡ 1
      → Good s log t pc ran
      → Good (not s) (log ++ u ∷ []) u pc ran
  turned =
      arrived_elim (λ s pc. Good s log t pc ran → Good (not s) (log ++ u ∷ []) u pc ran)
        (λ s g.
          subst (λ b. Up b (log ++ u ∷ []) u ran) (sym (same-not s))
            (ap (λ l. l ++ u ∷ []) (sym (subst (λ b. Up b log t ran) (same_self s) g))))

  -- The task of the pool is changed while all agents are up to date.
  pub retasked : (s : Bool) (pc : Pc) → here s pc ≡ 1 → Good s log t pc ran → Good s log u pc ran
  retasked =
      arrived_elim (λ s pc. Good s log t pc ran → Good s log u pc ran)
        (λ s g.
          subst (λ b. Up b log u ran) (sym (same_self s))
            (subst (λ b. Up b log t ran) (same_self s) g))

  pub up_to_date : (s : Bool) (pc : Pc) → here s pc ≡ 1 → Good s log t pc ran → ran ≡ log
  up_to_date =
      arrived_elim (λ s pc. Good s log t pc ran → ran ≡ log)
        (λ s g. subst (λ b. Up b log t ran) (same_self s) g)

turned_here : (s : Bool) (pc : Pc) → here s pc ≡ 1 → here (not s) pc ≡ 0
turned_here = arrived_elim (λ s pc. here (not s) pc ≡ 0) (λ s. rw (same-not s) refl)

pub All-gone :
    (s : Bool) (xs : List Agent) → All (λ a. here s a.pc ≡ 1) xs → total (arrived (not s)) xs ≡ 0
unfolding total
All-gone s [] h = refl
All-gone s (a ∷ xs) h = omega (arith, turned_here s a.pc h.0, All-gone s xs h.1)

module _ (n : ℕ) (m : n < 2 ^ 64) (log : List (Option Task)) where
  -- An idle barrier.
  pub All-here :
      (c : ℕ) (s : Bool) (xs : List Agent) → Counted n c s true xs → All (λ a. here s a.pc ≡ 1) xs
  All-here c s xs h = each_here s xs (h.1.0 ∙ sym h.0)

  -- One agent stands elsewhere than before, and has not arrived, nor had it.
  pub moved_Counted :
      (c : ℕ) (s i : Bool) (xs : List Agent) (k : ℕ) (a b : Agent)
      → get_elem? xs k ≡ some a
      → here s a.pc ≡ here s b.pc
      → Counted n c s i xs
      → Counted n c s i (set xs k b)
  moved_Counted c s i xs k a b e f h = (length-set xs k b ∙ h.0, (same_total ∙ h.1.0, h.1.1))
    where
      same_total : total (arrived s) (set xs k b) ≡ total (arrived s) xs
      same_total = omega (arith, f, total-set (arrived s) xs k a b e)

  -- One more has arrived: the barrier was not idle.
  pub one_more_here :
      (c : ℕ) (s i : Bool) (xs : List Agent) (k : ℕ) (a b : Agent)
      → get_elem? xs k ≡ some a
      → here s a.pc ≡ 0
      → here s b.pc ≡ 1
      → Counted n c s i xs
      → (i ≡ false) × ((length (set xs k b) ≡ n) × (total (arrived s) (set xs k b) ≡ suc c))
  one_more_here c s true xs k a b e f g h = absurd (
      omega (
        arith,
        f,
        g,
        h.0,
        h.1.0,
        length-set xs k b,
        total-le s (set xs k b),
        total-set (arrived s) xs k a b e,
      ))
  one_more_here c s false xs k a b e f g h = (
    refl,
    (length-set xs k b ∙ h.0, omega (arith, f, g, h.1.0, total-set (arrived s) xs k a b e)),
  )
