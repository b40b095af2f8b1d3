-- ===== src/Units/Tests.antt =====
-- A range of ten numbers, and a pool of two agents.
use pla_co_r.Base.{
  ℕ, ◌+◌, ◌-◌, ◌/◌, ◌≤◌, ◌<◌, ◌≡◌, ◌⊎◌, refl, true, Option, some, List, [], ◌∷◌, ◌++◌, All, length,
  arith,
}
use pla_co_r.Units.Range.{agent_range}
use pla_co_r.Units.Shares.{part, agent_range_is}
use pla_co_r.Units.Partition.{Has, shared_out}
use pla_co_r.Units.Pool.{Task, ends, shutting, pool, Event, agent, owner_goes_on, dispatch, run}
use pla_co_r.Units.Dispatch.{dispatched}
use pla_co_r.Units.Once.{each_task_once}
use pla_co_r.Units.Destroyed.{too_early, destroyed_early}

agent_range_test : agent_range 1 3 5 15 ≡ some (9, 12)
unfolding agent_range
agent_range_test = refl

agent_range_is_example : agent_range 1 3 5 15 ≡ some (part 3 5 15 1, part 3 5 15 2)
agent_range_is_example =
    agent_range_is 1 3 5 15 (omega arith) (omega arith) (omega arith) (omega arith)

shared_out_example :
    ((x : ℕ)
      → 5 ≤ x
      → x < 15
      → (k : ℕ) × ((k < 3) × (Has 3 5 15 x k × ((j : ℕ) → j < 3 → Has 3 5 15 x j → j ≡ k))))
    × ((k b c : ℕ)
        → k < 3
        → agent_range k 3 5 15 ≡ some (b, c)
        → (5 ≤ b) × ((c ≤ 15) × ((c ≡ b + (15 - 5) / 3) ⊎ (c ≡ b + ((15 - 5) / 3 + 1)))))
shared_out_example = shared_out 3 5 15 (omega arith) (omega arith) (omega arith) (omega arith)

abbrev task : Task
task = record { fct = 1; arg = 2 }

abbrev schedule : List Event
schedule =
    agent 0
    ∷ dispatch task
    ∷ agent 1
    ∷ owner_goes_on
    ∷ owner_goes_on
    ∷ owner_goes_on
    ∷ agent 1
    ∷ agent 1
    ∷ []

each_task_once_example :
    (length (run schedule (pool 2)).agents ≡ 2)
    × (All
          (λ a.
            (a.ran ≡ dispatched schedule (pool 2))
            ⊎ ((u : Option Task) × (dispatched schedule (pool 2) ≡ a.ran ++ u ∷ [])))
          (run schedule (pool 2)).agents
        × ((run schedule (pool 2)).barrier.is_idle ≡ true
            → All (λ a. a.ran ≡ dispatched schedule (pool 2)) (run schedule (pool 2)).agents))
each_task_once_example =
    each_task_once 2 schedule (omega arith) (omega arith)
      (tt, (tt, (tt, (tt, (tt, (tt, (tt, (tt, tt))))))))

destroyed_early_example :
    (dispatched (too_early task) (pool 1) ≡ some task ∷ [])
    × (((run (too_early task) (pool 1)).agents ≡ record { pc = ends; ran = [] } ∷ [])
        × ((run (owner_goes_on ∷ []) (run (too_early task) (pool 1))).owner ≡ shutting))
destroyed_early_example = destroyed_early task (owner_goes_on ∷ [])
