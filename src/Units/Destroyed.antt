-- ===== src/Units/Destroyed.antt =====
-- A pool (units/pool.cpp) that is destroyed behind a dispatch.
use pla_co_r.Base.{zero, suc, ◌≡◌, refl, ◌∙◌, ap, true, false, some, List, [], ◌∷◌}
use pla_co_r.Units.Pool.{
  Task, ends, shutting, Pool, pool, Event, agent, owner_goes_on, dispatch, join_agents, step, run,
}
use pla_co_r.Units.Dispatch.{dispatched}

-- The agent waits, a task is dispatched, the agent leaves `Wait`, and the owner enters
-- `JoinAgents` before the agent reads `_shut`.
abbrev pub too_early : Task → List Event
too_early t =
    agent 0
    ∷ dispatch t
    ∷ owner_goes_on
    ∷ owner_goes_on
    ∷ owner_goes_on
    ∷ agent 0
    ∷ join_agents
    ∷ agent 0
    ∷ []

abbrev stuck : Task → Pool
stuck t = record {
  barrier = record { nthreads = 1; counter = 0; status = false; is_idle = false };
  task = some t;
  shut = true;
  agents = record { pc = ends; ran = [] } ∷ [];
  owner = shutting;
}

run-too_early : (t : Task) → run (too_early t) (pool 1) ≡ stuck t
unfolding run pool
run-too_early t = refl

step-stuck : (e : Event) (t : Task) → step e (stuck t) ≡ stuck t
unfolding step
step-stuck (agent zero) t = refl
step-stuck (agent (suc k)) t = refl
step-stuck owner_goes_on t = refl
step-stuck (dispatch u) t = refl
step-stuck join_agents t = refl

run-stuck : (es : List Event) (t : Task) → run es (stuck t) ≡ stuck t
unfolding run
run-stuck [] t = refl
run-stuck (e ∷ es) t = ap (run es) (step-stuck e t) ∙ run-stuck es t

-- The destructor does not wait for the task that was dispatched last: an agent that was released for
-- it may find `_shut` set and end without running it, and the destructor then waits for good for
-- the barrier to be idle, whatever happens.
pub destroyed_early :
    (t : Task) (es : List Event)
    → (dispatched (too_early t) (pool 1) ≡ some t ∷ [])
      × (((run (too_early t) (pool 1)).agents ≡ record { pc = ends; ran = [] } ∷ [])
          × ((run es (run (too_early t) (pool 1))).owner ≡ shutting))
unfolding dispatched pool
destroyed_early t es = (
  refl,
  (
    ap (λ p. p.agents) (run-too_early t),
    ap (λ p. (run es p).owner) (run-too_early t) ∙ ap (λ p. p.owner) (run-stuck es t),
  ),
)
