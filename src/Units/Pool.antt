-- ===== src/Units/Pool.antt =====
-- `Pool` and `Pool::Barrier` (units/pool.cpp): agents that run what is dispatched to them. A method
-- that waits is cut at its wait; a thread may wake up and look at its condition at any time.
use pla_co_r.Base.{
  ℕ, ◌+◌, Bool, true, false, not, Option, none, some, List, [], ◌∷◌, ◌++◌, get_elem?, set,
  replicate, if◌then◌else◌, ◌==◌,
}
use pla_co_r.Units.Range.{size_t}

pub record Barrier : Type 0 where
  pub nthreads : ℕ
  pub counter : ℕ
  pub status : Bool
  pub is_idle : Bool

unfoldable pub barrier : ℕ → Barrier
barrier count = record { nthreads = count; counter = 0; status = true; is_idle = false }

-- `Barrier::Wait` up to its loop; the thread keeps the status as `lstatus`.
unfoldable pub arrive : Barrier → Barrier
arrive b =
    if size_t (b.counter + 1) == b.nthreads
    then record b { counter = 0; is_idle = true }
    else record b { counter = size_t (b.counter + 1) }

abbrev pub same : Bool → Bool → Bool
same true b = b
same false b = not b

unfoldable pub release_threads : Barrier → Barrier
release_threads b = record b { is_idle = false; status = not b.status }

-- A task is a function and its argument, `(*_fct)(_arg)`.
pub record Task : Type 0 where
  pub fct : ℕ
  pub arg : ℕ

-- Where an agent stands in `PeerAgent`: before `Wait`, in its loop, behind it, running a task, or
-- at its end.
pub data Pc : Type 0 where
  starts : Pc
  waits : (lstatus : Bool) → Pc
  released : Pc
  runs : Option Task → Pc  -- `none` is the null pointer of a pool that has dispatched nothing
  ends : Pc

-- An agent with the tasks that it has begun.
pub record Agent : Type 0 where
  pub pc : Pc
  pub ran : List (Option Task)

-- Where the thread that owns the pool stands: outside, in `Dispatch` behind `WaitForIdle`, or behind
-- the assignment; or in `JoinAgents` behind `_shut = true`, behind `WaitForIdle`, or at the joins.
pub data Owner : Type 0 where
  outside : Owner
  dispatching : Task → Owner
  idle_for : Task → Owner
  assigned : Owner
  shutting idle_to_shut joining : Owner

pub record Pool : Type 0 where
  pub barrier : Barrier
  pub task : Option Task
  pub shut : Bool
  pub agents : List Agent
  pub owner : Owner

unfoldable pub pool : ℕ → Pool
unfolding barrier
pool num_agents = record {
  barrier = barrier num_agents;
  task = none;
  shut = false;
  agents = replicate num_agents (record { pc = starts; ran = [] });
  owner = outside;
}

-- The next piece of an agent.
unfoldable pub agent_step : Agent → Pool → Barrier × Agent
unfolding arrive
agent_step a p = elim a.pc [
  | starts ↦ (arrive p.barrier, record a { pc = waits p.barrier.status })
  | waits lstatus ↦ (
    p.barrier,
    record a { pc = if same lstatus p.barrier.status then waits lstatus else released },
  )
  | released ↦ (
    p.barrier,
    if p.shut
        then record a { pc = ends }
        else record { pc = runs p.task; ran = a.ran ++ p.task ∷ [] },
  )
  | runs t ↦ (p.barrier, record a { pc = starts })
  | ends ↦ (p.barrier, a)
]

-- The next piece of the owner.
unfoldable pub owner_step : Pool → Pool
unfolding release_threads
owner_step p = elim p.owner [
  | outside ↦ p
  | dispatching t ↦ if p.barrier.is_idle then record p { owner = idle_for t } else p
  | idle_for t ↦ record p { task = some t; owner = assigned }
  | assigned ↦ record p { barrier = release_threads p.barrier; owner = outside }
  | shutting ↦ if p.barrier.is_idle then record p { owner = idle_to_shut } else p
  | idle_to_shut ↦ record p { barrier = release_threads p.barrier; owner = joining }
  | joining ↦ p
]

pub data Event : Type 0 where
  agent : (k : ℕ) → Event  -- agent `k` goes on
  owner_goes_on : Event
  dispatch : Task → Event  -- the owner calls `Dispatch`
  join_agents : Event  -- the owner destroys the pool

unfoldable pub went_on : ℕ → Pool → Option Agent → Pool
unfolding agent_step
went_on k p none = p
went_on k p (some a) =
    let s = agent_step a p in record p { barrier = s.0; agents = set p.agents k s.1 }

abbrev pub is_outside : Owner → Bool
is_outside outside = true
is_outside _ = false

unfoldable pub step : Event → Pool → Pool
unfolding went_on owner_step
step (agent k) p = went_on k p (get_elem? p.agents k)
step owner_goes_on p = owner_step p
step (dispatch t) p = if is_outside p.owner then record p { owner = dispatching t } else p
step join_agents p = if is_outside p.owner then record p { shut = true; owner = shutting } else p

unfoldable pub run : List Event → Pool → Pool
unfolding step
run [] p = p
run (e ∷ es) p = run es (step e p)
