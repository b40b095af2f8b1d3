-- ===== src/Consistency/Threads.antt =====
-- One consistency object with the threads that use it. A thread that waits may wake at any time
-- and looks at its condition again, as the standard allows (libcor/src/cor/services/
-- consistency_object.cpp).
use Prim.Native.String.{String}
use pla_co_r.Base.{ℕ, Option, none, some, List, [], ◌∷◌, ◌++◌, get_elem?, set}
use pla_co_r.Consistency.Object.{
  ConsistencyObject, Call, Request, Pc, outside, read_wait, update_wait, in_read, write_wait,
  token_wait, in_write, request_wait, Turn, acquire_read, read_updated, release_read, acquire_write,
  write_turn, token_turn, release_write,
}
use pla_co_r.Consistency.Requests.{
  request_turn, request, acquire_replica, acquire_token_update, invalidate, update, token_ack,
  release_replica, increment_local_reference_counter, decrement_local_reference_counter,
  set_resource,
}

pub record Pod (R : Type 0) : Type 0 where
  pub obj : ConsistencyObject R
  pub threads : List Pc
  pub calls : List (Call R)

-- What a thread outside may call.
pub data Method : Type 0 where
  acquires_read acquires_write : Method
  requests : Request → (requester : String) → Method

-- A call by thread `i`, a release by thread `i`, a wake-up of thread `i`, or a method that does
-- not wait, called by any other thread.
pub data Event (R : Type 0) : Type 0 where
  calls_method : ℕ → Method → Event R
  releases wakes : ℕ → Event R
  gets_replica gets_update : R → Event R
  gets_token : R → (replier : String) → Event R
  gets_invalidate gets_ack : Event R
  gets_release : (requester : String) → Event R
  refers drops : Event R
  sets_resource : R → Event R

module _ {R : Type 0} where
  unfoldable pub start : ConsistencyObject R → List Pc → Pod R
  start o threads = record { obj = o; threads = threads; calls = [] }

  unfoldable pub call : Method → ConsistencyObject R → Turn R
  call acquires_read o = acquire_read o
  call acquires_write o = acquire_write o
  call (requests q requester) o = request q requester o

  -- What thread `i` does next, from where it stands; `none`, if it cannot do that there.
  unfoldable pub turn_call : Method → Pc → ConsistencyObject R → Option (Turn R)
  turn_call m outside o = some (call m o)
  turn_call m other o = none

  unfoldable pub turn_release : Pc → ConsistencyObject R → Option (Turn R)
  turn_release in_read o = some (release_read o)
  turn_release in_write o = some (release_write o)
  turn_release other o = none

  unfoldable pub turn_wake : Pc → ConsistencyObject R → Option (Turn R)
  turn_wake read_wait o = some (acquire_read o)
  turn_wake update_wait o = some (read_updated o)
  turn_wake write_wait o = some (write_turn o)
  turn_wake token_wait o = some (token_turn o)
  turn_wake (request_wait q requester req_no) o = some (request_turn q requester req_no o)
  turn_wake other o = none

  unfoldable pub turn : (Pc → ConsistencyObject R → Option (Turn R)) → Pod R → ℕ → Option Pc → Pod R
  turn f p i none = p
  turn f p i (some pc) = elim (f pc p.obj) [
    | none ↦ p
    | some t ↦ record { obj = t.obj; threads = set p.threads i t.pc; calls = p.calls ++ t.calls }
  ]

  unfoldable pub method : Pod R → ConsistencyObject R × List (Call R) → Pod R
  method p (o, calls) = record p { obj = o; calls = p.calls ++ calls }

  unfoldable pub step : Event R → Pod R → Pod R
  step (calls_method i m) p = turn (turn_call m) p i (get_elem? p.threads i)
  step (releases i) p = turn turn_release p i (get_elem? p.threads i)
  step (wakes i) p = turn turn_wake p i (get_elem? p.threads i)
  step (gets_replica rsc) p = method p (acquire_replica rsc p.obj, [])
  step (gets_update rsc) p = method p (update rsc p.obj)
  step (gets_token rsc replier) p = method p (acquire_token_update rsc replier p.obj)
  step gets_invalidate p = method p (invalidate p.obj, [])
  step gets_ack p = method p (token_ack p.obj)
  step (gets_release requester) p = method p (release_replica requester p.obj)
  step refers p = method p (increment_local_reference_counter p.obj, [])
  step drops p = method p (decrement_local_reference_counter p.obj, [])
  step (sets_resource rsc) p = method p (set_resource rsc p.obj, [])

  unfoldable pub run : List (Event R) → Pod R → Pod R
  run [] p = p
  run (e ∷ rest) p = run rest (step e p)
