-- ===== src/Consistency/Tests.antt =====
-- Concrete runs of one consistency object.
use Prim.Native.String.{String}
use pla_co_r.Base.{ℕ, ◌+◌, ◌≡◌, refl, ◌≢◌, true, false, some, ◌++◌, List, [], ◌∷◌, get_elem?, arith}
use pla_co_r.Consistency.Object.{
  consistency_object, acquire_read, acquire_write, write_turn, token_turn, read_updated,
  release_read, release_write, update_wait, in_read, in_write, request_wait, Request, for_update,
}
use pla_co_r.Consistency.Requests.{
  is_blocked, request, request_turn, serve, serve_own, serve_other, acquire_token_update,
  set_resource,
}
use pla_co_r.Consistency.Threads.{
  Pod, Event, calls_method, releases, wakes, acquires_read, acquires_write, requests, gets_token,
  sets_resource, run, start, step, call, turn_call, turn_release, turn_wake, turn, method,
}
use pla_co_r.Consistency.Exclusion.{fresh, write_excludes_read, two_writers}
use pla_co_r.Consistency.Writers.{writers_exclude}
use pla_co_r.Consistency.Service.{served_in_order, next_served}

-- The owner: thread 0 reads, thread 1 writes after it, thread 2 serves a remote update meanwhile.
abbrev shared : List (Event ℕ)
shared =
    sets_resource 5
    ∷ calls_method 0 acquires_read
    ∷ calls_method 1 acquires_write
    ∷ releases 0
    ∷ wakes 1
    ∷ calls_method 2 (requests for_update "#C2#n")
    ∷ calls_method 0 acquires_read
    ∷ []

abbrev owner_pod : Pod ℕ
owner_pod = fresh 7 true "#C1#n" 3

write_excludes_read_example :
    (get_elem? (run shared owner_pod).threads 0 ≢ some in_read)
    × (get_elem? (run shared owner_pod).threads 0 ≢ some update_wait)
unfolding run step start call turn_call turn_release turn_wake turn method consistency_object
    acquire_read acquire_write write_turn token_turn read_updated release_read release_write request
    request_turn is_blocked serve serve_own serve_other acquire_token_update set_resource
write_excludes_read_example = write_excludes_read 7 true "#C1#n" 3 shared 1 0 refl

writers_exclude_example : ◌≡◌ {A = ℕ} 1 1
unfolding run step start call turn_call turn_release turn_wake turn method consistency_object
    acquire_read acquire_write write_turn token_turn read_updated release_read release_write request
    request_turn is_blocked serve serve_own serve_other acquire_token_update set_resource
writers_exclude_example = writers_exclude 7 "#C1#n" 3 shared 1 1 (omega arith) refl refl

-- The writer is done: the request of the other controller, number 0, may go on.
abbrev written : List (Event ℕ)
written = shared ++ releases 1 ∷ []

served_in_order_example : (0 ≡ (run written owner_pod).obj.next_req) × ◌≡◌ {A = ℕ} 2 2
unfolding run step start call turn_call turn_release turn_wake turn method consistency_object
    acquire_read acquire_write write_turn token_turn read_updated release_read release_write request
    request_turn is_blocked serve serve_own serve_other acquire_token_update set_resource
served_in_order_example =
    served_in_order 7 true "#C1#n" 3 written 2 for_update "#C2#n" 0 2 (omega arith) refl refl refl

next_served_example :
    (i : ℕ) × (q : Request) × (r : String) × (get_elem? (run written owner_pod).threads i
      ≡ some (request_wait q r (run written owner_pod).obj.next_req))
    × (is_blocked r (run written owner_pod).obj.next_req (run written owner_pod).obj ≡ false)
unfolding run step start call turn_call turn_release turn_wake turn method consistency_object
    acquire_read acquire_write write_turn token_turn read_updated release_read release_write request
    request_turn is_blocked serve serve_own serve_other acquire_token_update set_resource
next_served_example =
    next_served 7 true "#C1#n" 3 written (omega arith) (omega arith) refl refl refl

-- A pod without the token: threads 0 and 1 both ask for it.
abbrev both_ask : List (Event ℕ)
both_ask = sets_resource 5 ∷ calls_method 0 acquires_write ∷ calls_method 1 acquires_write ∷ []

abbrev guest_pod : Pod ℕ
guest_pod = run both_ask (fresh 7 false "#C2#n" 2)

two_writers_example :
    (get_elem? (run (gets_token 6 "#C1#n" ∷ wakes 0 ∷ wakes 1 ∷ []) guest_pod).threads 0
      ≡ some in_write)
    × (get_elem? (run (gets_token 6 "#C1#n" ∷ wakes 0 ∷ wakes 1 ∷ []) guest_pod).threads 1
        ≡ some in_write)
    × ((run (gets_token 6 "#C1#n" ∷ wakes 0 ∷ wakes 1 ∷ []) guest_pod).obj.writing
        ≡ guest_pod.obj.writing + 2)
unfolding run step start call turn_call turn_release turn_wake turn method consistency_object
    acquire_read acquire_write write_turn token_turn read_updated release_read release_write request
    request_turn is_blocked serve serve_own serve_other acquire_token_update set_resource
two_writers_example = two_writers guest_pod 0 1 6 "#C1#n" (omega arith) refl refl
