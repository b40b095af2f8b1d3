-- ===== src/Consistency/Requests.antt =====
-- The methods of `ConsistencyObject` that the resource manager calls for messages: the numbered
-- requests, the replies, invalidation, and the reference counters
-- (libcor/src/cor/services/consistency_object.cpp).
use Prim.Native.String.{String}
use text.Mathlib.Text.{◌==◌ as str_eq}
use pla_co_r.Base.{
  ℕ, ◌+◌, ◌-◌, ◌^◌, Bool, true, false, not, ◌&&◌, ◌||◌, Option, some, List, [], ◌∷◌, ◌++◌, ltb,
  ◌==◌, if◌then◌else◌,
}
use pla_co_r.Consistency.Object.{
  ConsistencyObject, u16, u64, Call, notify_one, notify_all, send_replica, reply_update,
  reply_token_update, send_token_ack, leave_resource_group, deallocate_resource,
  request_release_replica, wfree, wwq, rwq, reqwq, Request, for_replica, for_update, for_token,
  outside, request_wait, Turn, update_func,
}

module _ {R : Type 0} where
  -- The condition of the loop: a request of this controller waits for its turn only, one of
  -- another also for writers and for a token that is on its way.
  unfoldable pub is_blocked : String → ℕ → ConsistencyObject R → Bool
  is_blocked requester req_no o =
      if str_eq o.ctrl requester
      then ltb o.next_req req_no
      else (ltb 0 o.writing || o.wtoken || o.wtoken_ack || ltb o.next_req req_no)

  -- `_ctrl == requester`: the request has come back to its sender.
  unfoldable pub serve_own : Request → ConsistencyObject R → ConsistencyObject R
  serve_own (for_replica size) o = record o { wreplica = true; global_ref_cntr = u16 size }
  serve_own for_update o = record o { wupdate = true }
  serve_own for_token o = record o { wtoken = true }

  unfoldable pub serve_other :
      Request → String → ConsistencyObject R → ConsistencyObject R × List (Call R)
  serve_other (for_replica size) requester o = (
    record o { global_ref_cntr = u16 size },
    if o.token && o.validity then send_replica o.idp o.rsc requester ∷ [] else [],
  )
  serve_other for_update requester o =
      (o, if o.token && o.validity then reply_update o.idp o.rsc requester ∷ [] else [])
  serve_other for_token requester o =
      if o.token
      then (
        record o { token = false; wtoken_ack = true },
        reply_token_update o.idp o.rsc requester ∷ notify_one wfree ∷ [],
      )
      else (o, [])

  unfoldable pub next_request : ConsistencyObject R → ConsistencyObject R
  next_request o = record o { next_req = u64 (o.next_req + 1) }

  unfoldable pub serve : Request → String → ConsistencyObject R → Turn R
  unfolding next_request
  serve q requester o =
      if str_eq o.ctrl requester
      then record {
        obj = serve_own q (next_request o);
        calls = notify_all reqwq ∷ [];
        pc = outside;
      }
      else record {
        obj = (serve_other q requester (next_request o)).0;
        calls = (serve_other q requester (next_request o)).1 ++ notify_all reqwq ∷ [];
        pc = outside;
      }

  -- A wake-up of a request, or its first look at the condition.
  unfoldable pub request_turn : Request → String → ℕ → ConsistencyObject R → Turn R
  request_turn q requester req_no o =
      if is_blocked requester req_no o
      then record { obj = o; calls = []; pc = request_wait q requester req_no }
      else serve q requester o

  -- `CheckReplica`, `CheckUpdate`, `CheckTokenUpdate` from their start: a request number is drawn.
  unfoldable pub request : Request → String → ConsistencyObject R → Turn R
  request q requester o =
      request_turn q requester o.total_req (record o { total_req = u64 (o.total_req + 1) })

  unfoldable pub acquire_replica : R → ConsistencyObject R → ConsistencyObject R
  acquire_replica rsc o = record o { rsc = some rsc; wreplica = false }

  unfoldable pub acquire_token_update :
      R → String → ConsistencyObject R → ConsistencyObject R × List (Call R)
  acquire_token_update rsc replier o = (
    record o { token = true; rsc = update_func o.rsc rsc; validity = true },
    send_token_ack o.idp replier ∷ notify_all wwq ∷ [],
  )

  unfoldable pub invalidate : ConsistencyObject R → ConsistencyObject R
  invalidate o = record o { validity = false }

  unfoldable pub update : R → ConsistencyObject R → ConsistencyObject R × List (Call R)
  update rsc o = (record o { rsc = update_func o.rsc rsc; validity = true }, notify_all rwq ∷ [])

  unfoldable pub token_ack : ConsistencyObject R → ConsistencyObject R × List (Call R)
  token_ack o = (record o { wtoken_ack = false }, notify_all reqwq ∷ [])

  -- `--_global_ref_cntr`, `++_local_ref_cntr` and `--_local_ref_cntr` on 16-bit words.
  unfoldable pub release_replica :
      String → ConsistencyObject R → ConsistencyObject R × List (Call R)
  release_replica requester o =
      let left = u16 (o.global_ref_cntr + 2 ^ 16 - 1) in
      if str_eq o.ctrl requester then (o, leave_resource_group o.idp ∷ []) else (
        record o { global_ref_cntr = left },
        if o.local_ref_cntr == 0 && (not o.token || (o.token && left == 1))
            then deallocate_resource o.idp ∷ request_release_replica o.idp ∷ []
            else [],
      )

  unfoldable pub is_owner : ConsistencyObject R → Bool
  is_owner o = o.owner

  unfoldable pub increment_local_reference_counter : ConsistencyObject R → ConsistencyObject R
  increment_local_reference_counter o = record o { local_ref_cntr = u16 (o.local_ref_cntr + 1) }

  unfoldable pub decrement_local_reference_counter : ConsistencyObject R → ConsistencyObject R
  decrement_local_reference_counter o = record o {
    local_ref_cntr = u16 (o.local_ref_cntr + 2 ^ 16 - 1);
  }

  unfoldable pub set_resource : R → ConsistencyObject R → ConsistencyObject R
  set_resource rsc o = record o { rsc = some rsc }

  unfoldable pub get_resource : ConsistencyObject R → Option R
  get_resource o = o.rsc
