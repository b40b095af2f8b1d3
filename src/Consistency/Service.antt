-- ===== src/Consistency/Service.antt =====
-- Which of the numbered requests can be served
-- (libcor/src/cor/services/consistency_object.cpp).
use Prim.Native.String.{String}
use mathlib.Core.Option.{some-injective}
use pla_co_r.Base.{
  ap, ◌∙◌, ℕ, zero, suc, ◌+◌, ◌≤◌, ◌<◌, ◌^◌, ◌≡◌, refl, ◌≢◌, Bool, false, Option, none, some, List,
  [], ◌∷◌, get_elem?, set, length, replicate, Option-cases, inl, inr, arith,
}
use pla_co_r.Consistency.Object.{
  ConsistencyObject, consistency_object, Request, Pc, outside, read_wait, update_wait, in_read,
  write_wait, token_wait, in_write, request_wait, Turn,
}
use pla_co_r.Consistency.Requests.{
  is_blocked, acquire_replica, acquire_token_update, invalidate, update, token_ack, release_replica,
  increment_local_reference_counter, decrement_local_reference_counter, set_resource,
}
use pla_co_r.Consistency.Threads.{
  Pod, start, Event, calls_method, releases, wakes, gets_release, turn_call, turn_release,
  turn_wake, turn, method, step, run,
}
use pla_co_r.Consistency.Exclusion.{after, fresh}
use pla_co_r.Consistency.Order.{
  ticket, ticket_at, ticket_at-get, ticket_at-set, move-Ordered, InRange, Draws, call-Draws,
  release-Draws, wake-Draws, IsOrdered, blocked-number,
}

none_at : (n i k : ℕ) → ticket_at (replicate n outside) i ≢ some k
none_at zero i k e = cc
none_at (suc n) zero k e = cc
none_at (suc n) (suc i) k e = none_at n i k e

get-ticket_at :
    (pcs : List Pc) (i n : ℕ)
    → ticket_at pcs i ≡ some n
    → (q : Request) × (r : String) × (get_elem? pcs i ≡ some (request_wait q r n))
get-ticket_at [] i n e = cc
get-ticket_at (request_wait q r m ∷ pcs) zero n e =
    (q, r, ap (λ k. some (request_wait q r k)) (some-injective _ _ e))
get-ticket_at (outside ∷ pcs) zero n e = cc
get-ticket_at (read_wait ∷ pcs) zero n e = cc
get-ticket_at (update_wait ∷ pcs) zero n e = cc
get-ticket_at (in_read ∷ pcs) zero n e = cc
get-ticket_at (write_wait ∷ pcs) zero n e = cc
get-ticket_at (token_wait ∷ pcs) zero n e = cc
get-ticket_at (in_write ∷ pcs) zero n e = cc
get-ticket_at (pc ∷ pcs) (suc i) n e = get-ticket_at pcs i n e

module _ {R : Type 0} where
  -- The next state of the numbers, with the number of requests drawn so far.
  abbrev Grown : Pod R → Pod R → Type 0
  Grown p p' = IsOrdered p' × (p'.obj.total_req ≤ p.obj.total_req + 1)

  turn-Grown :
      (f : Pc → ConsistencyObject R → Option (Turn R)) (p : Pod R) (i : ℕ) (o : Option Pc)
      → Draws f
      → get_elem? p.threads i ≡ o
      → p.obj.total_req + 1 < 2 ^ 64
      → IsOrdered p
      → Grown p (turn f p i o)
  unfolding turn
  turn-Grown f p i none d e room h = (h, omega arith)
  turn-Grown f p i (some pc) d e room h = elim (Option-cases (f pc p.obj)) [
    | inl q ↦ rw (q, turn) (h, omega arith)
    | inr (t, q) ↦
        let here : ticket_at p.threads i ≡ ticket pc = ticket_at-get p.threads i pc e in
        let in_range : InRange p.obj pc = record {
          range = h.range;
          room = room;
          held = λ n k. h.waiting i n (here ∙ k);
        } in
        let numbers = d pc p.obj t q in_range in
        rw (q, turn)
          (
            move-Ordered p.obj.next_req p.obj.total_req t.obj.next_req t.obj.total_req i
                (ticket_at p.threads) (ticket_at (set p.threads i t.pc)) (ticket t.pc) h
                (λ j. ticket_at-set p.threads i j pc t.pc e) (rw here numbers),
            ground (arith, numbers),
          )
  ]

  release_replica-numbers :
      (r : String) (o : ConsistencyObject R)
      → ((release_replica r o).0.next_req ≡ o.next_req)
        × ((release_replica r o).0.total_req ≡ o.total_req)
  unfolding release_replica
  release_replica-numbers r o = ground arith

  step-Grown :
      (e : Event R) (p : Pod R) → p.obj.total_req + 1 < 2 ^ 64 → IsOrdered p → Grown p (step e p)
  unfolding step method acquire_replica update acquire_token_update invalidate token_ack
      release_replica increment_local_reference_counter decrement_local_reference_counter
      set_resource
  step-Grown (calls_method i m) p room h = turn-Grown (turn_call m) p i _ (call-Draws m) refl room h
  step-Grown (releases i) p room h = turn-Grown turn_release p i _ release-Draws refl room h
  step-Grown (wakes i) p room h = turn-Grown turn_wake p i _ wake-Draws refl room h
  step-Grown (gets_release r) p room h =
      let (n, t) = release_replica-numbers r p.obj in rw (n, t) (h, omega arith)
  step-Grown other p room h = (h, omega arith)

  run-IsOrdered :
      (es : List (Event R)) (p : Pod R)
      → p.obj.total_req + length es < 2 ^ 64
      → IsOrdered p
      → IsOrdered (run es p)
  unfolding run
  run-IsOrdered [] p room h = h
  run-IsOrdered (e ∷ rest) p room h =
      let (o, g) = step-Grown e p (omega arith) h in run-IsOrdered rest (step e p) (omega arith) o

  fresh_run :
      (idp : ℕ) (owner : Bool) (ctrl : String) (n : ℕ) (es : List (Event R))
      → length es < 2 ^ 64
      → IsOrdered (after idp owner ctrl n es)
  unfolding start consistency_object
  fresh_run idp owner ctrl n es room =
      run-IsOrdered es (fresh idp owner ctrl n) (omega arith) (record {
        range = omega arith;
        waiting = λ i k e. absurd (none_at n i k e);
        unique = λ i j k e f. absurd (none_at n i k e);
        covered = λ k l h. absurd (omega arith);
      })

  free_next :
      (r : String) (o : ConsistencyObject R)
      → o.writing ≡ 0
      → o.wtoken ≡ false
      → o.wtoken_ack ≡ false
      → is_blocked r o.next_req o ≡ false
  unfolding is_blocked
  free_next r o w t a = ground arith

  -- In a run of a new object with fewer than 2^64 events, a request that waits and whose condition
  -- lets it through is the one with the number `_next_req`, and no other thread has that number: the
  -- requests are served in the order in which they arrived.
  pub served_in_order :
      (idp : ℕ) (owner : Bool) (ctrl : String) (n : ℕ) (es : List (Event R)) (i : ℕ) (q : Request)
      (r : String) (k j : ℕ)
      → length es < 2 ^ 64
      → get_elem? (after idp owner ctrl n es).threads i ≡ some (request_wait q r k)
      → is_blocked r k (after idp owner ctrl n es).obj ≡ false
      → ticket_at (after idp owner ctrl n es).threads j ≡ some k
      → (k ≡ (after idp owner ctrl n es).obj.next_req) × (j ≡ i)
  served_in_order idp owner ctrl n es i q r k j room e free same =
      let p = after idp owner ctrl n es in
      let o = fresh_run idp owner ctrl n es room in
      let here = ticket_at-get p.threads i (request_wait q r k) e in
      (omega (arith, o.waiting i k here, blocked-number r k p.obj free), o.unique j i k same here)

  -- In such a run, while nobody writes and no token is on its way, if requests wait then one of them
  -- can be served: no turn is lost.
  pub next_served :
      (idp : ℕ) (owner : Bool) (ctrl : String) (n : ℕ) (es : List (Event R))
      → length es < 2 ^ 64
      → (after idp owner ctrl n es).obj.next_req ≢ (after idp owner ctrl n es).obj.total_req
      → (after idp owner ctrl n es).obj.writing ≡ 0
      → (after idp owner ctrl n es).obj.wtoken ≡ false
      → (after idp owner ctrl n es).obj.wtoken_ack ≡ false
      → (i : ℕ) × (q : Request) × (r : String) × (get_elem? (after idp owner ctrl n es).threads i
          ≡ some (request_wait q r (after idp owner ctrl n es).obj.next_req))
        × (is_blocked r (after idp owner ctrl n es).obj.next_req (after idp owner ctrl n es).obj
            ≡ false)
  next_served idp owner ctrl n es room waits w t a =
      let p = after idp owner ctrl n es in
      let o = fresh_run idp owner ctrl n es room in
      let (i, e) = o.covered p.obj.next_req (omega arith) (omega (arith, o.range)) in
      let (q, r, g) = get-ticket_at p.threads i p.obj.next_req e in
      (i, q, r, g, free_next r p.obj w t a)
