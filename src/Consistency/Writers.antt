-- ===== src/Consistency/Writers.antt =====
-- The writers of the pod that keeps the token
-- (libcor/src/cor/services/consistency_object.cpp).
use Prim.Native.String.{String}
use text.Mathlib.Text.{◌==◌ as str_eq}
use mathlib.Core.Option.{some-injective}
use native.Mathlib.Decide.{ℕ_discrete}
use pla_co_r.Base.{
  ℕ, ◌+◌, ◌≤◌, ◌≡◌, refl, true, Option, none, some, List, [], ◌∷◌, All, get_elem?, total, total-set,
  le-total, two-le-total, total-replicate, Option-cases, inl, inr, subst, if◌then◌else◌, arith,
}
use pla_co_r.Consistency.Object.{
  ConsistencyObject, consistency_object, u64, Call, Request, for_replica, for_update, for_token, Pc,
  outside, read_wait, update_wait, in_read, write_wait, token_wait, in_write, request_wait, Turn,
  acquire_read, read_updated, release_read, acquire_write, write_turn, release_write,
}
use pla_co_r.Consistency.Requests.{
  request_turn, request, serve, serve_own, serve_other, acquire_replica, acquire_token_update,
  invalidate, update, token_ack, release_replica, increment_local_reference_counter,
  decrement_local_reference_counter, set_resource,
}
use pla_co_r.Consistency.Threads.{
  Pod, start, Event, Method, acquires_read, acquires_write, requests, calls_method, releases, wakes,
  call, turn_call, turn_release, turn_wake, turn, method, step, run,
}
use pla_co_r.Consistency.Counts.{writes, Counts, run-Counts}
use pla_co_r.Consistency.Exclusion.{after, fresh, fresh-Counts}

-- A request of another controller for the token.
abbrev pub takes : String → Request → String → ℕ
takes ctrl for_token requester = if str_eq ctrl requester then 0 else 1
takes ctrl _ requester = 0

-- Threads that may give the token away, or that wait for it.
abbrev pub gives : String → Pc → ℕ
gives ctrl token_wait = 1
gives ctrl (request_wait q requester n) = takes ctrl q requester
gives ctrl _ = 0

module _ {R : Type 0} where
  -- No other controller asks for the token.
  abbrev pub IsLocal : String → Event R → Type 0
  IsLocal ctrl (calls_method i (requests q requester)) = takes ctrl q requester ≡ 0
  IsLocal ctrl _ = Unit

  record Holds (ctrl : String) (o : ConsistencyObject R) : Type 0 where
    named : o.ctrl ≡ ctrl
    token : o.token ≡ true
    one : o.writing ≤ 1

  abbrev HoldsTurn : String → Turn R → Type 0
  HoldsTurn ctrl t = Holds ctrl t.obj × (gives ctrl t.pc ≡ 0)

  read-Holds :
      (ctrl : String) (o : ConsistencyObject R) → Holds ctrl o → HoldsTurn ctrl (acquire_read o)
  unfolding acquire_read
  read-Holds ctrl o h = ground arith

  updated-Holds :
      (ctrl : String) (o : ConsistencyObject R) → Holds ctrl o → HoldsTurn ctrl (read_updated o)
  unfolding read_updated
  updated-Holds ctrl o h = ground arith

  write-Holds :
      (ctrl : String) (o : ConsistencyObject R) → Holds ctrl o → HoldsTurn ctrl (write_turn o)
  unfolding write_turn
  write-Holds ctrl o h = ground arith

  release_read-Holds :
      (ctrl : String) (o : ConsistencyObject R) → Holds ctrl o → HoldsTurn ctrl (release_read o)
  unfolding release_read
  release_read-Holds ctrl o h = ground arith

  release_write-Holds :
      (ctrl : String) (o : ConsistencyObject R) → Holds ctrl o → HoldsTurn ctrl (release_write o)
  unfolding release_write
  release_write-Holds ctrl o h = ground arith

  serve-Holds :
      (ctrl : String) (q : Request) (r : String) (o : ConsistencyObject R)
      → Holds ctrl o
      → takes ctrl q r ≡ 0
      → HoldsTurn ctrl (serve q r o)
  unfolding serve serve_own serve_other
  serve-Holds ctrl (for_replica size) r o h z = ground arith
  serve-Holds ctrl for_update r o h z = ground arith
  serve-Holds ctrl for_token r o h z = ground arith

  request-Holds :
      (ctrl : String) (q : Request) (r : String) (n : ℕ) (o : ConsistencyObject R)
      → Holds ctrl o
      → takes ctrl q r ≡ 0
      → HoldsTurn ctrl (request_turn q r n o)
  unfolding request_turn
  request-Holds ctrl q r n o h z = ground (arith, serve-Holds ctrl q r o h z)

  abbrev Keeps : String → (Pc → ConsistencyObject R → Option (Turn R)) → Type 0
  Keeps ctrl f =
      (pc : Pc) (o : ConsistencyObject R) (t : Turn R)
      → f pc o ≡ some t
      → Holds ctrl o
      → gives ctrl pc ≡ 0
      → HoldsTurn ctrl t

  abbrev to : {ctrl : String} {t u : Turn R} → some u ≡ some t → HoldsTurn ctrl u → HoldsTurn ctrl t
  to {ctrl} e h = subst (HoldsTurn ctrl) (some-injective _ _ e) h

  call-Keeps :
      (ctrl : String) (i : ℕ) (m : Method)
      → IsLocal ctrl (calls_method i m)
      → Keeps ctrl (turn_call m)
  unfolding turn_call call acquire_write request
  call-Keeps ctrl i acquires_read l outside o t e h z = to e (read-Holds ctrl o h)
  call-Keeps ctrl i acquires_write l outside o t e h z =
      to e (write-Holds ctrl (record o { wwriters = o.wwriters + 1 }) (ground arith))
  call-Keeps ctrl i (requests q r) l outside o t e h z = to e (
      request-Holds ctrl q r o.total_req (record o { total_req = u64 (o.total_req + 1) })
        (ground arith) l)
  call-Keeps ctrl i m l other o t e h z = cc

  release-Keeps : (ctrl : String) → Keeps ctrl turn_release
  unfolding turn_release
  release-Keeps ctrl in_read o t e h z = to e (release_read-Holds ctrl o h)
  release-Keeps ctrl in_write o t e h z = to e (release_write-Holds ctrl o h)
  release-Keeps ctrl other o t e h z = cc

  wake-Keeps : (ctrl : String) → Keeps ctrl turn_wake
  unfolding turn_wake
  wake-Keeps ctrl read_wait o t e h z = to e (read-Holds ctrl o h)
  wake-Keeps ctrl update_wait o t e h z = to e (updated-Holds ctrl o h)
  wake-Keeps ctrl write_wait o t e h z = to e (write-Holds ctrl o h)
  wake-Keeps ctrl token_wait o t e h z = ground arith
  wake-Keeps ctrl (request_wait q r n) o t e h z = to e (request-Holds ctrl q r n o h z)
  wake-Keeps ctrl other o t e h z = cc

  record Keeper (ctrl : String) (p : Pod R) : Type 0 where
    holds : Holds ctrl p.obj
    none_gives : total (gives ctrl) p.threads ≡ 0

  turn-Keeper :
      (ctrl : String) (f : Pc → ConsistencyObject R → Option (Turn R)) (p : Pod R) (i : ℕ)
      (o : Option Pc)
      → Keeps ctrl f
      → get_elem? p.threads i ≡ o
      → Keeper ctrl p
      → Keeper ctrl (turn f p i o)
  unfolding turn
  turn-Keeper ctrl f p i none m e h = h
  turn-Keeper ctrl f p i (some pc) m e h = elim (Option-cases (f pc p.obj)) [
    | inl q ↦ rw (q, turn) h
    | inr (t, q) ↦
        let z : gives ctrl pc ≡ 0 =
          omega (arith, le-total (gives ctrl) p.threads i pc e, h.none_gives) in
        let after = m pc p.obj t q h.holds z in
        rw (q, turn)
          (record {
            holds = after.0;
            none_gives =
                omega
                  (arith, after.1, z, h.none_gives, total-set (gives ctrl) p.threads i pc t.pc e);
          })
  ]

  method-Keeper :
      (ctrl : String) (p : Pod R) (r : ConsistencyObject R × List (Call R))
      → (Holds ctrl p.obj → Holds ctrl r.0)
      → Keeper ctrl p
      → Keeper ctrl (method p r)
  unfolding method
  method-Keeper ctrl p (o, calls) s h = record { holds = s h.holds; none_gives = h.none_gives }

  step-Keeper :
      (ctrl : String) (e : Event R) (p : Pod R)
      → IsLocal ctrl e
      → Keeper ctrl p
      → Keeper ctrl (step e p)
  unfolding step acquire_replica update acquire_token_update invalidate token_ack release_replica
      increment_local_reference_counter decrement_local_reference_counter set_resource
  step-Keeper ctrl (calls_method i m) p l h =
      turn-Keeper ctrl (turn_call m) p i _ (call-Keeps ctrl i m l) refl h
  step-Keeper ctrl (releases i) p l h =
      turn-Keeper ctrl turn_release p i _ (release-Keeps ctrl) refl h
  step-Keeper ctrl (wakes i) p l h = turn-Keeper ctrl turn_wake p i _ (wake-Keeps ctrl) refl h
  step-Keeper ctrl other p l h = method-Keeper ctrl p _ (λ s. ground arith) h

  run-Keeper :
      (ctrl : String) (es : List (Event R)) (p : Pod R)
      → All (IsLocal ctrl) es
      → Keeper ctrl p
      → Keeper ctrl (run es p)
  unfolding run
  run-Keeper ctrl [] p l h = h
  run-Keeper ctrl (e ∷ rest) p l h =
      run-Keeper ctrl rest (step e p) l.1 (step-Keeper ctrl e p l.0 h)

  fresh-Keeper : (idp : ℕ) (ctrl : String) (n : ℕ) → Keeper ctrl (fresh idp true ctrl n)
  unfolding start consistency_object
  fresh-Keeper idp ctrl n = record {
    holds = ground arith;
    none_gives = total-replicate (gives ctrl) n outside refl;
  }

  -- The owner of a resource starts with its token. As long as no other controller asks for the
  -- token, at most one thread of the owner writes, however many call `AcquireWrite`.
  pub writers_exclude :
      (idp : ℕ) (ctrl : String) (n : ℕ) (es : List (Event R)) (i j : ℕ)
      → All (IsLocal ctrl) es
      → get_elem? (after idp true ctrl n es).threads i ≡ some in_write
      → get_elem? (after idp true ctrl n es).threads j ≡ some in_write
      → i ≡ j
  writers_exclude idp ctrl n es i j l v w =
      let p = after idp true ctrl n es in
      let c : Counts p = run-Counts es _ (fresh-Counts idp true ctrl n) in
      let k : Keeper ctrl p = run-Keeper ctrl es _ l (fresh-Keeper idp ctrl n) in
      elim (ℕ_discrete i j) [
        | yes e ↦ e
        | no d ↦ absurd (
            omega (
              arith,
              two-le-total writes p.threads i j in_write in_write v w d,
              c.writing,
              k.holds.one,
            ))
      ]
