-- ===== src/Consistency/Counts.antt =====
-- `_reading`, `_writing` and `_wwriters` count the threads that stand where they say, and nobody
-- reads while a thread writes or waits for the token.
use Prim.Native.String.{String}
use mathlib.Core.Option.{some-injective}
use pla_co_r.Base.{
  ℕ, ◌+◌, ◌≤◌, ◌<◌, ◌≡◌, refl, Option, none, some, List, [], ◌∷◌, get_elem?, set, total, total-set,
  le-total, total_mono, Option-cases, inl, inr, subst, arith,
}
use pla_co_r.Consistency.Object.{
  ConsistencyObject, u64, Call, Request, for_replica, for_update, for_token, Pc, outside, read_wait,
  update_wait, in_read, write_wait, token_wait, in_write, request_wait, Turn, acquire_read,
  read_updated, release_read, acquire_write, write_turn, token_turn, release_write,
}
use pla_co_r.Consistency.Requests.{
  request_turn, request, serve, serve_own, serve_other, acquire_replica, acquire_token_update,
  invalidate, update, token_ack, release_replica, increment_local_reference_counter,
  decrement_local_reference_counter, set_resource,
}
use pla_co_r.Consistency.Threads.{
  Pod, Event, Method, acquires_read, acquires_write, requests, calls_method, releases, wakes,
  gets_release, call, turn_call, turn_release, turn_wake, turn, method, step, run,
}

-- Threads that `_reading` counts, that `_writing` counts, that `_wwriters` counts, and, among the
-- last, those that have asked for the token.
abbrev pub reads : Pc → ℕ
reads update_wait = 1
reads in_read = 1
reads _ = 0

abbrev pub writes : Pc → ℕ
writes in_write = 1
writes _ = 0

abbrev pub awaits : Pc → ℕ
awaits token_wait = 1
awaits _ = 0

abbrev pub queues : Pc → ℕ
queues write_wait = 1
queues token_wait = 1
queues _ = 0

awaits-le-queues : (pc : Pc) → awaits pc ≤ queues pc
awaits-le-queues token_wait = omega arith
awaits-le-queues _ = omega arith

module _ {R : Type 0} where
  -- The state of the counters, the weights of the thread that moves, and the threads that wait for
  -- the token: `a` of them before the move.
  pub record Before (o : ConsistencyObject R) (pc : Pc) (a : ℕ) : Type 0 where
    pub in_reading : reads pc ≤ o.reading
    pub in_writing : writes pc ≤ o.writing
    pub in_wwriters : queues pc ≤ o.wwriters
    pub in_awaits : awaits pc ≤ a
    pub asked : a ≤ o.wwriters
    pub alone : 0 < o.writing + a → o.reading ≡ 0

  pub record After (o : ConsistencyObject R) (pc : Pc) (a : ℕ) (t : Turn R) : Type 0 where
    pub read : t.obj.reading + reads pc ≡ o.reading + reads t.pc
    pub written : t.obj.writing + writes pc ≡ o.writing + writes t.pc
    pub queued : t.obj.wwriters + queues pc ≡ o.wwriters + queues t.pc
    pub alone :
        (b : ℕ) → b + awaits pc ≡ a + awaits t.pc → 0 < t.obj.writing + b → t.obj.reading ≡ 0

  read-After :
      (o : ConsistencyObject R) (a : ℕ) → Before o outside a → After o outside a (acquire_read o)
  unfolding acquire_read
  read-After o a h = ground arith

  read_again-After :
      (o : ConsistencyObject R) (a : ℕ)
      → Before o read_wait a
      → After o read_wait a (acquire_read o)
  unfolding acquire_read
  read_again-After o a h = ground arith

  updated-After :
      (o : ConsistencyObject R) (a : ℕ)
      → Before o update_wait a
      → After o update_wait a (read_updated o)
  unfolding read_updated
  updated-After o a h = ground arith

  release_read-After :
      (o : ConsistencyObject R) (a : ℕ) → Before o in_read a → After o in_read a (release_read o)
  unfolding release_read
  release_read-After o a h = ground arith

  write-After :
      (o : ConsistencyObject R) (a : ℕ) → Before o outside a → After o outside a (acquire_write o)
  unfolding acquire_write
  write-After o a h = ground arith

  write_again-After :
      (o : ConsistencyObject R) (a : ℕ)
      → Before o write_wait a
      → After o write_wait a (write_turn o)
  unfolding write_turn
  write_again-After o a h = ground arith

  token-After :
      (o : ConsistencyObject R) (a : ℕ)
      → Before o token_wait a
      → After o token_wait a (token_turn o)
  unfolding token_turn
  token-After o a h = ground arith

  release_write-After :
      (o : ConsistencyObject R) (a : ℕ) → Before o in_write a → After o in_write a (release_write o)
  unfolding release_write
  release_write-After o a h = ground arith

  -- What a request leaves alone.
  abbrev pub SameCounts : ConsistencyObject R → ConsistencyObject R → Type 0
  SameCounts o o' = (o'.reading ≡ o.reading) × (o'.writing ≡ o.writing) × (o'.wwriters ≡ o.wwriters)

  serve-SameCounts :
      (q : Request) (r : String) (o : ConsistencyObject R)
      → SameCounts o (serve q r o).obj
        × (reads (serve q r o).pc ≡ 0)
        × (writes (serve q r o).pc ≡ 0)
        × (queues (serve q r o).pc ≡ 0)
        × (awaits (serve q r o).pc ≡ 0)
  unfolding serve serve_own serve_other
  serve-SameCounts (for_replica size) r o = ground arith
  serve-SameCounts for_update r o = ground arith
  serve-SameCounts for_token r o = ground arith

  request_turn-After :
      (q : Request) (r : String) (n a : ℕ) (o : ConsistencyObject R) (pc : Pc)
      → reads pc ≡ 0
      → writes pc ≡ 0
      → queues pc ≡ 0
      → awaits pc ≡ 0
      → (0 < o.writing + a → o.reading ≡ 0)
      → After o pc a (request_turn q r n o)
  unfolding request_turn
  request_turn-After q r n a o pc z y x w h = ground (arith, serve-SameCounts q r o)

  call-After :
      (m : Method) (o : ConsistencyObject R) (a : ℕ)
      → Before o outside a
      → After o outside a (call m o)
  unfolding call request
  call-After acquires_read o a h = read-After o a h
  call-After acquires_write o a h = write-After o a h
  call-After (requests q r) o a h =
      let t =
        request_turn-After q r o.total_req a (record o { total_req = u64 (o.total_req + 1) })
          outside refl refl refl refl h.alone in
      record { read = t.read; written = t.written; queued = t.queued; alone = t.alone }

  -- A move of one thread, whichever: a call, a release or a wake-up.
  abbrev pub Moves : (Pc → ConsistencyObject R → Option (Turn R)) → Type 0
  Moves f =
      (pc : Pc) (o : ConsistencyObject R) (a : ℕ) (t : Turn R)
      → f pc o ≡ some t
      → Before o pc a
      → After o pc a t

  abbrev to :
      {o : ConsistencyObject R} {pc : Pc} {a : ℕ} {t u : Turn R}
      → some u ≡ some t
      → After o pc a u
      → After o pc a t
  to {o} {pc} {a} e h = subst (After o pc a) (some-injective _ _ e) h

  turn_call-Moves : (m : Method) → Moves (turn_call m)
  unfolding turn_call
  turn_call-Moves m outside o a t e h = to e (call-After m o a h)
  turn_call-Moves m other o a t e h = cc

  turn_release-Moves : Moves turn_release
  unfolding turn_release
  turn_release-Moves in_read o a t e h = to e (release_read-After o a h)
  turn_release-Moves in_write o a t e h = to e (release_write-After o a h)
  turn_release-Moves other o a t e h = cc

  turn_wake-Moves : Moves turn_wake
  unfolding turn_wake
  turn_wake-Moves read_wait o a t e h = to e (read_again-After o a h)
  turn_wake-Moves update_wait o a t e h = to e (updated-After o a h)
  turn_wake-Moves write_wait o a t e h = to e (write_again-After o a h)
  turn_wake-Moves token_wait o a t e h = to e (token-After o a h)
  turn_wake-Moves (request_wait q r n) o a t e h =
      to e (request_turn-After q r n a o (request_wait q r n) refl refl refl refl h.alone)
  turn_wake-Moves other o a t e h = cc

  pub record Counts (p : Pod R) : Type 0 where
    pub reading : p.obj.reading ≡ total reads p.threads
    pub writing : p.obj.writing ≡ total writes p.threads
    pub wwriters : p.obj.wwriters ≡ total queues p.threads
    pub alone : 0 < p.obj.writing + total awaits p.threads → p.obj.reading ≡ 0

  turn-Counts :
      (f : Pc → ConsistencyObject R → Option (Turn R)) (p : Pod R) (i : ℕ) (o : Option Pc)
      → Moves f
      → get_elem? p.threads i ≡ o
      → Counts p
      → Counts (turn f p i o)
  unfolding turn
  turn-Counts f p i none m e h = h
  turn-Counts f p i (some pc) m e h = elim (Option-cases (f pc p.obj)) [
    | inl q ↦ rw (q, turn) h
    | inr (t, q) ↦
        let before : Before p.obj pc (total awaits p.threads) = record {
          in_reading = omega (arith, le-total reads p.threads i pc e, h.reading);
          in_writing = omega (arith, le-total writes p.threads i pc e, h.writing);
          in_wwriters = omega (arith, le-total queues p.threads i pc e, h.wwriters);
          in_awaits = le-total awaits p.threads i pc e;
          asked = omega (arith, total_mono awaits queues awaits-le-queues p.threads, h.wwriters);
          alone = h.alone;
        } in
        let after : After p.obj pc (total awaits p.threads) t = m pc p.obj _ t q before in
        rw (q, turn)
          (record {
            reading = omega (arith, after.read, h.reading, total-set reads p.threads i pc t.pc e);
            writing =
                omega (arith, after.written, h.writing, total-set writes p.threads i pc t.pc e);
            wwriters =
                omega (arith, after.queued, h.wwriters, total-set queues p.threads i pc t.pc e);
            alone =
                after.alone (total awaits (set p.threads i t.pc))
                  (total-set awaits p.threads i pc t.pc e);
          })
  ]

  method-Counts :
      (p : Pod R) (r : ConsistencyObject R × List (Call R))
      → SameCounts p.obj r.0
      → Counts p
      → Counts (method p r)
  unfolding method
  method-Counts p (o, calls) s h = ground (arith, h.reading, h.writing, h.wwriters, h.alone)

  pub step-Counts : (e : Event R) (p : Pod R) → Counts p → Counts (step e p)
  unfolding step acquire_replica update acquire_token_update invalidate token_ack release_replica
      increment_local_reference_counter decrement_local_reference_counter set_resource
  step-Counts (calls_method i m) p h = turn-Counts (turn_call m) p i _ (turn_call-Moves m) refl h
  step-Counts (releases i) p h = turn-Counts turn_release p i _ turn_release-Moves refl h
  step-Counts (wakes i) p h = turn-Counts turn_wake p i _ turn_wake-Moves refl h
  step-Counts (gets_release r) p h = method-Counts p _ (ground arith) h
  step-Counts other p h = method-Counts p _ (ground arith) h

  pub run-Counts : (es : List (Event R)) (p : Pod R) → Counts p → Counts (run es p)
  unfolding run
  run-Counts [] p h = h
  run-Counts (e ∷ rest) p h = run-Counts rest (step e p) (step-Counts e p h)
