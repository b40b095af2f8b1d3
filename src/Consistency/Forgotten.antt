-- ===== src/Consistency/Forgotten.antt =====
-- A reader that nobody wakes up (libcor/src/cor/services/consistency_object.cpp).
use mathlib.Core.List.{append-nil}
use pla_co_r.Base.{
  ℕ, ◌≡◌, ◌≢◌, sym, ap, ◌∙◌, some, [], ◌∷◌, ◌++◌, get_elem?, get_elem?-set_self, get_elem?-set_ne,
  set, arith,
}
use pla_co_r.Consistency.Object.{
  ConsistencyObject, notify_all, reqwq, outside, read_wait, update_wait, in_read, acquire_read,
  release_read, begin_read,
}
use pla_co_r.Consistency.Requests.{invalidate}
use pla_co_r.Consistency.Threads.{
  Pod, calls_method, acquires_read, releases, gets_invalidate, call, turn_call, turn_release, turn,
  method, step, run,
}

module _ {R : Type 0} where
  -- Where one thread reads and nobody else uses the object.
  module _ (o : ConsistencyObject R) (one : o.reading ≡ 1) (w : o.writing ≡ 0)
      (ww : o.wwriters ≡ 0) where
    waits : acquire_read (invalidate o) ≡ record { obj = invalidate o; calls = []; pc = read_wait }
    unfolding acquire_read invalidate
    waits = ground arith

    leaves : (release_read (invalidate o)).calls ≡ notify_all reqwq ∷ []
    unfolding release_read invalidate
    leaves = ground arith

    could_go : (acquire_read (release_read (invalidate o)).obj).pc ≡ update_wait
    unfolding acquire_read release_read invalidate begin_read
    could_go = ground arith

  -- Thread `i` reads alone and the object is invalidated. Thread `j` calls `AcquireRead` and waits,
  -- since the object is not valid and someone reads; then `i` stops. Now `j` could go on, and would
  -- ask for the update, but all this notifies nobody that waits to read.
  pub reader_left :
      (p : Pod R) (i j : ℕ)
      → i ≢ j
      → get_elem? p.threads i ≡ some in_read
      → get_elem? p.threads j ≡ some outside
      → p.obj.reading ≡ 1
      → p.obj.writing ≡ 0
      → p.obj.wwriters ≡ 0
      → let q = run (gets_invalidate ∷ calls_method j acquires_read ∷ releases i ∷ []) p in
        (get_elem? q.threads j ≡ some read_wait)
        × (q.calls ≡ p.calls ++ notify_all reqwq ∷ [])
        × ((acquire_read q.obj).pc ≡ update_wait)
  unfolding run step turn turn_call turn_release call method release_read
  reader_left p i j n e f one w ww =
      let still = get_elem?-set_ne p.threads j i read_wait (λ h. n (sym h)) in
      rw (f, waits p.obj one w ww, still, e)
        (
          get_elem?-set_ne (set p.threads j read_wait) i j outside n
              ∙ get_elem?-set_self p.threads j read_wait outside f,
          ap (λ c. ((p.calls ++ []) ++ []) ++ c) (leaves p.obj one w ww)
              ∙ ap (λ c. c ++ notify_all reqwq ∷ [])
                  (append-nil (p.calls ++ []) ∙ append-nil p.calls),
          could_go p.obj one w ww,
        )
