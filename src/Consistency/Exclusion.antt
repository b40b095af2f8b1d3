-- ===== src/Consistency/Exclusion.antt =====
-- Who may hold a resource at once (libcor/src/cor/services/consistency_object.cpp).
use Prim.Native.String.{String}
use pla_co_r.Base.{
  ℕ, ◌+◌, ◌≡◌, refl, ◌≢◌, Bool, some, List, [], ◌∷◌, get_elem?, get_elem?-set_self,
  get_elem?-set_ne, set, replicate, le-total, total-replicate, sym, ◌∙◌, arith,
}
use pla_co_r.Consistency.Object.{
  consistency_object, outside, update_wait, in_read, token_wait, in_write, token_turn,
}
use pla_co_r.Consistency.Requests.{acquire_token_update}
use pla_co_r.Consistency.Threads.{
  Pod, start, Event, wakes, gets_token, turn_wake, turn, method, step, run,
}
use pla_co_r.Consistency.Counts.{reads, writes, awaits, queues, Counts, run-Counts}

module _ {R : Type 0} where
  abbrev pub fresh : ℕ → Bool → String → ℕ → Pod R
  fresh idp owner ctrl n = start (consistency_object idp owner ctrl) (replicate n outside)

  -- A new object after a run of events.
  abbrev pub after : ℕ → Bool → String → ℕ → List (Event R) → Pod R
  after idp owner ctrl n es = run es (fresh idp owner ctrl n)

  pub fresh-Counts :
      (idp : ℕ) (owner : Bool) (ctrl : String) (n : ℕ) → Counts (fresh idp owner ctrl n)
  unfolding start consistency_object
  fresh-Counts idp owner ctrl n = omega (
    arith,
    total-replicate reads n outside refl,
    total-replicate writes n outside refl,
    total-replicate queues n outside refl,
    total-replicate awaits n outside refl,
  )

  -- From a new object and threads that stand outside, whatever is called and whatever arrives: while
  -- a thread is between `AcquireWrite` and `ReleaseWrite`, none is between `AcquireRead` and
  -- `ReleaseRead`, nor has started to read and waits for an update.
  pub write_excludes_read :
      (idp : ℕ) (owner : Bool) (ctrl : String) (n : ℕ) (es : List (Event R)) (i j : ℕ)
      → get_elem? (after idp owner ctrl n es).threads i ≡ some in_write
      → (get_elem? (after idp owner ctrl n es).threads j ≢ some in_read)
        × (get_elem? (after idp owner ctrl n es).threads j ≢ some update_wait)
  write_excludes_read idp owner ctrl n es i j w =
      let p = after idp owner ctrl n es in
      let c : Counts p = run-Counts es _ (fresh-Counts idp owner ctrl n) in
      let held = le-total writes p.threads i in_write w in
      (
        λ r.
            omega
              (arith, held, c.writing, c.reading, c.alone, le-total reads p.threads j in_read r),
        λ r.
            omega (
              arith,
              held,
              c.writing,
              c.reading,
              c.alone,
              le-total reads p.threads j update_wait r,
            ),
      )

  -- The other way: threads `i` and `j` of one pod wait for the token. It comes, both wake up, and
  -- both write: the wait of `AcquireWrite` for the token does not look at `_writing` again.
  pub two_writers :
      (p : Pod R) (i j : ℕ) (rsc : R) (replier : String)
      → i ≢ j
      → get_elem? p.threads i ≡ some token_wait
      → get_elem? p.threads j ≡ some token_wait
      → let q = run (gets_token rsc replier ∷ wakes i ∷ wakes j ∷ []) p in
        (get_elem? q.threads i ≡ some in_write)
        × (get_elem? q.threads j ≡ some in_write)
        × (q.obj.writing ≡ p.obj.writing + 2)
  unfolding run step turn turn_wake token_turn method acquire_token_update
  two_writers p i j rsc replier n e f =
      let between = get_elem?-set_ne p.threads i j in_write n in
      rw (e, between, f)
        (
          get_elem?-set_ne (set p.threads i in_write) j i in_write (λ h. n (sym h))
              ∙ get_elem?-set_self p.threads i in_write token_wait e,
          get_elem?-set_self (set p.threads i in_write) j in_write token_wait (between ∙ f),
          omega arith,
        )
