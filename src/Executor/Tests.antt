-- ===== src/Executor/Tests.antt =====
-- Two threads, 1 and 2, and the resources 300 and 301.
use pla_co_r.Base.{ℕ, ◌≡◌, refl, true, false, none, some, List, [], ◌∷◌}
use pla_co_r.Text.Bytes.{codes}
use pla_co_r.Text.Filename.{get_filename}
use pla_co_r.Executor.Pod.{
  no_threads, get_current_active_resource, Op, task_starts, task_returns, task_throws, change_idp,
  resume_idp, run,
}
use pla_co_r.Executor.Active.{replay, active, active-replay, left_behind}

abbrev two_threads : List Op
two_threads =
    task_starts 1 300
    ∷ task_starts 2 301
    ∷ change_idp 1 301
    ∷ task_returns 2
    ∷ resume_idp 1 300
    ∷ []

two_threads_test : get_current_active_resource 1 (run two_threads no_threads) ≡ some 300
unfolding get_current_active_resource pla_co_r.Base.lookup run pla_co_r.Base.remove
    pla_co_r.Base.put_new no_threads pla_co_r.Base.place pla_co_r.Base.put pla_co_r.Base.change
two_threads_test = refl

active-replay_example : active (run two_threads no_threads) ≡ replay two_threads (active no_threads)
active-replay_example = active-replay two_threads no_threads

left_behind_test :
    get_current_active_resource 1
      (run (task_starts 1 300 ∷ task_throws 1 ∷ task_starts 1 301 ∷ []) no_threads)
    ≡ some 300
unfolding get_current_active_resource pla_co_r.Base.lookup no_threads
left_behind_test = left_behind 1 300 301 no_threads refl

get_filename_test : get_filename (codes "a/m.so") false b'/' ≡ codes "m.so"
unfolding get_filename
get_filename_test = refl
