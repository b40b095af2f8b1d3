-- ===== src/Start/Tests.antt =====
-- Two pods of one context.
use pla_co_r.Base.{
  ℕ, ◌≡◌, refl, false, none, some, List, [], ◌∷◌, All, ltb, map, length, get_elem?, arith, true,
  ◌++◌,
}
use pla_co_r.Text.Bytes.{codes}
use pla_co_r.Start.Spawn.{session, spawn, open_sessions, command, append_args}
use pla_co_r.Start.Pods.{
  in_finalize, in_finalize_context, app_finalize, Pod, Event, main, service, run,
}
use pla_co_r.Start.Counts.{has_joined, has_sent}
use pla_co_r.Start.Barrier.{Started, Ended, now, together, passes_at_end}

abbrev names : List ℕ
names = 4 ∷ 5 ∷ []

abbrev all_in_finalize : List Event
all_in_finalize =
    main 0
    ∷ service 0
    ∷ main 0
    ∷ service 0
    ∷ main 1
    ∷ service 0
    ∷ service 1
    ∷ main 1
    ∷ service 0
    ∷ service 1
    ∷ main 0
    ∷ main 1
    ∷ main 0
    ∷ main 1
    ∷ service 0
    ∷ service 0
    ∷ []

abbrev waiting_pod : Pod
waiting_pod = record {
  name = 4;
  context = 7;
  npods = 2;
  phase = in_finalize_context;
  psync = some true;
  is_main_ctrl = true;
  init_total_npods = 2;
  final_total_npods = 0;
  init_ctx_npods = 2;
  final_ctx_npods = 2;
  inbox = [];
}

abbrev ended_pod : Pod
ended_pod = record {
  name = 4;
  context = 7;
  npods = 2;
  phase = in_finalize;
  psync = some true;
  is_main_ctrl = true;
  init_total_npods = 2;
  final_total_npods = 0;
  init_ctx_npods = 2;
  final_ctx_npods = 2;
  inbox = app_finalize ∷ [];
}

abbrev one_passes : List Event
one_passes = all_in_finalize ++ main 0 ∷ []

waiting_test : get_elem? (now names 7 all_in_finalize (omega arith)) 0 ≡ some waiting_pod
unfolding run pla_co_r.Start.Barrier.pods_of pla_co_r.Base.total
waiting_test = refl

ended_test : get_elem? (now names 7 one_passes (omega arith)) 0 ≡ some ended_pod
unfolding run pla_co_r.Start.Barrier.pods_of pla_co_r.Base.total
ended_test = refl

together_example :
    (Started ended_pod.phase
      → All (λ q. has_joined q.phase ≡ 1) (now names 7 one_passes (omega arith)))
    × (Ended ended_pod.phase
        → All (λ q. has_sent q.phase ≡ 1) (now names 7 one_passes (omega arith)))
together_example = together names 7 one_passes (omega arith) 0 ended_pod ended_test

sent_test : All (λ q. has_sent q.phase ≡ 1) (now names 7 all_in_finalize (omega arith))
unfolding run pla_co_r.Start.Barrier.pods_of pla_co_r.Base.total
sent_test = (refl, (refl, tt))

passes_at_end_example : ltb waiting_pod.final_ctx_npods waiting_pod.init_ctx_npods ≡ false
passes_at_end_example =
    passes_at_end names 7 all_in_finalize (omega arith) 0 waiting_pod waiting_test sent_test refl
      refl

-- Three pods on two hosts.
spawn_test :
    spawn (codes "A") (codes "c") 3 7 (codes "m.so") (codes "x" ∷ []) (codes "h" ∷ codes "g" ∷ [])
    ≡ some (
        map (λ h. session h (codes "corx A c 3 7 m.so x")) (codes "h" ∷ codes "g" ∷ codes "h" ∷ []))
unfolding spawn open_sessions command append_args pla_co_r.Text.Decimal.to_string
    pla_co_r.Text.Decimal.digits
spawn_test = refl
