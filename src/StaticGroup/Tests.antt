-- ===== src/StaticGroup/Tests.antt =====
-- A group of two members.
use pla_co_r.Base.{ℕ, ◌+◌, ◌*◌, ◌≡◌, refl, none, some, List, [], ◌∷◌, arith}
use pla_co_r.StaticGroup.Barrier.{
  Event, creates, synchronizes, arrives, wakes_in_create, wakes_in_synchronize, sets_idp,
  get_static_group_idp, run, start, step, count, create_static_group, no_group, Pod,
}
use pla_co_r.StaticGroup.Rounds.{arrivals, passes_paid}
use pla_co_r.StaticGroup.Overtaken.{overtaken}
use pla_co_r.StaticGroup.Lost.{idp_lost}

-- Both members are threads of this pod.
abbrev round : List Event
round =
    creates 2 ∷ (arrives ∷ (arrives ∷ (wakes_in_create ∷ (wakes_in_create ∷ (synchronizes ∷ [])))))

passes_paid_example :
    (c : ℕ) × (((run round (start 2)).group.sg_vars ≡ some (c, 2))
      × ((run round (start 2)).passed * 2 + c ≡ arrivals round))
unfolding arrivals
passes_paid_example = passes_paid round 2 (omega arith)

-- The other member has passed the barrier, and has come to it again.
abbrev behind : Pod
behind = run (arrives ∷ (arrives ∷ (arrives ∷ []))) (start 2)

abbrev later : List Event
later = wakes_in_create ∷ (arrives ∷ (wakes_in_create ∷ []))

overtaken_example : (run later behind).passed ≡ behind.passed
unfolding run start step count create_static_group no_group arrivals
overtaken_example = overtaken later 2 3 behind refl (omega arith) (omega arith)

-- The message of the last member has been handled, and the thread of the pod has not woken up.
abbrev slow : Pod
slow = run (arrives ∷ arrives ∷ []) (start 2)

idp_lost_example :
    ((run (sets_idp 7 ∷ wakes_in_synchronize ∷ []) slow).passed ≡ slow.passed + 1)
    × (get_static_group_idp
          (run (sets_idp 7 ∷ wakes_in_synchronize ∷ synchronizes ∷ arrives ∷ []) slow).group
        ≡ none)
unfolding run start step count create_static_group no_group
idp_lost_example = idp_lost (synchronizes ∷ arrives ∷ []) 2 7 slow refl (omega arith) tt
