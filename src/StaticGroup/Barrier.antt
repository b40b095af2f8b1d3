-- ===== src/StaticGroup/Barrier.antt =====
-- The counters of one group in one pod, and the calls that wait for them
-- (libcor/src/cor/services/resource_manager.cpp).
use pla_co_r.Base.{
  ℕ, ◌+◌, ◌-◌, ◌%◌, ◌^◌, Bool, true, false, Option, none, some, List, [], ◌∷◌, ltb, ◌==◌,
  if◌then◌else◌,
}

-- `_sg_vars[comm]` and `_sg_cc[comm]`, where they are there.
pub record Group : Type 0 where
  pub sg_vars : Option (ℕ × ℕ)
  pub sg_cc : Option ℕ

unfoldable pub no_group : Group
no_group = record { sg_vars = none; sg_cc = none }

-- `_sg_vars[comm]`; a missing entry is made of two zeros.
abbrev pub vars : Option (ℕ × ℕ) → ℕ × ℕ
vars none = (0, 0)
vars (some v) = v

-- `CreateStaticGroup` before it sends its message.
abbrev pub if_missing : ℕ → Option (ℕ × ℕ) → Option (ℕ × ℕ)
if_missing total_members none = some (0, total_members)
if_missing total_members (some v) = some v

unfoldable pub create_static_group : ℕ → Group → Group
create_static_group total_members g = record g { sg_vars = if_missing total_members g.sg_vars }

-- The end of `HandleCreateStaticGroup`, behind its wait for the entry, and
-- `HandleSynchronizeStaticGroup`.
unfoldable pub count : Group → Group
count g = record g { sg_vars = some (((vars g.sg_vars).0 + 1) % 2 ^ 32, (vars g.sg_vars).1) }

-- Does `HandleCreateStaticGroup` wait first? It goes on at the next notification.
unfoldable pub waits_for_entry : Group → Bool
waits_for_entry g = elim g.sg_vars [ none ↦ true | some v ↦ false ]

-- A look at the loop's condition in `CreateStaticGroup`; `none` waits.
unfoldable pub pass_create : Group → Option Group
pass_create g =
    if (vars g.sg_vars).0 == (vars g.sg_vars).1
    then some (record g { sg_vars = some (0, (vars g.sg_vars).1) })
    else none

-- The same in `SynchronizeStaticGroup`.
unfoldable pub pass_synchronize : Group → Option Group
pass_synchronize g =
    if (vars g.sg_vars).0 == (vars g.sg_vars).1
    then some (record { sg_vars = some (0, (vars g.sg_vars).1); sg_cc = none })
    else none

unfoldable pub handle_static_group_idp : ℕ → Group → Group
handle_static_group_idp idp g = record g { sg_cc = some idp }

-- `GetStaticGroupCCIdp`; `none` waits.
unfoldable pub get_static_group_idp : Group → Option ℕ
get_static_group_idp g = g.sg_cc

-- The threads of the pod that wait in `CreateStaticGroup` or `SynchronizeStaticGroup`, and how
-- many have passed.
pub record Pod : Type 0 where
  pub group : Group
  pub waiting : ℕ
  pub passed : ℕ

pub data Event : Type 0 where
  -- A thread calls, and has sent its message.
  creates : (total_members : ℕ) → Event
  synchronizes : Event
  -- A member's message is handled.
  arrives : Event
  -- A waiting thread looks at its condition.
  wakes_in_create wakes_in_synchronize : Event
  sets_idp : (idp : ℕ) → Event

unfoldable pub left : Pod → Option Group → Pod
left p none = p
left p (some g) = record { group = g; waiting = p.waiting - 1; passed = p.passed + 1 }

unfoldable pub step : Event → Pod → Pod
unfolding left
step (creates n) p = record p { group = create_static_group n p.group; waiting = p.waiting + 1 }
step synchronizes p = record p { waiting = p.waiting + 1 }
step arrives p = record p { group = count p.group }
step wakes_in_create p = if ltb 0 p.waiting then left p (pass_create p.group) else p
step wakes_in_synchronize p = if ltb 0 p.waiting then left p (pass_synchronize p.group) else p
step (sets_idp idp) p = record p { group = handle_static_group_idp idp p.group }

unfoldable pub run : List Event → Pod → Pod
run [] p = p
run (e ∷ es) p = run es (step e p)

-- The pod once the first member has called `CreateStaticGroup`.
unfoldable pub start : ℕ → Pod
start total_members = record {
  group = create_static_group total_members no_group;
  waiting = 1;
  passed = 0;
}
