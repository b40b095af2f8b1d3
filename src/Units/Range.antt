-- ===== src/Units/Range.antt =====
-- `AgentRange` (units/utils.hpp): the part of a range that an agent works on.
use pla_co_r.Base.{ℕ, zero, suc, ◌+◌, ◌-◌, ◌/◌, ◌%◌, ◌^◌, Option, none, some, if◌then◌else◌, ◌==◌}

abbrev pub size_t : ℕ → ℕ
size_t n = n % 2 ^ 64

-- The variables of the loop; `l_begin` has no value before the first round.
pub record Loop : Type 0 where
  pub l_begin : Option ℕ
  pub l_end : ℕ
  pub r : ℕ

-- One round.
unfoldable pub round : ℕ → Loop → Loop
round d s =
    if s.r == 0 then record s { l_begin = some s.l_end; l_end = size_t (s.l_end + d) } else record {
      l_begin = some s.l_end;
      l_end = size_t (size_t (s.l_end + d) + 1);
      r = size_t (s.r + 2 ^ 64 - 1);
    }

unfoldable pub rounds : ℕ → ℕ → Loop → Loop
unfolding round
rounds d zero s = s
rounds d (suc k) s = rounds d k (round d s)

-- The new values of `begin` and `end`, from what `GetRank` and `GetSize` return. `none` is a value
-- that was never assigned, or a division by zero.
unfoldable pub assigned : Loop → Option (ℕ × ℕ)
assigned s = elim s.l_begin [ none ↦ none | some b ↦ some (b, s.l_end) ]

unfoldable pub before_loop : ℕ → ℕ → Loop
before_loop begin r = record { l_begin = none; l_end = begin; r = r }

unfoldable pub agent_range : (rank num_agents begin end : ℕ) → Option (ℕ × ℕ)
unfolding rounds assigned before_loop
agent_range rank num_agents begin end =
    let size = size_t (end + 2 ^ 64 - begin) in
    let start = before_loop begin (size % num_agents) in
    if num_agents == 0
    then none
    else assigned (rounds (size / num_agents) ((rank + 1) % 2 ^ 32) start)
