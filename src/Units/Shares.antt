-- ===== src/Units/Shares.antt =====
-- The parts that `AgentRange` (units/utils.hpp) gives to the agents.
use Prim.Native.Nat.{min}
use native.Mathlib.Nat.{mod-lt, mod-le, div-add-mod}
use pla_co_r.Base.{
  ℕ, zero, suc, ◌+◌, ◌-◌, ◌*◌, ◌/◌, ◌%◌, ◌^◌, ◌≤◌, ◌<◌, ◌≡◌, ◌∙◌, ap, subst, Option, none, some,
  ◌==◌, inl, inr, arith, ==_ne, ==_iff, Bool-cases,
}
use pla_co_r.Units.Range.{size_t, Loop, round, rounds, assigned, before_loop, agent_range}

-- Where the part of agent `k` begins, if every agent gets `d` and the first `r` one more.
abbrev pub share : (begin d r k : ℕ) → ℕ
share begin d r k = begin + k * d + min k r

pub mul_suc : (k d : ℕ) → suc k * d ≡ k * d + d
mul_suc k d = omega arith

pub share-suc : (begin d r k : ℕ) → share begin d r k ≤ share begin d r (suc k)
share-suc begin d r k = omega (arith, mul_suc k d)

share_shift : (e d r k : ℕ) → share (e + d + min 1 r) d (r - 1) k ≡ share e d r (suc k)
share_shift e d r k = omega (arith, mul_suc k d)

abbrev loop : Option ℕ → ℕ → ℕ → Loop
loop b e r = record { l_begin = b; l_end = e; r = r }

one_more :
    (e d r : ℕ)
    → e + d + min 1 (suc r) < 2 ^ 64
    → size_t (size_t (e + d) + 1) ≡ e + d + min 1 (suc r)
one_more e d r l = omega (arith, l)

one_less : (r : ℕ) → suc r < 2 ^ 64 → size_t (suc r + 2 ^ 64 - 1) ≡ suc r - 1
one_less r m = omega (arith, m)

size_is : (b e : ℕ) → b ≤ e → e < 2 ^ 64 → size_t (e + 2 ^ 64 - b) ≡ e - b
size_is b e l m = omega (arith, l, m)

rank_is : (rank n : ℕ) → rank < n → n < 2 ^ 32 → (rank + 1) % 2 ^ 32 ≡ suc rank
rank_is rank n l m = omega (arith, l, m)

round_is :
    (d : ℕ) (b : Option ℕ) (e r : ℕ)
    → e + d + min 1 r < 2 ^ 64
    → r < 2 ^ 64
    → round d (loop b e r) ≡ loop (some e) (e + d + min 1 r) (r - 1)
unfolding round
round_is d b e zero l m = ap (λ x. loop (some e) x 0) (omega (arith, l))
round_is d b e (suc r) l m = rw (==_ne (suc r) 0 (λ h. omega (arith, h))) (
    ap (λ x. loop (some e) x (size_t (suc r + 2 ^ 64 - 1))) (one_more e d r l)
    ∙ ap (loop (some e) (e + d + min 1 (suc r))) (one_less r m))

rounds-share :
    (d k : ℕ) (b : Option ℕ) (e r : ℕ)
    → share e d r (suc k) < 2 ^ 64
    → r < 2 ^ 64
    → rounds d (suc k) (loop b e r) ≡ loop (some (share e d r k)) (share e d r (suc k)) (r - suc k)
unfolding rounds
rounds-share d zero b e r l m =
    round_is d b e r (omega (arith, l)) m
    ∙ ap (λ x. loop (some e) x (r - 1)) (omega arith)
    ∙ ap (λ x. loop (some x) (share e d r 1) (r - 1)) (omega arith)
rounds-share d (suc k) b e r l m =
    let e2 = e + d + min 1 r in
    ap (rounds d (suc k)) (round_is d b e r (omega (arith, l, mul_suc k d)) m)
    ∙ rounds-share d k (some e) e2 (r - 1) (omega (arith, l, share_shift e d r (suc k)))
        (omega (arith, m))
    ∙ ap (λ x. loop (some x) (share e2 d (r - 1) (suc k)) (r - 1 - suc k)) (share_shift e d r k)
    ∙ ap (λ x. loop (some (share e d r (suc k))) x (r - 1 - suc k)) (share_shift e d r (suc k))
    ∙ ap (loop (some (share e d r (suc k))) (share e d r (suc (suc k)))) (omega arith)

-- The range of `n` agents.
module _ (n begin end : ℕ) where
  abbrev pub each : ℕ
  each = (end - begin) / n

  abbrev pub rest : ℕ
  rest = (end - begin) % n

  -- Where the part of an agent begins.
  abbrev pub part : ℕ → ℕ
  part k = share begin each rest k

  pub part_end : 0 < n → begin ≤ end → part n ≡ end
  part_end p l = omega (arith, l, div-add-mod (end - begin) n, mod-lt (end - begin) {m = n} p)

same_share : (e d r k m : ℕ) → k ≡ m → share e d r k ≤ share e d r m
same_share e d r k m h = subst (λ j. share e d r k ≤ share e d r j) h (omega arith)

pub share_mono : (e d r k m : ℕ) → k ≤ m → share e d r k ≤ share e d r m
share_mono e d r k zero l = same_share e d r k 0 (omega (arith, l))
share_mono e d r k (suc m) l = elim (Bool-cases (k == suc m)) [
  | inl h ↦ same_share e d r k (suc m) ((==_iff k (suc m)).0 h)
  | inr h ↦ omega (arith, share-suc e d r m, share_mono e d r k m (ground (arith, l, h)))
]

-- In a range of 64-bit numbers and a group of fewer than 2^32 agents, the loop of `AgentRange` gives
-- an agent what the closed form gives it: its part begins behind those of the agents before it,
-- each of which has the `n`-th part of the numbers, and the first ones one more.
pub agent_range_is :
    (rank n begin end : ℕ)
    → rank < n
    → n < 2 ^ 32
    → begin ≤ end
    → end < 2 ^ 64
    → agent_range rank n begin end ≡ some (part n begin end rank, part n begin end (suc rank))
unfolding agent_range before_loop assigned
agent_range_is rank n begin end l m b e = rw (==_ne n 0 (λ h. omega (arith, h, l))) (
    ap (λ s. given (s / n) (s % n) ((rank + 1) % 2 ^ 32)) (size_is begin end b e)
    ∙ ap (given (each n begin end) (rest n begin end)) (rank_is rank n l m)
    ∙ ap assigned (
        rounds-share (each n begin end) rank none begin (rest n begin end)
          (omega (
            arith,
            e,
            share_mono begin (each n begin end) (rest n begin end) (suc rank) n (omega (arith, l)),
            part_end n begin end (omega (arith, l)) b,
          ))
          (omega (arith, e, mod-le (end - begin) n))))
  where
    given : ℕ → ℕ → ℕ → Option (ℕ × ℕ)
    given d r k = assigned (rounds d k (before_loop begin r))
