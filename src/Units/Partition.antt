-- ===== src/Units/Partition.antt =====
-- The parts that `AgentRange` (units/utils.hpp) gives to the agents of a group, together.
use pla_co_r.Base.{
  ℕ, zero, suc, ◌+◌, ◌-◌, ◌/◌, ◌^◌, ◌≤◌, ◌<◌, ◌≡◌, ◌⊎◌, sym, ◌∙◌, ap, subst, some, some-injective,
  ltb, Bool-cases, inl, inr, arith,
}
use pla_co_r.Units.Range.{agent_range}
use pla_co_r.Units.Shares.{share, part, part_end, each, rest, share_mono, mul_suc, agent_range_is}

-- The agent works on the number `x`.
abbrev pub Has : (n begin end x k : ℕ) → Type 0
Has n begin end x k = (b e : ℕ) × ((agent_range k n begin end ≡ some (b, e)) × ((b ≤ x) × (x < e)))

-- Somewhere among the first `k` parts.
placed :
    (n begin end x k : ℕ)
    → begin ≤ x
    → x < part n begin end k
    → (j : ℕ) × ((j < k) × ((part n begin end j ≤ x) × (x < part n begin end (suc j))))
placed n begin end x zero l m = absurd (omega (arith, l, m))
placed n begin end x (suc k) l m = elim (Bool-cases (ltb x (part n begin end k))) [
  | inl h ↦
      let (j, (a, w)) = placed n begin end x k l (ground (arith, h)) in (j, (omega (arith, a), w))
  | inr h ↦ (k, (omega arith, (ground (arith, h), m)))
]

not_before : (n begin end x j k : ℕ) → x < part n begin end (suc j) → part n begin end k ≤ x → k ≤ j
not_before n begin end x j k l m = elim (Bool-cases (ltb j k)) [
  | inl h ↦ absurd (
      omega (
        arith,
        l,
        m,
        share_mono begin (each n begin end) (rest n begin end) (suc j) k (ground (arith, h)),
      ))
  | inr h ↦ ground (arith, h)
]

below_both : (j k : ℕ) → j ≤ k → k ≤ j → j ≡ k
below_both j k l m = omega (arith, l, m)

size_of :
    (begin d r k b c : ℕ)
    → b ≡ share begin d r k
    → c ≡ share begin d r (suc k)
    → (c ≡ b + d) ⊎ (c ≡ b + (d + 1))
size_of begin d r k b c f g = elim (Bool-cases (ltb k r)) [
  | inl h ↦ inr (more begin d r k b c f g (ground (arith, h)))
  | inr h ↦ inl (fewer begin d r k b c f g (ground (arith, h)))
]
  where
    more :
        (begin d r k b c : ℕ)
        → b ≡ share begin d r k
        → c ≡ share begin d r (suc k)
        → k < r
        → c ≡ b + (d + 1)
    more begin d r k b c f g h = omega (arith, f, g, h, mul_suc k d)

    fewer :
        (begin d r k b c : ℕ)
        → b ≡ share begin d r k
        → c ≡ share begin d r (suc k)
        → r ≤ k
        → c ≡ b + d
    fewer begin d r k b c f g h = omega (arith, f, g, h, mul_suc k d)

module _ (n begin end : ℕ) (p : 0 < n) (m : n < 2 ^ 32) (l : begin ≤ end) (e : end < 2 ^ 64) where
  -- What is known of a part that an agent was given.
  Has-part :
      (x k : ℕ)
      → k < n
      → Has n begin end x k
      → (part n begin end k ≤ x) × (x < part n begin end (suc k))
  Has-part x k i (b, c, (q, (u, v))) =
      let same = some-injective _ _ (sym (agent_range_is k n begin end i m l e) ∙ q) in
      (
        subst (λ z. z ≤ x) (sym (ap (λ w. w.0) same)) u,
        subst (λ z. x < z) (sym (ap (λ w. w.1) same)) v,
      )

  sized :
      (k b c : ℕ)
      → k < n
      → b ≡ part n begin end k
      → c ≡ part n begin end (suc k)
      → (begin ≤ b)
        × ((c ≤ end) × ((c ≡ b + (end - begin) / n) ⊎ (c ≡ b + ((end - begin) / n + 1))))
  sized k b c i f g = (
    omega (arith, f),
    (
      omega (
        arith,
        g,
        part_end n begin end p l,
        share_mono begin (each n begin end) (rest n begin end) (suc k) n (omega (arith, i)),
      ),
      size_of begin (each n begin end) (rest n begin end) k b c f g,
    ),
  )

  -- Every number of the range is worked on by exactly one agent of the group, and the parts that
  -- `AgentRange` returns lie within the range and have the number of the range divided by the number
  -- of agents, rounded down, or one more. There are fewer than 2^32 agents, at least one, and the
  -- numbers are of 64 bits.
  pub shared_out :
      ((x : ℕ)
        → begin ≤ x
        → x < end
        → (k : ℕ) × ((k < n)
            × (Has n begin end x k × ((j : ℕ) → j < n → Has n begin end x j → j ≡ k))))
      × ((k b c : ℕ)
          → k < n
          → agent_range k n begin end ≡ some (b, c)
          → (begin ≤ b)
            × ((c ≤ end) × ((c ≡ b + (end - begin) / n) ⊎ (c ≡ b + ((end - begin) / n + 1)))))
  shared_out = (
    (λ x a z.
        let (k, (i, (u, v))) =
          placed n begin end x n a (subst (λ y. x < y) (sym (part_end n begin end p l)) z) in
        (
          k,
          (
            i,
            (
              (
                part n begin end k,
                part n begin end (suc k),
                (agent_range_is k n begin end i m l e, (u, v)),
              ),
              (λ j h w.
                  let (s, t) = Has-part x j h w in
                  below_both j k (not_before n begin end x k j v s)
                    (not_before n begin end x j k t u)),
            ),
          ),
        )),
    (λ k b c i q.
        let same = some-injective _ _ (sym q ∙ agent_range_is k n begin end i m l e) in
        sized k b c i (ap (λ w. w.0) same) (ap (λ w. w.1) same)),
  )
