-- ===== src/StaticGroup/Overtaken.antt =====
-- A message that comes too early.
use pla_co_r.Base.{
  ℕ, suc, ◌+◌, ◌^◌, ◌<◌, ◌≤◌, ◌≡◌, refl, sym, Bool, true, false, Option, none, some, List, [], ◌∷◌,
  ltb, ◌==◌, ==_iff, if◌then◌else◌, subst, ap, arith,
}
use pla_co_r.StaticGroup.Barrier.{
  create_static_group, count, pass_create, pass_synchronize, handle_static_group_idp, Pod, Event,
  creates, synchronizes, arrives, wakes_in_create, wakes_in_synchronize, sets_idp, left, step, run,
}
use pla_co_r.StaticGroup.Rounds.{arrivals, came, at, bound, small}

-- More messages than members are counted.
abbrev Ahead : ℕ → ℕ → ℕ → Pod → Type 0
Ahead n q k p = (c : ℕ) × ((p.group.sg_vars ≡ some (c, n)) × ((n < c) × ((c ≤ k) × (p.passed ≡ q))))

left-Ahead :
    (n k c w q : ℕ) (cc cc2 : Option ℕ) (b : Bool)
    → n < c
    → c ≤ k
    → (c == n) ≡ b
    → Ahead n q k (
        left
          (at c n cc w q)
          (if b then some (record { sg_vars = some (0, n); sg_cc = cc2 }) else none))
unfolding left
left-Ahead n k c w q cc cc2 true l m e = absurd (omega (arith, l, (==_iff c n).0 e))
left-Ahead n k c w q cc cc2 false l m e = (c, (refl, (l, (m, refl))))

wakes-Ahead :
    (n k c w q : ℕ) (cc cc2 : Option ℕ) (b : Bool)
    → n < c
    → c ≤ k
    → Ahead n q k (
        if b
        then left
            (at c n cc w q)
            (if c == n then some (record { sg_vars = some (0, n); sg_cc = cc2 }) else none)
        else at c n cc w q)
wakes-Ahead n k c w q cc cc2 true l m = left-Ahead n k c w q cc cc2 (c == n) l m refl
wakes-Ahead n k c w q cc cc2 false l m = (c, (refl, (l, (m, refl))))

-- `k` bounds the counter together with the arrivals to come.
step-Ahead :
    (e : Event) (n k c w q : ℕ) (cc : Option ℕ)
    → n < c
    → c ≤ k
    → suc k < 2 ^ 32
    → Ahead n q (came e + k) (step e (at c n cc w q))
unfolding step arrivals create_static_group count pass_create pass_synchronize
    handle_static_group_idp
step-Ahead (creates t) n k c w q cc l m b = (c, (refl, (l, (omega (arith, m), refl))))
step-Ahead synchronizes n k c w q cc l m b = (c, (refl, (l, (omega (arith, m), refl))))
step-Ahead arrives n k c w q cc l m b = (
  c + 1,
  (ap (λ i. some (i, n)) (omega (arith, m, b)), (omega (arith, l), (omega (arith, m), refl))),
)
step-Ahead wakes_in_create n k c w q cc l m b =
    wakes-Ahead n _ c w q cc cc (ltb 0 w) l (omega (arith, m))
step-Ahead wakes_in_synchronize n k c w q cc l m b =
    wakes-Ahead n _ c w q cc none (ltb 0 w) l (omega (arith, m))
step-Ahead (sets_idp idp) n k c w q cc l m b = (c, (refl, (l, (omega (arith, m), refl))))

next-Ahead :
    (e : Event) (n q k : ℕ) (p : Pod)
    → suc k < 2 ^ 32
    → Ahead n q k p
    → Ahead n q (came e + k) (step e p)
next-Ahead e n q k p b (c, (g, (l, (m, r)))) =
    subst (λ u. Ahead n u (came e + k) (step e p)) r
      (subst
        (λ v.
          Ahead n p.passed (came e + k)
            (step e (record p { group = record { sg_vars = v; sg_cc = p.group.sg_cc } })))
        (sym g) (step-Ahead e n k c p.waiting p.passed p.group.sg_cc l m b))

run-Ahead :
    (es : List Event) (n q k : ℕ) (p : Pod)
    → suc (arrivals es + k) < 2 ^ 32
    → Ahead n q k p
    → (run es p).passed ≡ q
unfolding run
run-Ahead [] n q k p b h = h.1.1.1.1
run-Ahead (e ∷ es) n q k p b h =
    run-Ahead es n q (came e + k) (step e p) (bound e es k b)
      (next-Ahead e n q k p (small e es k b) h)

-- Where more messages have been counted than the group has members, because one came before the
-- waiting thread woke up, the counter does not meet the number of members again: no thread passes
-- any more, whatever is called, arrives or wakes up, in fewer than 2^32 - 1 messages.
pub overtaken :
    (es : List Event) (n c : ℕ) (p : Pod)
    → p.group.sg_vars ≡ some (c, n)
    → n < c
    → suc (arrivals es + c) < 2 ^ 32
    → (run es p).passed ≡ p.passed
overtaken es n c p g l b = run-Ahead es n p.passed c p b (c, (g, (l, (omega arith, refl))))
