-- ===== src/Start/Missing.antt =====
-- What is known while a pod of the context is missing (libcor/src/cor/services/controller.cpp).
use pla_co_r.Base.{
  ℕ, ◌≤◌, ◌<◌, ◌≡◌, refl, Bool, true, List, [], ◌∷◌, length, total, total_mono, ◌&&◌, All, All-imp,
  All-zip, ==_iff, ◌==◌, arith,
}
use pla_co_r.Start.Pods.{
  Phase, outside, joined_app, in_initialize_context, running, in_finalize_context, in_finalize,
  left_app, Notice, app_join, context_join, context_finalize, app_finalize, Pod, one,
  is_context_member, in_context,
}
use pla_co_r.Start.Counts.{
  has_joined, has_sent, joins, sends, Quiet, ends, Ascends, Stands, Ok, Inv,
}

pub joined-le : (ph : Phase) → has_joined ph ≤ 1
joined-le outside = omega arith
joined-le joined_app = omega arith
joined-le in_initialize_context = omega arith
joined-le running = omega arith
joined-le in_finalize_context = omega arith
joined-le in_finalize = omega arith
joined-le left_app = omega arith

pub sent-le : (ph : Phase) → has_sent ph ≤ has_joined ph
sent-le outside = omega arith
sent-le joined_app = omega arith
sent-le in_initialize_context = omega arith
sent-le running = omega arith
sent-le in_finalize_context = omega arith
sent-le in_finalize = omega arith
sent-le left_app = omega arith

pub joins-le : (pods : List Pod) → joins pods ≤ length pods
unfolding total
joins-le [] = omega arith
joins-le (p ∷ pods) = omega (arith, joined-le p.phase, joins-le pods)

pub sends-le : (pods : List Pod) → sends pods ≤ joins pods
sends-le pods = total_mono _ _ (λ p. sent-le p.phase) pods

pub Ascends-le : (b : List Notice) (i j : ℕ) → Ascends i b j → i ≤ j
Ascends-le [] i j h = h
Ascends-le (context_join z ∷ b) i j h = omega (arith, h.0, Ascends-le b z j h.1)
Ascends-le (app_join k z ∷ b) i j h = Ascends-le b i j h
Ascends-le (app_finalize ∷ b) i j h = Ascends-le b i j h
Ascends-le (context_finalize ∷ b) i j h = Ascends-le b i j h

pub Quiet-ends : (b : List Notice) → Quiet b → ends b ≡ 0
Quiet-ends [] h = refl
Quiet-ends (app_join k z ∷ b) h = Quiet-ends b h
Quiet-ends (app_finalize ∷ b) h = Quiet-ends b h
Quiet-ends (context_join z ∷ b) h = elim h [ ]
Quiet-ends (context_finalize ∷ b) h = elim h [ ]

pub Quiet-Ascends : (b : List Notice) (j : ℕ) → Quiet b → Ascends 0 b j
Quiet-Ascends [] j h = omega arith
Quiet-Ascends (app_join k z ∷ b) j h = Quiet-Ascends b j h
Quiet-Ascends (app_finalize ∷ b) j h = Quiet-Ascends b j h
Quiet-Ascends (context_join z ∷ b) j h = elim h [ ]
Quiet-Ascends (context_finalize ∷ b) j h = elim h [ ]

-- While a pod is missing, none has sent its end.
unsent :
    (n j s i f : ℕ) (b : List Notice) (ph : Phase)
    → j < n
    → s ≤ j
    → Stands n j s ph i f b
    → has_sent ph ≡ 0
unsent n j s i f b outside l m h = refl
unsent n j s i f b joined_app l m h = refl
unsent n j s i f b in_initialize_context l m h = refl
unsent n j s i f b running l m h = refl
unsent n j s i f b in_finalize_context l m h =
    absurd (omega (arith, l, h.1, Ascends-le b i j h.0.1))
unsent n j s i f b in_finalize l m h = absurd (omega (arith, l, m, h))
unsent n j s i f b left_app l m h = absurd (omega (arith, l, m, h))

pub total-zero : (w : Pod → ℕ) (pods : List Pod) → All (λ p. w p ≡ 0) pods → total w pods ≡ 0
unfolding total
total-zero w [] h = refl
total-zero w (p ∷ pods) h = omega (arith, h.0, total-zero w pods h.1)

total-cong :
    (v w : Pod → ℕ) (pods : List Pod) → All (λ p. v p ≡ w p) pods → total v pods ≡ total w pods
unfolding total
total-cong v w [] h = refl
total-cong v w (p ∷ pods) h = omega (arith, h.0, total-cong v w pods h.1)

-- Then the members of the context are the pods that have joined it.
in_context_joined :
    (b : Bool) (ph : Phase) → b ≡ true → has_sent ph ≡ 0 → one (in_context ph && b) ≡ has_joined ph
in_context_joined b outside e h = refl
in_context_joined b joined_app e h = refl
in_context_joined b in_initialize_context e h = rw e refl
in_context_joined b running e h = rw e refl
in_context_joined b in_finalize_context e h = absurd (omega (arith, h))
in_context_joined b in_finalize e h = absurd (omega (arith, h))
in_context_joined b left_app e h = absurd (omega (arith, h))

module _ (n c : ℕ) (pods : List Pod) (h : Inv n c pods) where
  pub none_sent : joins pods < n → All (λ p. has_sent p.phase ≡ 0) pods
  none_sent l =
      All-imp (Ok n c (joins pods) (sends pods)) (λ p. has_sent p.phase ≡ 0)
        (λ p g.
          unsent n (joins pods) (sends pods) p.init_ctx_npods p.final_ctx_npods p.inbox p.phase l
            (sends-le pods) g.1.1)
        pods h.1

  pub context_size : joins pods < n → total (λ p. one (is_context_member c p)) pods ≡ joins pods
  context_size l =
      total-cong (λ p. one (is_context_member c p)) (λ p. has_joined p.phase) pods
        (All-imp (λ p. Ok n c (joins pods) (sends pods) p × (has_sent p.phase ≡ 0))
          (λ p. one (is_context_member c p) ≡ has_joined p.phase)
          (λ p g. in_context_joined (p.context == c) p.phase ((==_iff p.context c).1 g.0.1.0) g.1)
          pods
          (All-zip (Ok n c (joins pods) (sends pods)) (λ p. has_sent p.phase ≡ 0) pods h.1
            (none_sent l)))
