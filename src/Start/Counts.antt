-- ===== src/Start/Counts.antt =====
-- What the counters of the context (libcor/src/cor/services/controller.cpp) say of the pods.
use pla_co_r.Base.{
  ℕ, suc, ◌+◌, ◌%◌, ◌^◌, ◌≤◌, ◌<◌, ◌≡◌, refl, List, [], ◌∷◌, length, total, All, arith,
}
use pla_co_r.Start.Pods.{
  Phase, outside, joined_app, in_initialize_context, running, in_finalize_context, in_finalize,
  left_app, Notice, app_join, context_join, context_finalize, app_finalize, Pod, handle,
}

-- Has a pod joined its context, and has it sent its end of it?
abbrev pub has_joined : Phase → ℕ
has_joined outside = 0
has_joined joined_app = 0
has_joined _ = 1

abbrev pub has_sent : Phase → ℕ
has_sent in_finalize_context = 1
has_sent in_finalize = 1
has_sent left_app = 1
has_sent _ = 0

abbrev pub joins : List Pod → ℕ
joins pods = total (λ p. has_joined p.phase) pods

abbrev pub sends : List Pod → ℕ
sends pods = total (λ p. has_sent p.phase) pods

-- A queue without notices of the context.
abbrev pub Quiet : List Notice → Type 0
Quiet [] = Unit
Quiet (app_join k s ∷ b) = Quiet b
Quiet (app_finalize ∷ b) = Quiet b
Quiet (context_join s ∷ b) = ⊥
Quiet (context_finalize ∷ b) = ⊥

abbrev pub ends : List Notice → ℕ
ends [] = 0
ends (context_finalize ∷ b) = suc (ends b)
ends (app_join k s ∷ b) = ends b
ends (app_finalize ∷ b) = ends b
ends (context_join s ∷ b) = ends b

-- The sizes of the context in a queue ascend, from `i` up to at most `j`.
abbrev pub Ascends : ℕ → List Notice → ℕ → Type 0
Ascends i [] j = i ≤ j
Ascends i (context_join s ∷ b) j = (i ≤ s) × Ascends s b j
Ascends i (app_join k s ∷ b) j = Ascends i b j
Ascends i (app_finalize ∷ b) j = Ascends i b j
Ascends i (context_finalize ∷ b) j = Ascends i b j

abbrev pub Member : (j s i f : ℕ) → List Notice → Type 0
Member j s i f b = (f + ends b ≡ s) × Ascends i b j

-- What holds of a pod: of the size `i` and the number `f` of ends that it has counted, and of its
-- queue, where `j` pods have joined the context of `n` pods, and `s` have sent their end.
abbrev pub Stands : (n j s : ℕ) → Phase → (i f : ℕ) → List Notice → Type 0
Stands n j s outside i f b = (i ≡ 0) × ((f ≡ 0) × Quiet b)
Stands n j s joined_app i f b = (i ≡ 0) × ((f ≡ 0) × Quiet b)
Stands n j s in_initialize_context i f b = Member j s i f b
Stands n j s running i f b = Member j s i f b × (n ≤ i)
Stands n j s in_finalize_context i f b = Member j s i f b × (n ≤ i)
Stands n j s in_finalize i f b = n ≤ s
Stands n j s left_app i f b = n ≤ s

abbrev pub Ok : (n c j s : ℕ) → Pod → Type 0
Ok n c j s p =
    (p.npods ≡ n)
    × ((p.context ≡ c) × Stands n j s p.phase p.init_ctx_npods p.final_ctx_npods p.inbox)

abbrev pub Inv : (n c : ℕ) → List Pod → Type 0
Inv n c pods = (length pods ≡ n) × All (Ok n c (joins pods) (sends pods)) pods

counted : (f e s : ℕ) → s < 2 ^ 32 → f + suc e ≡ s → (f + 1) % 2 ^ 32 + e ≡ s
counted f e s l h = omega (arith, l, h)

-- A notice that is handled.
pub Member-handle :
    (n j s : ℕ) (m : Notice) (p : Pod) (b : List Notice)
    → s < 2 ^ 32
    → Member j s p.init_ctx_npods p.final_ctx_npods (m ∷ b)
    → let q = handle m (record p { inbox = b }) in
      (q.phase ≡ p.phase)
      × (Member j s q.init_ctx_npods q.final_ctx_npods b × (p.init_ctx_npods ≤ q.init_ctx_npods))
unfolding handle
Member-handle n j s (app_join k z) p b l h = (refl, (h, omega arith))
Member-handle n j s (context_join z) p b l h = (refl, ((h.0, h.1.1), h.1.0))
Member-handle n j s context_finalize p b l h =
    (refl, ((counted p.final_ctx_npods (ends b) s l h.0, h.1), omega arith))
Member-handle n j s app_finalize p b l h = (refl, (h, omega arith))

pub Quiet-handle :
    (m : Notice) (p : Pod) (b : List Notice)
    → (p.init_ctx_npods ≡ 0) × ((p.final_ctx_npods ≡ 0) × Quiet (m ∷ b))
    → let q = handle m (record p { inbox = b }) in
      (q.init_ctx_npods ≡ 0) × ((q.final_ctx_npods ≡ 0) × Quiet b)
unfolding handle
Quiet-handle (app_join k z) p b h = h
Quiet-handle app_finalize p b h = h
Quiet-handle (context_join z) p b h = elim h.1.1 [ ]
Quiet-handle context_finalize p b h = elim h.1.1 [ ]
