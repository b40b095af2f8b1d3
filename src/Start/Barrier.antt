-- ===== src/Start/Barrier.antt =====
-- `InitializeContext` and `FinalizeContext` (libcor/src/cor/services/controller.cpp) are barriers.
use pla_co_r.Base.{
  ℕ, suc, ◌^◌, ◌≤◌, ◌<◌, ◌≡◌, refl, ap, subst, false, Option, none, some, List, [], ◌∷◌, length,
  get_elem?, total, All, All-get, ltb, arith,
}
use pla_co_r.Start.Pods.{
  Phase, outside, joined_app, in_initialize_context, running, in_finalize_context, in_finalize,
  left_app, Notice, Pod, controller, main_step, service_step, Event, main, service, at_pod, step,
  run,
}
use pla_co_r.Start.Counts.{has_joined, has_sent, joins, sends, Stands, Ok, Inv}
use pla_co_r.Start.Together.{main_Inv, service_Inv}
use pla_co_r.Start.Missing.{joined-le, sent-le, joins-le, sends-le, Ascends-le}

at_main :
    (n c : ℕ) (l : n < 2 ^ 32) (pods : List Pod) (k : ℕ) (o : Option Pod)
    → get_elem? pods k ≡ o
    → Inv n c pods
    → Inv n c (at_pod (main_step k) pods o)
unfolding at_pod
at_main n c l pods k none e h = h
at_main n c l pods k (some p) e h = main_Inv n c l pods k h p.phase p e

at_service :
    (n c : ℕ) (l : n < 2 ^ 32) (pods : List Pod) (k : ℕ) (o : Option Pod)
    → get_elem? pods k ≡ o
    → Inv n c pods
    → Inv n c (at_pod (service_step k) pods o)
unfolding at_pod
at_service n c l pods k none e h = h
at_service n c l pods k (some p) e h = service_Inv n c l pods k h p p.inbox refl e

run-Inv :
    (n c : ℕ)
    → n < 2 ^ 32
    → (es : List Event) (pods : List Pod) → Inv n c pods
    → Inv n c (run es pods)
unfolding run step
run-Inv n c l [] pods h = h
run-Inv n c l (main k ∷ es) pods h = run-Inv n c l es _ (at_main n c l pods k _ refl h)
run-Inv n c l (service k ∷ es) pods h = run-Inv n c l es _ (at_service n c l pods k _ refl h)

-- The pods of a context before they start.
unfoldable pub pods_of : ℕ → ℕ → List ℕ → List Pod
unfolding controller
pods_of n c [] = []
pods_of n c (x ∷ xs) = controller x c n ∷ pods_of n c xs

length-pods_of : (n c : ℕ) (xs : List ℕ) → length (pods_of n c xs) ≡ length xs
unfolding pods_of
length-pods_of n c [] = refl
length-pods_of n c (x ∷ xs) = ap suc (length-pods_of n c xs)

pods_of-Ok : (n c j s : ℕ) (xs : List ℕ) → All (Ok n c j s) (pods_of n c xs)
unfolding pods_of controller
pods_of-Ok n c j s [] = tt
pods_of-Ok n c j s (x ∷ xs) = ((refl, (refl, (refl, (refl, tt)))), pods_of-Ok n c j s xs)

total-at_most :
    (w : Pod → ℕ) → ((p : Pod) → w p ≤ 1) → (pods : List Pod) → total w pods ≤ length pods
unfolding total
total-at_most w f [] = omega arith
total-at_most w f (p ∷ pods) = omega (arith, f p, total-at_most w f pods)

total-full :
    (w : Pod → ℕ)
    → ((p : Pod) → w p ≤ 1)
    → (pods : List Pod) → length pods ≤ total w pods
    → All (λ p. w p ≡ 1) pods
unfolding total
total-full w f [] h = tt
total-full w f (p ∷ pods) h =
    (omega (arith, h, f p, total-at_most w f pods), total-full w f pods (omega (arith, h, f p)))

sent_one : (ph : Phase) → has_sent ph ≤ 1
sent_one ph = omega (arith, sent-le ph, joined-le ph)

total-ones : (w : Pod → ℕ) (pods : List Pod) → All (λ p. w p ≡ 1) pods → total w pods ≡ length pods
unfolding total
total-ones w [] h = refl
total-ones w (p ∷ pods) h = omega (arith, h.0, total-ones w pods h.1)

-- Has a thread passed `InitializeContext`, and `FinalizeContext`?
abbrev pub Started : Phase → Type 0
Started running = Unit
Started in_finalize_context = Unit
Started in_finalize = Unit
Started left_app = Unit
Started _ = ⊥

abbrev pub Ended : Phase → Type 0
Ended in_finalize = Unit
Ended left_app = Unit
Ended _ = ⊥

Started-joins :
    (n j s i f : ℕ) (b : List Notice) (ph : Phase)
    → s ≤ j
    → Stands n j s ph i f b
    → Started ph
    → n ≤ j
Started-joins n j s i f b outside m h a = elim a [ ]
Started-joins n j s i f b joined_app m h a = elim a [ ]
Started-joins n j s i f b in_initialize_context m h a = elim a [ ]
Started-joins n j s i f b running m h a = omega (arith, h.1, Ascends-le b i j h.0.1)
Started-joins n j s i f b in_finalize_context m h a = omega (arith, h.1, Ascends-le b i j h.0.1)
Started-joins n j s i f b in_finalize m h a = omega (arith, h, m)
Started-joins n j s i f b left_app m h a = omega (arith, h, m)

Ended-sends :
    (n j s i f : ℕ) (b : List Notice) (ph : Phase) → Stands n j s ph i f b → Ended ph → n ≤ s
Ended-sends n j s i f b outside h a = elim a [ ]
Ended-sends n j s i f b joined_app h a = elim a [ ]
Ended-sends n j s i f b in_initialize_context h a = elim a [ ]
Ended-sends n j s i f b running h a = elim a [ ]
Ended-sends n j s i f b in_finalize_context h a = elim a [ ]
Ended-sends n j s i f b in_finalize h a = h
Ended-sends n j s i f b left_app h a = h

module _ (xs : List ℕ) (c : ℕ) (es : List Event) (l : length xs < 2 ^ 32) where
  abbrev pub now : List Pod
  now = run es (pods_of (length xs) c xs)

  now-Inv : Inv (length xs) c now
  now-Inv =
      run-Inv (length xs) c l es (pods_of (length xs) c xs)
        (length-pods_of (length xs) c xs, pods_of-Ok (length xs) c _ _ xs)

  module _ (k : ℕ) (p : Pod) (e : get_elem? now k ≡ some p) where
    now-Ok : Ok (length xs) c (joins now) (sends now) p
    now-Ok = All-get (Ok (length xs) c (joins now) (sends now)) now k p now-Inv.1 e

    -- Of the fewer than 2^32 pods that are started for one context, as many as each was told, a pod
    -- passes `InitializeContext` only once all have joined the context, and `FinalizeContext` only
    -- once all have called it, in whatever order the threads of the pods run and the notices are
    -- handled.
    pub together :
        (Started p.phase → All (λ q. has_joined q.phase ≡ 1) now)
        × (Ended p.phase → All (λ q. has_sent q.phase ≡ 1) now)
    together = (
      (λ a.
          total-full (λ q. has_joined q.phase) (λ q. joined-le q.phase) now
            (omega (
              arith,
              now-Inv.0,
              Started-joins (length xs) (joins now) (sends now) p.init_ctx_npods p.final_ctx_npods
                  p.inbox p.phase (sends-le now) now-Ok.1.1 a,
            ))),
      (λ a.
          total-full (λ q. has_sent q.phase) (λ q. sent_one q.phase) now
            (omega (
              arith,
              now-Inv.0,
              Ended-sends (length xs) (joins now) (sends now) p.init_ctx_npods p.final_ctx_npods
                  p.inbox p.phase now-Ok.1.1 a,
            ))),
    )

    -- Once all of them have called `FinalizeContext`, a pod that waits in it and has handled its
    -- notices passes.
    pub passes_at_end :
        All (λ q. has_sent q.phase ≡ 1) now
        → p.phase ≡ in_finalize_context
        → p.inbox ≡ []
        → ltb p.final_ctx_npods p.init_ctx_npods ≡ false
    passes_at_end a f b =
        let g =
          subst
            (λ ph.
              Stands (length xs) (joins now) (sends now) ph p.init_ctx_npods p.final_ctx_npods [])
            f
            (subst
              (Stands (length xs) (joins now) (sends now) p.phase p.init_ctx_npods
                p.final_ctx_npods)
              b now-Ok.1.1) in
        enough p.final_ctx_npods p.init_ctx_npods (
          omega (
            arith,
            g.0.0,
            g.0.1,
            now-Inv.0,
            joins-le now,
            total-ones (λ q. has_sent q.phase) now a,
          ))
      where
        enough : (f i : ℕ) → i ≤ f → ltb f i ≡ false
        enough f i l = ground (arith, l)
