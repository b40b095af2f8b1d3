-- ===== src/Start/Together.antt =====
-- The pods of one context start and end together (libcor/src/cor/services/controller.cpp).
use pla_co_r.Base.{
  ℕ, suc, ◌+◌, ◌^◌, ◌≤◌, ◌<◌, ◌≡◌, refl, sym, ◌∙◌, ap, subst, Bool, false, Option, none, some, List,
  [], ◌∷◌, get_elem?, set, total, total-set, All-get, ltb, Bool-cases, inl, inr, arith,
}
use pla_co_r.Start.Pods.{
  Phase, outside, joined_app, in_initialize_context, running, in_finalize_context, in_finalize,
  left_app, Notice, app_join, context_join, context_finalize, app_finalize, Pod, handle, one,
  is_app_member, is_context_member, post, broadcast, main_step, service_step,
}
use pla_co_r.Start.Counts.{
  has_joined, has_sent, joins, sends, ends, Ascends, Stands, Ok, Inv, Member-handle, Quiet-handle,
}
use pla_co_r.Start.Moved.{moved, replaced, post-phase, length-set}
use pla_co_r.Start.Missing.{
  joins-le, sends-le, Quiet-ends, Quiet-Ascends, none_sent, context_size, total-zero,
}
use pla_co_r.Start.Posted.{Ok-app, Ok-join, Ok-end}

module _ (n c : ℕ) (l : n < 2 ^ 32) (pods : List Pod) (k : ℕ) (h : Inv n c pods) where
  abbrev J : ℕ
  J = joins pods

  abbrev S : ℕ
  S = sends pods

  few_sends : S < 2 ^ 32
  few_sends = omega (arith, l, h.0, joins-le pods, sends-le pods)

  -- A notice is handled.
  handled_Stands :
      (ph : Phase) (m : Notice) (p : Pod) (b : List Notice)
      → Stands n J S ph p.init_ctx_npods p.final_ctx_npods (m ∷ b)
      → let q = handle m (record p { inbox = b }) in
        Stands n J S ph q.init_ctx_npods q.final_ctx_npods b
  handled_Stands outside m p b g = Quiet-handle m p b g
  handled_Stands joined_app m p b g = Quiet-handle m p b g
  handled_Stands in_initialize_context m p b g = (Member-handle n J S m p b few_sends g).1.0
  handled_Stands running m p b g =
      let r = Member-handle n J S m p b few_sends g.0 in (r.1.0, omega (arith, r.1.1, g.1))
  handled_Stands in_finalize_context m p b g =
      let r = Member-handle n J S m p b few_sends g.0 in (r.1.0, omega (arith, r.1.1, g.1))
  handled_Stands in_finalize m p b g = g
  handled_Stands left_app m p b g = g

  handle_keeps :
      (m : Notice) (p : Pod)
      → ((handle m p).npods ≡ p.npods)
        × (((handle m p).context ≡ p.context)
            × (((handle m p).phase ≡ p.phase) × ((handle m p).inbox ≡ p.inbox)))
  unfolding handle
  handle_keeps (app_join i z) p = (refl, (refl, (refl, refl)))
  handle_keeps (context_join z) p = (refl, (refl, (refl, refl)))
  handle_keeps context_finalize p = (refl, (refl, (refl, refl)))
  handle_keeps app_finalize p = (refl, (refl, (refl, refl)))

  handled_Ok :
      (m : Notice) (p : Pod) (b : List Notice)
      → p.inbox ≡ m ∷ b
      → Ok n c J S p
      → Ok n c J S (handle m (record p { inbox = b }))
  handled_Ok m p b e g =
      let q = handle m (record p { inbox = b }) in
      let v = handle_keeps m (record p { inbox = b }) in
      (
        v.0 ∙ g.0,
        (
          v.1.0 ∙ g.1.0,
          subst (λ ph. Stands n J S ph q.init_ctx_npods q.final_ctx_npods q.inbox) (sym v.1.1.0)
              (subst (λ x. Stands n J S p.phase q.init_ctx_npods q.final_ctx_npods x) (sym v.1.1.1)
                (handled_Stands p.phase m p b (
                  subst (λ x. Stands n J S p.phase p.init_ctx_npods p.final_ctx_npods x) e g.1.1))),
        ),
      )

  pub service_Inv :
      (p : Pod) (b : List Notice)
      → p.inbox ≡ b
      → get_elem? pods k ≡ some p
      → Inv n c (service_step k pods (record p { inbox = b }))
  unfolding service_step
  service_Inv p [] i e = h
  service_Inv p (m ∷ b) i e =
      let v = handle_keeps m (record p { inbox = b }) in
      replaced n c pods k p (handle m (record p { inbox = b })) e h
        (handled_Ok m p b i (All-get _ pods k p h.1 e)) (ap has_joined (sym v.1.1.0))
        (ap has_sent (sym v.1.1.0))

  passes : (i m : ℕ) → ltb i m ≡ false → m ≡ n → n ≤ i
  passes i m f e = ground (arith, f, e)

  -- A pod joins its context.
  module _ (p : Pod) (first : Bool)
      (e : get_elem? pods k ≡ some (record p { phase = joined_app })) where
    abbrev newcomer : Pod
    newcomer = record p { phase = in_initialize_context; is_main_ctrl = first }

    was_Ok : Ok n c J S (record p { phase = joined_app })
    was_Ok = All-get (Ok n c J S) pods k _ h.1 e

    missing : J < n
    missing = omega (
      arith,
      h.0,
      length-set pods k newcomer,
      joins-le (set pods k newcomer),
      total-set (λ x. has_joined x.phase) pods k _ newcomer e,
    )

    S-zero : S ≡ 0
    S-zero = total-zero (λ x. has_sent x.phase) pods (none_sent n c pods h missing)

    size_is : total (λ x. one (is_context_member c x)) pods + 1 ≡ suc J
    size_is = omega (arith, context_size n c pods h missing)

    newcomer-Ok : Ok n c J S newcomer
    newcomer-Ok =
        let g = was_Ok.1.1 in
        (
          was_Ok.0,
          (
            was_Ok.1.0,
            (
              omega (arith, g.1.0, Quiet-ends p.inbox g.1.1, S-zero),
              subst (λ i. Ascends i p.inbox J) (sym g.0) (Quiet-Ascends p.inbox J g.1.1),
            ),
          ),
        )

    join_Inv : Inv n c (
        broadcast
          (is_context_member p.context)
          (context_join (total (λ x. one (is_context_member p.context x)) pods + 1))
          (set pods k newcomer))
    unfolding broadcast
    join_Inv =
        subst
          (λ x. Inv n c (
            broadcast (is_context_member x)
              (context_join (total (λ y. one (is_context_member x y)) pods + 1))
              (set pods k newcomer)))
          (sym was_Ok.1.0)
          (subst
            (λ z. Inv n c (broadcast (is_context_member c) (context_join z) (set pods k newcomer)))
            (sym size_is)
            (moved n c pods k _ newcomer e h (post (is_context_member c) (context_join (suc J)))
              (suc J) S (post-phase (is_context_member c) _) (λ x o. Ok-join n c J S x o)
              (Ok-join n c J S newcomer newcomer-Ok) (omega arith) refl))

  -- A pod sends its end of the context.
  end_Inv :
      (p : Pod)
      → get_elem? pods k ≡ some (record p { phase = running })
      → Inv n c (
          broadcast
            (is_context_member p.context)
            context_finalize
            (set pods k (record p { phase = in_finalize_context })))
  unfolding broadcast
  end_Inv p e =
      let g = All-get (Ok n c J S) pods k _ h.1 e in
      let q = record p { phase = in_finalize_context } in
      subst (λ x. Inv n c (broadcast (is_context_member x) context_finalize (set pods k q)))
        (sym g.1.0)
        (moved n c pods k _ q e h (post (is_context_member c) context_finalize) J (suc S)
          (post-phase (is_context_member c) _) (λ x o. Ok-end n c J S x o) (Ok-end n c J S q g) refl
          (omega arith))

  -- A pod leaves its context.
  leave_Inv :
      (p : Pod)
      → get_elem? pods k ≡ some (record p { phase = in_finalize_context })
      → ltb p.final_ctx_npods p.init_ctx_npods ≡ false
      → Inv n c
          (broadcast is_app_member app_finalize (set pods k (record p { phase = in_finalize })))
  unfolding broadcast
  leave_Inv p e f =
      let g = All-get (Ok n c J S) pods k _ h.1 e in
      let q = record p { phase = in_finalize } in
      let v = all_sent p.final_ctx_npods p.init_ctx_npods (ends p.inbox) f g.1.1.1 g.1.1.0.0 in
      moved n c pods k _ q e h (post is_app_member app_finalize) J S (post-phase is_app_member _)
        (λ x o. Ok-app n c J S app_finalize x tt o)
        (Ok-app n c J S app_finalize q tt (g.0, (g.1.0, v))) refl refl
    where
      all_sent : (f i b : ℕ) → ltb f i ≡ false → n ≤ i → f + b ≡ sends pods → n ≤ sends pods
      all_sent f i b e l g = ground (arith, e, l, g)

  sync_Inv :
      (o : Option Bool) (p : Pod)
      → get_elem? pods k ≡ some (record p { phase = joined_app; psync = o })
      → Inv n c (main_step k pods (record p { phase = joined_app; psync = o }))
  unfolding main_step
  sync_Inv none p e = h
  sync_Inv (some first) p e = join_Inv (record p { psync = some first }) first e

  -- The main thread goes on.
  pub main_Inv :
      (ph : Phase) (p : Pod)
      → get_elem? pods k ≡ some (record p { phase = ph })
      → Inv n c (main_step k pods (record p { phase = ph }))
  unfolding main_step broadcast
  main_Inv outside p e =
      let g = All-get (Ok n c J S) pods k _ h.1 e in
      moved n c pods k _ (record p { phase = joined_app }) e h (post is_app_member _) J S
        (post-phase is_app_member _) (λ x o. Ok-app n c J S _ x tt o)
        (Ok-app n c J S _ (record p { phase = joined_app }) tt g) refl refl
  main_Inv joined_app p e = sync_Inv p.psync p e
  main_Inv in_initialize_context p e = elim (Bool-cases (ltb p.init_ctx_npods p.npods)) [
    | inl f ↦ rw f h
    | inr f ↦ rw f (
        let g = All-get (Ok n c J S) pods k _ h.1 e in
        replaced n c pods k _ (record p { phase = running }) e h
          (g.0, (g.1.0, (g.1.1, passes p.init_ctx_npods p.npods f g.0))) refl refl)
  ]
  main_Inv running p e = end_Inv p e
  main_Inv in_finalize_context p e = elim (Bool-cases (ltb p.final_ctx_npods p.init_ctx_npods)) [
    | inl f ↦ rw f h
    | inr f ↦ rw f (leave_Inv p e f)
  ]
  main_Inv in_finalize p e = elim (Bool-cases (ltb p.final_total_npods p.init_total_npods)) [
    | inl f ↦ rw f h
    | inr f ↦ rw f (
        let g = All-get (Ok n c J S) pods k _ h.1 e in
        replaced n c pods k _ (record p { phase = left_app }) e h g refl refl)
  ]
  main_Inv left_app p e = h
