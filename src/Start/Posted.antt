-- ===== src/Start/Posted.antt =====
-- What the counters (libcor/src/cor/services/controller.cpp) say once a notice is sent.
use pla_co_r.Base.{
  ℕ, suc, ◌+◌, ◌≤◌, ◌≡◌, refl, sym, ◌∙◌, ap, subst, Bool, true, false, ◌&&◌, List, [], ◌∷◌, ◌++◌,
  if◌then◌else◌, ◌==◌, ==_iff, Bool-cases, inl, inr, arith,
}
use pla_co_r.Start.Pods.{
  Phase, outside, joined_app, in_initialize_context, running, in_finalize_context, in_finalize,
  left_app, Notice, app_join, context_join, context_finalize, app_finalize, Pod, in_context,
  is_app_member, is_context_member, post,
}
use pla_co_r.Start.Counts.{Quiet, ends, Ascends, Member, Stands, Ok}

abbrev pub OfApp : Notice → Type 0
OfApp (app_join k z) = Unit
OfApp app_finalize = Unit
OfApp (context_join z) = ⊥
OfApp context_finalize = ⊥

Quiet-append : (b : List Notice) (m : Notice) → OfApp m → Quiet b → Quiet (b ++ m ∷ [])
Quiet-append [] (app_join k z) a h = tt
Quiet-append [] app_finalize a h = tt
Quiet-append [] (context_join z) a h = a
Quiet-append [] context_finalize a h = a
Quiet-append (app_join k z ∷ b) m a h = Quiet-append b m a h
Quiet-append (app_finalize ∷ b) m a h = Quiet-append b m a h
Quiet-append (context_join z ∷ b) m a h = h
Quiet-append (context_finalize ∷ b) m a h = h

ends-append : (b : List Notice) (m : Notice) → ends (b ++ m ∷ []) ≡ ends b + ends (m ∷ [])
ends-append [] m = omega arith
ends-append (app_join k z ∷ b) m = ends-append b m
ends-append (app_finalize ∷ b) m = ends-append b m
ends-append (context_join z ∷ b) m = ends-append b m
ends-append (context_finalize ∷ b) m = omega (arith, ends-append b m)

ends-app : (m : Notice) → OfApp m → ends (m ∷ []) ≡ 0
ends-app (app_join k z) a = refl
ends-app app_finalize a = refl
ends-app (context_join z) a = refl
ends-app context_finalize a = elim a [ ]

-- Behind a queue, up to `j`, comes what ascends from there.
Ascends-append :
    (b : List Notice) (m : Notice) (i j k : ℕ)
    → Ascends i b j
    → ((l : ℕ) → l ≤ j → Ascends l (m ∷ []) k)
    → Ascends i (b ++ m ∷ []) k
Ascends-append [] m i j k h f = f i h
Ascends-append (app_join x z ∷ b) m i j k h f = Ascends-append b m i j k h f
Ascends-append (app_finalize ∷ b) m i j k h f = Ascends-append b m i j k h f
Ascends-append (context_join z ∷ b) m i j k h f = (h.0, Ascends-append b m z j k h.1 f)
Ascends-append (context_finalize ∷ b) m i j k h f = Ascends-append b m i j k h f

Ascends-app : (m : Notice) (l j : ℕ) → OfApp m → l ≤ j → Ascends l (m ∷ []) j
Ascends-app (app_join k z) l j a h = h
Ascends-app app_finalize l j a h = h
Ascends-app (context_join z) l j a h = elim a [ ]
Ascends-app context_finalize l j a h = h

Member-app :
    (j s i f : ℕ) (b : List Notice) (m : Notice)
    → OfApp m
    → Member j s i f b
    → Member j s i f (b ++ m ∷ [])
Member-app j s i f b m a h = (
  omega (arith, h.0, ends-append b m, ends-app m a),
  Ascends-append b m i j j h.1 (λ l x. Ascends-app m l j a x),
)

Member-join :
    (j s i f : ℕ) (b : List Notice)
    → Member j s i f b
    → Member (suc j) s i f (b ++ context_join (suc j) ∷ [])
Member-join j s i f b h = (
  omega (arith, h.0, ends-append b (context_join (suc j))),
  Ascends-append b (context_join (suc j)) i j (suc j) h.1 (λ l x. (omega (arith, x), omega arith)),
)

Member-end :
    (j s i f : ℕ) (b : List Notice)
    → Member j s i f b
    → Member j (suc s) i f (b ++ context_finalize ∷ [])
Member-end j s i f b h = (
  omega (arith, h.0, ends-append b context_finalize),
  Ascends-append b context_finalize i j j h.1 (λ l x. x),
)

module _ (n j s i f : ℕ) (b : List Notice) where
  Stands-app :
      (ph : Phase) (m : Notice)
      → OfApp m
      → Stands n j s ph i f b
      → Stands n j s ph i f (b ++ m ∷ [])
  Stands-app outside m a h = (h.0, (h.1.0, Quiet-append b m a h.1.1))
  Stands-app joined_app m a h = (h.0, (h.1.0, Quiet-append b m a h.1.1))
  Stands-app in_initialize_context m a h = Member-app j s i f b m a h
  Stands-app running m a h = (Member-app j s i f b m a h.0, h.1)
  Stands-app in_finalize_context m a h = (Member-app j s i f b m a h.0, h.1)
  Stands-app in_finalize m a h = h
  Stands-app left_app m a h = h

  -- Only the members of the context get the notice.
  abbrev queue : Phase → Notice → List Notice
  queue ph m = if in_context ph then b ++ m ∷ [] else b

  Stands-join :
      (ph : Phase)
      → Stands n j s ph i f b
      → Stands n (suc j) s ph i f (queue ph (context_join (suc j)))
  Stands-join outside h = h
  Stands-join joined_app h = h
  Stands-join in_initialize_context h = Member-join j s i f b h
  Stands-join running h = (Member-join j s i f b h.0, h.1)
  Stands-join in_finalize_context h = (Member-join j s i f b h.0, h.1)
  Stands-join in_finalize h = h
  Stands-join left_app h = h

  Stands-end :
      (ph : Phase) → Stands n j s ph i f b → Stands n j (suc s) ph i f (queue ph context_finalize)
  Stands-end outside h = h
  Stands-end joined_app h = h
  Stands-end in_initialize_context h = Member-end j s i f b h
  Stands-end running h = (Member-end j s i f b h.0, h.1)
  Stands-end in_finalize_context h = (Member-end j s i f b h.0, h.1)
  Stands-end in_finalize h = omega (arith, h)
  Stands-end left_app h = omega (arith, h)

in_own : (a : Bool) (c d : ℕ) → c ≡ d → (a && c == d) ≡ a
in_own true c d e = (==_iff c d).1 e
in_own false c d e = refl

if_inbox :
    (b : Bool) (p : Pod) (x : List Notice)
    → (if b then record p { inbox = x } else p) ≡ record p { inbox = if b then x else p.inbox }
if_inbox true p x = refl
if_inbox false p x = refl

module _ (n c j s : ℕ) where
  pub Ok-app : (m : Notice) (p : Pod) → OfApp m → Ok n c j s p → Ok n c j s (post is_app_member m p)
  unfolding post
  Ok-app m p a h = elim (Bool-cases (is_app_member p)) [
    | inl e ↦ rw e (
      h.0,
      (h.1.0, Stands-app n j s p.init_ctx_npods p.final_ctx_npods p.inbox p.phase m a h.1.1),
    )
    | inr e ↦ rw e h
  ]

  post-queue :
      (m : Notice) (p : Pod)
      → p.context ≡ c
      → post (is_context_member c) m p
        ≡ record p { inbox = queue n j s p.init_ctx_npods p.final_ctx_npods p.inbox p.phase m }
  unfolding post
  post-queue m p e =
      ap (λ x. if x then record p { inbox = p.inbox ++ m ∷ [] } else p)
        (in_own (in_context p.phase) p.context c e)
      ∙ if_inbox (in_context p.phase) p (p.inbox ++ m ∷ [])

  pub Ok-join :
      (p : Pod)
      → Ok n c j s p
      → Ok n c (suc j) s (post (is_context_member c) (context_join (suc j)) p)
  Ok-join p h =
      subst (Ok n c (suc j) s) (sym (post-queue (context_join (suc j)) p h.1.0))
        (h.0, (h.1.0, Stands-join n j s p.init_ctx_npods p.final_ctx_npods p.inbox p.phase h.1.1))

  pub Ok-end :
      (p : Pod) → Ok n c j s p → Ok n c j (suc s) (post (is_context_member c) context_finalize p)
  Ok-end p h =
      subst (Ok n c j (suc s)) (sym (post-queue context_finalize p h.1.0))
        (h.0, (h.1.0, Stands-end n j s p.init_ctx_npods p.final_ctx_npods p.inbox p.phase h.1.1))
