-- ===== src/Start/Moved.antt =====
-- One pod takes a step, and the others get a notice (libcor/src/cor/services/controller.cpp).
use pla_co_r.Base.{
  ℕ, zero, suc, ◌+◌, ◌≡◌, refl, sym, ◌∙◌, ap, subst, Bool, some, List, [], ◌∷◌, map, length,
  get_elem?, set, total, total-set, All, All-imp, Bool-cases, inl, inr, arith,
}
use pla_co_r.Start.Pods.{Notice, Pod, post}
use pla_co_r.Start.Counts.{has_joined, has_sent, joins, sends, Ok, Inv}

pub All-map :
    (P : Pod → Type 0) (g : Pod → Pod) (xs : List Pod) → All (λ x. P (g x)) xs → All P (map g xs)
All-map P g [] h = tt
All-map P g (x ∷ xs) h = (h.0, All-map P g xs h.1)

pub All-set :
    (P : Pod → Type 0) (xs : List Pod) (k : ℕ) (q : Pod) → All P xs → P q → All P (set xs k q)
All-set P [] k q h g = tt
All-set P (x ∷ xs) zero q h g = (g, h.1)
All-set P (x ∷ xs) (suc k) q h g = (h.0, All-set P xs k q h.1 g)

pub length-set : (xs : List Pod) (k : ℕ) (q : Pod) → length (set xs k q) ≡ length xs
length-set [] k q = refl
length-set (x ∷ xs) zero q = refl
length-set (x ∷ xs) (suc k) q = ap suc (length-set xs k q)

pub length-map : (g : Pod → Pod) (xs : List Pod) → length (map g xs) ≡ length xs
length-map g [] = refl
length-map g (x ∷ xs) = ap suc (length-map g xs)

pub total-map :
    (w : Pod → ℕ) (g : Pod → Pod)
    → ((x : Pod) → w (g x) ≡ w x)
    → (xs : List Pod) → total w (map g xs) ≡ total w xs
unfolding total
total-map w g e [] = refl
total-map w g e (x ∷ xs) = omega (arith, e x, total-map w g e xs)

pub post-phase : (f : Pod → Bool) (m : Notice) (p : Pod) → (post f m p).phase ≡ p.phase
unfolding post
post-phase f m p = elim (Bool-cases (f p)) [ inl e ↦ rw e refl | inr e ↦ rw e refl ]

-- The pod `k` is another one, and the others have got a notice or not.
module _ (n c : ℕ) (pods : List Pod) (k : ℕ) (p q : Pod) (e : get_elem? pods k ≡ some p)
    (h : Inv n c pods) where
  pub moved :
      (g : Pod → Pod) (j s : ℕ)
      → ((x : Pod) → (g x).phase ≡ x.phase)
      → ((x : Pod) → Ok n c (joins pods) (sends pods) x → Ok n c j s (g x))
      → Ok n c j s (g q)
      → j + has_joined p.phase ≡ joins pods + has_joined q.phase
      → s + has_sent p.phase ≡ sends pods + has_sent q.phase
      → Inv n c (map g (set pods k q))
  moved g j s same others own a b =
      let xs = set pods k q in
      let nj =
        total-map (λ x. has_joined x.phase) g (λ x. ap has_joined (same x)) xs
        ∙ level _ _ _ _ _ a (total-set (λ x. has_joined x.phase) pods k p q e) in
      let ns =
        total-map (λ x. has_sent x.phase) g (λ x. ap has_sent (same x)) xs
        ∙ level _ _ _ _ _ b (total-set (λ x. has_sent x.phase) pods k p q e) in
      (
        length-map g xs ∙ length-set pods k q ∙ h.0,
        subst (λ j. All (Ok n c j (sends (map g xs))) (map g xs)) (sym nj)
            (subst (λ s. All (Ok n c j s) (map g xs)) (sym ns)
              (All-map (Ok n c j s) g xs (
                All-set (λ x. Ok n c j s (g x)) pods k q
                  (All-imp (Ok n c (joins pods) (sends pods)) (λ x. Ok n c j s (g x)) others pods
                    h.1)
                  own))),
      )
    where
      level : (j t w v u : ℕ) → j + w ≡ t + v → u + w ≡ t + v → u ≡ j
      level j t w v u x y = omega (arith, x, y)

  -- Without a notice.
  pub replaced :
      Ok n c (joins pods) (sends pods) q
      → has_joined p.phase ≡ has_joined q.phase
      → has_sent p.phase ≡ has_sent q.phase
      → Inv n c (set pods k q)
  replaced own a b =
      let nj = same_total _ _ _ _ a (total-set (λ x. has_joined x.phase) pods k p q e) in
      let ns = same_total _ _ _ _ b (total-set (λ x. has_sent x.phase) pods k p q e) in
      (
        length-set pods k q ∙ h.0,
        subst (λ j. All (Ok n c j (sends (set pods k q))) (set pods k q)) (sym nj)
            (subst (λ s. All (Ok n c (joins pods) s) (set pods k q)) (sym ns)
              (All-set (Ok n c (joins pods) (sends pods)) pods k q h.1 own)),
      )
    where
      same_total : (w v t u : ℕ) → w ≡ v → u + w ≡ t + v → u ≡ t
      same_total w v t u x y = omega (arith, x, y)
