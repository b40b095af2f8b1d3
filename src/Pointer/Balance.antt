-- ===== src/Pointer/Balance.antt =====
-- What the local reference counters count
-- (libcor/include/cor/services/resource_ptr.tpp).
use pla_co_r.Base.{
  ℕ, ◌+◌, ◌%◌, ◌^◌, ◌≡◌, refl, sym, ◌∙◌, ap, subst, Option, none, some, List, [], ◌∷◌, ◌++◌, set,
  total, total-set, total-append, arith,
}
use pla_co_r.Consistency.Object.{ConsistencyObject}
use pla_co_r.Pointer.Ptr.{
  ResourcePtr, Store, unpointed, null_ptr, construct_default, construct, construct_from, assign,
  destroy, Op, constructs_default, constructs, copies, moves, destroys, move_assigns, pointer,
  with_pointer, with_pointers, apply, run,
}
use pla_co_r.Pointer.Counter.{
  to, points_to, found, set_twice, counter, counter-increment, counter-decrement,
}

-- The live pointers to an object.
abbrev pub live : {R : Type 0} → ℕ → Store R → ℕ
live a s = total (points_to a) s.pointers

abbrev over : ℕ → Option ResourcePtr → Option ResourcePtr → ℕ
over a none q = 0
over a (some p) none = 0
over a (some p) (some q) = to a p.cst_obj

-- The pointers to an object that an assignment overwrites.
abbrev overwritten : {R : Type 0} → ℕ → Op → Store R → ℕ
overwritten a (move_assigns i j) s = over a (pointer s.pointers i) (pointer s.pointers j)
overwritten a _ s = 0

unfoldable pub lost : {R : Type 0} → ℕ → List Op → Store R → ℕ
unfolding apply
lost a [] s = 0
lost a (o ∷ os) s = overwritten a o s + lost a os (apply o s)

module _ {R : Type 0} (a : ℕ) where
  -- The counter of the object, with `k` pointers lost.
  abbrev Counts : ℕ → Store R → Type 0
  Counts k s = counter a s.objects ≡ (live a s + k) % 2 ^ 16

  live_more :
      (s : Store R) (p : Option ResourcePtr)
      → total (points_to a) (s.pointers ++ p ∷ []) ≡ live a s + points_to a p
  unfolding total
  live_more s p =
      total-append (points_to a) s.pointers (p ∷ []) ∙ ap (λ k. live a s + k) (omega arith)

  construct-Counts :
      (k idp : ℕ) (o : Option ℕ) (s : Store R) → Counts k s → Counts k (construct idp o s)
  unfolding construct
  construct-Counts k idp o s h =
      counter-increment a o s.objects (live a s + k) h
      ∙ ap (λ n. n % 2 ^ 16)
          (shuffled (live a s) k (to a o) _
            (live_more s (some (record { idp = idp; cst_obj = o }))))
    where
      shuffled : (l k t u : ℕ) → u ≡ l + t → l + k + t ≡ u + k
      shuffled l k t u e = omega (arith, e)

  destroy-Counts :
      (k i : ℕ) (p : ResourcePtr) (s : Store R)
      → pointer s.pointers i ≡ some p
      → Counts k s
      → Counts k (destroy i p s)
  unfolding destroy
  destroy-Counts k i p s e h =
      let fewer = total-set (points_to a) s.pointers i (some p) none (found s.pointers i p e) in
      counter-decrement a p.cst_obj s.objects (total (points_to a) (set s.pointers i none) + k)
        (h ∙ ap (λ n. n % 2 ^ 16) (shuffled (live a s) k (to a p.cst_obj) _ fewer))
    where
      shuffled : (l k t u : ℕ) → u + t ≡ l + 0 → l + k ≡ u + k + t
      shuffled l k t u e = omega (arith, e)

  assign-Counts :
      (k i j : ℕ) (p q : ResourcePtr) (s : Store R)
      → pointer s.pointers i ≡ some p
      → pointer s.pointers j ≡ some q
      → Counts k s
      → Counts (k + to a p.cst_obj) (assign i j q s)
  unfolding assign null_ptr
  assign-Counts k i j p q s e f h =
      let xs = s.pointers in
      let ei = found xs i p e in
      h
      ∙ ap (λ n. n % 2 ^ 16)
          (shuffled (live a s) k (to a p.cst_obj) (to a q.cst_obj) _ _
            (total-set (points_to a) xs i (some p) (some q) ei)
            (total-set (points_to a) (set xs i (some q)) j (some q) (some null_ptr)
              (set_twice xs i j p q ei (found xs j q f))))
    where
      shuffled : (l k t u v w : ℕ) → v + t ≡ l + u → w + u ≡ v + 0 → l + k ≡ w + (k + t)
      shuffled l k t u v w x y = omega (arith, x, y)

  unchanged : (k : ℕ) (s : Store R) → Counts k s → Counts (k + 0) s
  unchanged k s h = subst (λ n. Counts n s) (sum_zero k) h
    where
      sum_zero : (k : ℕ) → k ≡ k + 0
      sum_zero k = omega arith

  constructed-Counts :
      (k : ℕ) (s : Store R) (p : Option ResourcePtr)
      → Counts k s
      → Counts (k + 0) (with_pointer construct_from s p)
  unfolding construct_from
  constructed-Counts k s none h = unchanged k s h
  constructed-Counts k s (some p) h =
      unchanged k (construct p.idp p.cst_obj s) (construct-Counts k p.idp p.cst_obj s h)

  destroyed-Counts :
      (k i : ℕ) (s : Store R) (p : Option ResourcePtr)
      → pointer s.pointers i ≡ p
      → Counts k s
      → Counts (k + 0) (with_pointer (destroy i) s p)
  destroyed-Counts k i s none e h = unchanged k s h
  destroyed-Counts k i s (some p) e h = unchanged k (destroy i p s) (destroy-Counts k i p s e h)

  assigned-Counts :
      (k i j : ℕ) (s : Store R) (p q : Option ResourcePtr)
      → pointer s.pointers i ≡ p
      → pointer s.pointers j ≡ q
      → Counts k s
      → Counts (k + over a p q) (with_pointers (assign i j) s p q)
  assigned-Counts k i j s none q e f h = unchanged k s h
  assigned-Counts k i j s (some p) none e f h = unchanged k s h
  assigned-Counts k i j s (some p) (some q) e f h = assign-Counts k i j p q s e f h

  default-Counts : (k : ℕ) (s : Store R) → Counts k s → Counts k (construct_default s)
  unfolding construct_default null_ptr
  default-Counts k s h =
      h ∙ ap (λ n. (n + k) % 2 ^ 16) (sym (live_more s (some null_ptr) ∙ plus_zero (live a s)))
    where
      plus_zero : (k : ℕ) → k + 0 ≡ k
      plus_zero k = omega arith

  apply-Counts :
      (k : ℕ) (o : Op) (s : Store R) → Counts k s → Counts (k + overwritten a o s) (apply o s)
  unfolding apply
  apply-Counts k constructs_default s h = unchanged k (construct_default s) (default-Counts k s h)
  apply-Counts k (constructs idp o) s h =
      unchanged k (construct idp o s) (construct-Counts k idp o s h)
  apply-Counts k (copies i) s h = constructed-Counts k s (pointer s.pointers i) h
  apply-Counts k (moves i) s h = constructed-Counts k s (pointer s.pointers i) h
  apply-Counts k (destroys i) s h = destroyed-Counts k i s (pointer s.pointers i) refl h
  apply-Counts k (move_assigns i j) s h =
      assigned-Counts k i j s (pointer s.pointers i) (pointer s.pointers j) refl refl h

  run-Counts :
      (os : List Op) (k : ℕ) (s : Store R) → Counts k s → Counts (k + lost a os s) (run os s)
  unfolding run lost
  run-Counts [] k s h = unchanged k s h
  run-Counts (o ∷ os) k s h =
      subst (λ n. Counts n (run os (apply o s)))
        (assoc k (overwritten a o s) (lost a os (apply o s)))
        (run-Counts os (k + overwritten a o s) (apply o s) (apply-Counts k o s h))
    where
      assoc : (k u v : ℕ) → k + u + v ≡ k + (u + v)
      assoc k u v = omega arith

-- The local reference counter of an object that no pointer had, after any constructions, copies,
-- moves, assignments and destructions, is the number of the live pointers to it, more the number
-- of those that an assignment has overwritten, modulo 2^16.
pub counter_balance :
    {R : Type 0} (a : ℕ) (os : List Op) (objects : ℕ → ConsistencyObject R)
    → (objects a).local_ref_cntr ≡ 0
    → let s = unpointed objects in
      ((run os s).objects a).local_ref_cntr ≡ (live a (run os s) + lost a os s) % 2 ^ 16
unfolding total unpointed
counter_balance a os objects h =
    subst (λ n. Counts a n (run os (unpointed objects))) (zero_add (lost a os (unpointed objects)))
      (run-Counts a os 0 (unpointed objects) (h ∙ zero_mod))
  where
    zero_add : (k : ℕ) → 0 + k ≡ k
    zero_add k = omega arith

    zero_mod : 0 ≡ (0 + 0) % 2 ^ 16
    zero_mod = omega arith
