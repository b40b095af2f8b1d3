-- ===== src/Pointer/Counter.antt =====
-- One call of a counter, and the pointers of a store
-- (libcor/include/cor/services/resource_ptr.tpp).
use mathlib.Core.Bool.{true≢false}
use pla_co_r.Base.{
  ℕ, ◌+◌, ◌%◌, ◌^◌, ◌≡◌, sym, ◌∙◌, ap, subst, Bool, true, false, Option, none, some, none-ne-some,
  List, get_elem?, set, get_elem?-set_self, get_elem?-set_ne, if◌then◌else◌, ◌==◌, ==_iff,
  Bool-cases, inl, inr, arith,
}
use pla_co_r.Consistency.Object.{ConsistencyObject}
use pla_co_r.Consistency.Requests.{
  increment_local_reference_counter, decrement_local_reference_counter,
}
use pla_co_r.Pointer.Ptr.{ResourcePtr, at_object, pointer, flatten}

abbrev pub to : ℕ → Option ℕ → ℕ
to a none = 0
to a (some b) = if b == a then 1 else 0

abbrev pub points_to : ℕ → Option ResourcePtr → ℕ
points_to a none = 0
points_to a (some p) = to a p.cst_obj

pub unflat :
    (x : Option (Option ResourcePtr)) (p : ResourcePtr) → flatten x ≡ some p → x ≡ some (some p)
unflat none p e = absurd (none-ne-some p e)
unflat (some q) p e = ap some e

pub found :
    (xs : List (Option ResourcePtr)) (i : ℕ) (p : ResourcePtr)
    → pointer xs i ≡ some p
    → get_elem? xs i ≡ some (some p)
found xs i p e = unflat (get_elem? xs i) p e

pub set_twice :
    (xs : List (Option ResourcePtr)) (i j : ℕ) (p q : ResourcePtr)
    → get_elem? xs i ≡ some (some p)
    → get_elem? xs j ≡ some (some q)
    → get_elem? (set xs i (some q)) j ≡ some (some q)
set_twice xs i j p q e f = elim (Bool-cases (i == j)) [
  | inl h ↦
      subst (λ k. get_elem? (set xs i (some q)) k ≡ some (some q)) ((==_iff i j).0 h)
        (get_elem?-set_self xs i (some q) (some p) e)
  | inr h ↦ get_elem?-set_ne xs i j (some q) (λ g. true≢false (sym ((==_iff i j).1 g) ∙ h)) ∙ f
]

module _ {R : Type 0} (a : ℕ) where
  abbrev pub counter : (ℕ → ConsistencyObject R) → ℕ
  counter objects = (objects a).local_ref_cntr

  incremented :
      (x : Bool) (o : ConsistencyObject R) (n : ℕ)
      → o.local_ref_cntr ≡ n % 2 ^ 16
      → (if x then increment_local_reference_counter o else o).local_ref_cntr
        ≡ (n + (if x then 1 else 0)) % 2 ^ 16
  unfolding increment_local_reference_counter
  incremented true o n h = omega (arith, h)
  incremented false o n h = omega (arith, h)

  decremented :
      (x : Bool) (o : ConsistencyObject R) (n : ℕ)
      → o.local_ref_cntr ≡ (n + (if x then 1 else 0)) % 2 ^ 16
      → (if x then decrement_local_reference_counter o else o).local_ref_cntr ≡ n % 2 ^ 16
  unfolding decrement_local_reference_counter
  decremented true o n h = omega (arith, h)
  decremented false o n h = omega (arith, h)

  pub counter-increment :
      (o : Option ℕ) (objects : ℕ → ConsistencyObject R) (n : ℕ)
      → counter objects ≡ n % 2 ^ 16
      → counter (at_object increment_local_reference_counter o objects) ≡ (n + to a o) % 2 ^ 16
  unfolding at_object
  counter-increment none objects n h = h ∙ ap (λ k. k % 2 ^ 16) (omega arith)
  counter-increment (some b) objects n h = incremented (b == a) (objects a) n h

  pub counter-decrement :
      (o : Option ℕ) (objects : ℕ → ConsistencyObject R) (n : ℕ)
      → counter objects ≡ (n + to a o) % 2 ^ 16
      → counter (at_object decrement_local_reference_counter o objects) ≡ n % 2 ^ 16
  unfolding at_object
  counter-decrement none objects n h = h ∙ ap (λ k. k % 2 ^ 16) (omega arith)
  counter-decrement (some b) objects n h = decremented (b == a) (objects a) n h
