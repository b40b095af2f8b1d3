-- ===== src/Pointer/Ptr.antt =====
-- libcor/include/cor/services/resource_ptr.hpp, libcor/include/cor/services/resource_ptr.tpp.
-- Consistency objects are told by their addresses, numbers. The copy assignment assigns to a
-- constant and cannot be compiled, so that no program has it.
use pla_co_r.Base.{ℕ, Option, none, some, List, [], ◌∷◌, ◌++◌, get_elem?, set, if◌then◌else◌, ◌==◌}
use pla_co_r.Consistency.Object.{ConsistencyObject}
use pla_co_r.Consistency.Requests.{
  increment_local_reference_counter, decrement_local_reference_counter, get_resource,
}

pub record ResourcePtr : Type 0 where
  pub idp : ℕ
  pub cst_obj : Option ℕ

-- The consistency objects, and the pointers in the order of their construction; `none` is a
-- pointer that is destroyed.
pub record Store (R : Type 0) : Type 0 where
  pub objects : ℕ → ConsistencyObject R
  pub pointers : List (Option ResourcePtr)

unfoldable pub null_ptr : ResourcePtr
null_ptr = record { idp = 0; cst_obj = none }

module _ {R : Type 0} where
  -- Before there are pointers.
  unfoldable pub unpointed : (ℕ → ConsistencyObject R) → Store R
  unpointed objects = record { objects = objects; pointers = [] }

  -- A call of the object, if there is one.
  unfoldable pub at_object :
      (ConsistencyObject R → ConsistencyObject R)
      → Option ℕ
      → (ℕ → ConsistencyObject R)
      → ℕ
      → ConsistencyObject R
  at_object f none objects k = objects k
  at_object f (some a) objects k = if a == k then f (objects k) else objects k

  unfoldable pub construct_default : Store R → Store R
  unfolding null_ptr
  construct_default s = record s { pointers = s.pointers ++ some null_ptr ∷ [] }

  unfoldable pub construct : ℕ → Option ℕ → Store R → Store R
  unfolding at_object
  construct idp cst_obj s = record {
    objects = at_object increment_local_reference_counter cst_obj s.objects;
    pointers = s.pointers ++ some (record { idp = idp; cst_obj = cst_obj }) ∷ [];
  }

  -- The copy and the move constructor, which leaves its source as it is.
  unfoldable pub construct_from : ResourcePtr → Store R → Store R
  unfolding construct
  construct_from other s = construct other.idp other.cst_obj s

  -- The move assignment of the pointer `j` to the pointer `i`, which are live.
  unfoldable pub assign : ℕ → ℕ → ResourcePtr → Store R → Store R
  unfolding null_ptr
  assign i j other s = record s { pointers = set (set s.pointers i (some other)) j (some null_ptr) }

  unfoldable pub destroy : ℕ → ResourcePtr → Store R → Store R
  unfolding at_object
  destroy i p s = record {
    objects = at_object decrement_local_reference_counter p.cst_obj s.objects;
    pointers = set s.pointers i none;
  }

  -- `operator->`; `none` is the exception `Access to an invalid resource!`, `some none` a null
  -- pointer.
  unfoldable pub access : ResourcePtr → Store R → Option (Option R)
  unfolding get_resource
  access p s = elim p.cst_obj [ none ↦ none | some a ↦ some (get_resource (s.objects a)) ]

pub data Op : Type 0 where
  constructs_default : Op
  constructs : (idp : ℕ) → (cst_obj : Option ℕ) → Op
  copies moves destroys : (i : ℕ) → Op
  move_assigns : (i j : ℕ) → Op

abbrev pub flatten : Option (Option ResourcePtr) → Option ResourcePtr
flatten none = none
flatten (some p) = p

-- The live pointer `i`.
abbrev pub pointer : List (Option ResourcePtr) → ℕ → Option ResourcePtr
pointer ps i = flatten (get_elem? ps i)

module _ {R : Type 0} where
  -- A pointer that is not there or is destroyed is not used.
  abbrev pub with_pointer :
      (ResourcePtr → Store R → Store R) → Store R → Option ResourcePtr → Store R
  with_pointer f s none = s
  with_pointer f s (some p) = f p s

  abbrev pub with_pointers :
      (ResourcePtr → Store R → Store R)
      → Store R
      → Option ResourcePtr
      → Option ResourcePtr
      → Store R
  with_pointers f s none q = s
  with_pointers f s (some p) none = s
  with_pointers f s (some p) (some q) = f q s

  unfoldable pub apply : Op → Store R → Store R
  unfolding construct_default construct construct_from assign destroy
  apply constructs_default s = construct_default s
  apply (constructs idp cst_obj) s = construct idp cst_obj s
  apply (copies i) s = with_pointer construct_from s (pointer s.pointers i)
  apply (moves i) s = with_pointer construct_from s (pointer s.pointers i)
  apply (destroys i) s = with_pointer (destroy i) s (pointer s.pointers i)
  apply (move_assigns i j) s =
      with_pointers (assign i j) s (pointer s.pointers i) (pointer s.pointers j)

  unfoldable pub run : List Op → Store R → Store R
  unfolding apply
  run [] s = s
  run (o ∷ os) s = run os (apply o s)
