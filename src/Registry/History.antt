-- ===== src/Registry/History.antt =====
-- What the operations of a resource manager make of its entries, over any sequence of them, and
-- where `GetDomainIdp` (libcor/src/cor/services/resource_manager.cpp) ends in what they leave.
use Prim.Native.String.{String}
use pla_co_r.Base.{
  ℕ, suc, ◌<◌, ◌≡◌, ◌≢◌, refl, sym, subst, Bool, Option, none, some, List, ◌==◌, Bool-cases, inl,
  inr, arith, Dict, lookup, put_new, remove,
}
use pla_co_r.Text.Bytes.{Bytes}
use pla_co_r.Page.Manager.{meta_domain}
use pla_co_r.Consistency.Object.{ConsistencyObject}
use pla_co_r.Consistency.Requests.{
  increment_local_reference_counter, decrement_local_reference_counter,
}
use pla_co_r.Organizer.Members.{Act}
use pla_co_r.Registry.State.{
  Resource, with_dynamic_organizer, with_static_organizer, without_organizer, Registry,
  resource_manager, Outcome, ended, raised, waiting, Piece, piece, woken_predecessor,
  predecessor_found, insert_resource_replica, insert_replica, erase_resource, erase_object,
}
use pla_co_r.Registry.Allocate.{
  Attached, with_resource, after_join, join_context, attach, attach_reference, allocated,
  allocate_resource, create_meta_domain, create_replica, request_replica, resource_found,
  referenced, create_reference, count_meta_domain, initial_context_created, clean_initial_context,
}
use pla_co_r.Registry.Deallocate.{
  deallocate, deallocate_resource, forget, leave_context, deallocated,
}
use pla_co_r.Registry.Search.{search_resource, search_turn, handle_search_resource_info, with_vars}
use pla_co_r.Registry.Domain.{
  end_missing, Fresh, AllEnd, Found, Ends-mono, Ends-Found, put_new-AllEnd, put_meta-AllEnd,
  remove-Ends, get_domain_idp,
}

-- The pieces of the methods, in whatever order the threads of a pod run them.
pub data Op : Type 0 where
  creates_meta_domain : (ctrl : String) → Op
  counts_meta_domain cleans_meta_domain : Op
  allocates : (idp ctx : ℕ) → (name : Bytes) → Resource → (ctrl : String) → Op
  asks_for_replica : (idp : ℕ) → Op
  requests_replica : (idp : ℕ) → (ctrl : String) → Op
  refers : (new idp ctx : ℕ) → (name : Bytes) → Op
  inserts_replica : (idp : ℕ) → Resource → Op
  erases deallocates forgets leaves wakes : (idp : ℕ) → Op
  learns_predecessor : (idp pred : ℕ) → Op
  searches : (idp total_pods : ℕ) → Op
  wakes_in_search : (idp : ℕ) → Op
  hears : (idp : ℕ) → (info : Bytes) → Op

unfoldable pub apply : Op → Registry → Registry
apply (creates_meta_domain ctrl) r = (create_meta_domain ctrl r).registry
apply counts_meta_domain r = (initial_context_created r).registry
apply cleans_meta_domain r = (clean_initial_context r).registry
apply (allocates idp ctx name rsc ctrl) r = (allocate_resource idp ctx name rsc ctrl r).registry
apply (asks_for_replica idp) r = (create_replica idp r).registry
apply (requests_replica idp ctrl) r = (resource_found idp ctrl r).registry
apply (refers new idp ctx name) r = (create_reference new idp ctx name r).registry
apply (inserts_replica idp rsc) r = (insert_resource_replica idp rsc r).registry
apply (erases idp) r = (erase_resource idp r).registry
apply (deallocates idp) r = (deallocate_resource idp r).registry
apply (forgets idp) r = (forget idp r).registry
apply (leaves idp) r = (deallocated idp r).registry
apply (wakes idp) r = (woken_predecessor idp r).registry
apply (learns_predecessor idp p) r = (predecessor_found idp p r).registry
apply (searches idp n) r = (search_resource idp n r).registry
apply (wakes_in_search idp) r = (search_turn idp r).registry
apply (hears idp info) r = (handle_search_resource_info idp info r).registry

-- A resource or a reference gets an identifier that the entries do not have.
abbrev pub Allowed : Op → Dict ℕ → Type 0
Allowed (allocates idp ctx name rsc ctrl) p = Fresh p idp × (idp ≢ ctx)
Allowed (refers new idp ctx name) p = Fresh p new × (new ≢ ctx)
Allowed _ p = Unit

-- The registries that operations lead to, and how many it took.
pub data Reached : ℕ → Registry → Type 0 where
  at_start : (first : Bool) → Reached 0 (resource_manager first)
  next :
      {n : ℕ}
      → {r : Registry} → (op : Op) → Allowed op r.predecessors
      → Reached n r
      → Reached (suc n) (apply op r)

abbrev entries : Piece Unit → Dict ℕ
entries p = p.registry.predecessors

module _ (P : Dict ℕ → Type 0) (next_piece : Registry → Piece Unit) (r : Registry)
    (h : P r.predecessors)
    (k : (r2 : Registry)
      → r2.predecessors ≡ r.predecessors
      → P (next_piece r2).registry.predecessors) where
  attached-P :
      (ctx : ℕ) (o : ConsistencyObject Resource) (acts : List Act) (rsc : Resource)
      (out : Outcome Unit)
      → P (
          entries
            (after_join ctx o (record { acts = acts; resource = rsc; outcome = out }) next_piece r))
  unfolding after_join with_resource piece
  attached-P ctx o acts rsc (ended u) = k (with_resource ctx o rsc r) refl
  attached-P ctx o acts rsc (raised f) = h
  attached-P ctx o acts rsc (waiting s) = h

  join_context-P :
      (ctx : ℕ) (att : Resource → Attached) (o : Option (ConsistencyObject Resource))
      (rsc : Option Resource)
      → P (join_context ctx att next_piece r o rsc).registry.predecessors
  unfolding join_context piece
  join_context-P ctx att none rsc = h
  join_context-P ctx att (some o) none = h
  join_context-P ctx att (some o) (some rsc) =
      attached-P ctx o (att rsc).acts (att rsc).resource (att rsc).outcome

later : (p : Dict ℕ) (n : ℕ) → AllEnd p n → AllEnd p (suc n)
later p n h i = Ends-mono p (suc n) (suc (suc n)) i (omega arith) (h i)

remove-AllEnd : (p : Dict ℕ) (k n : ℕ) → AllEnd p n → AllEnd (remove p k) n
remove-AllEnd p k n h i = remove-Ends p k (suc n) i (h i)

-- The pieces that branch on what they find: the entries are kept, or one of them is removed.
module _ (P : Dict ℕ → Type 0) (r : Registry) (h : P r.predecessors) where
  insert_replica-P :
      (idp : ℕ) (rsc : Resource) (o : Option (ConsistencyObject Resource))
      → P (insert_replica idp rsc r o).registry.predecessors
  unfolding insert_replica piece
  insert_replica-P idp rsc none = h
  insert_replica-P idp rsc (some o) = h

  erase_object-P :
      (idp : ℕ) (o : Option (ConsistencyObject Resource))
      → P (erase_object idp r o).registry.predecessors
  unfolding erase_object piece
  erase_object-P idp none = h
  erase_object-P idp (some o) = h

  request_replica-P :
      (idp : ℕ) (ctrl : String) (u : Option (Unit {0}))
      → P (request_replica idp ctrl r u).registry.predecessors
  unfolding request_replica piece
  request_replica-P idp ctrl none = h
  request_replica-P idp ctrl (some u) = h

  count_meta_domain-P :
      (f : ConsistencyObject Resource → ConsistencyObject Resource)
      (o : Option (ConsistencyObject Resource))
      → P (count_meta_domain f r o).registry.predecessors
  unfolding count_meta_domain piece
  count_meta_domain-P f none = h
  count_meta_domain-P f (some o) = h

  deallocate-P :
      (idp : ℕ) (o : Option (ConsistencyObject Resource))
      → P (remove r.predecessors idp)
      → P (deallocate idp r o).registry.predecessors
  unfolding deallocate piece
  deallocate-P idp none k = h
  deallocate-P idp (some o) k = elim (Bool-cases (idp == meta_domain)) [
    | inl e ↦ rw e k
    | inr e ↦ rw e h
  ]

  leave_context-P :
      (idp : ℕ) (ctx : Option ℕ) (o : Option (ConsistencyObject Resource)) (rsc : Option Resource)
      → P (leave_context idp r ctx o rsc).registry.predecessors
  unfolding leave_context piece
  leave_context-P idp none o rsc = h
  leave_context-P idp (some ctx) none rsc = h
  leave_context-P idp (some ctx) (some o) none = h
  leave_context-P idp (some ctx) (some o) (some (with_dynamic_organizer d)) = h
  leave_context-P idp (some ctx) (some o) (some (with_static_organizer s)) = h
  leave_context-P idp (some ctx) (some o) (some (without_organizer b)) = h

  deallocated-P : (idp : ℕ) → P (deallocated idp r).registry.predecessors
  unfolding deallocated piece
  deallocated-P idp = elim (Bool-cases (idp == meta_domain)) [
    | inl e ↦ rw e h
    | inr e ↦ rw e (leave_context-P idp _ _ _)
  ]

abbrev Later : ℕ → Dict ℕ → Type 0
Later n p = AllEnd p (suc n)

placed :
    (k c n : ℕ) (p q : Dict ℕ)
    → q ≡ p
    → Fresh p k
    → k ≢ c
    → AllEnd p n
    → AllEnd (put_new q k c) (suc n)
placed k c n p q e f d h =
    subst (λ x. AllEnd (put_new x k c) (suc n)) (sym e) (put_new-AllEnd p k c n f d h)

-- One piece more takes one round more.
step-AllEnd :
    (n : ℕ) (op : Op) (r : Registry)
    → Allowed op r.predecessors
    → AllEnd r.predecessors n
    → AllEnd (apply op r).predecessors (suc n)
unfolding apply create_meta_domain initial_context_created clean_initial_context allocate_resource
    allocated create_reference referenced create_replica resource_found insert_resource_replica
    erase_resource deallocate_resource forget woken_predecessor predecessor_found search_resource
    search_turn handle_search_resource_info with_vars piece
step-AllEnd n (creates_meta_domain ctrl) r a h = later _ n (put_meta-AllEnd r.predecessors n h)
step-AllEnd n counts_meta_domain r a h =
    count_meta_domain-P (Later n) r (later _ n h) increment_local_reference_counter _
step-AllEnd n cleans_meta_domain r a h =
    count_meta_domain-P (Later n) r (later _ n h) decrement_local_reference_counter _
step-AllEnd n (allocates idp ctx name rsc ctrl) r a h =
    join_context-P (Later n) (allocated idp ctx rsc ctrl) r (later _ n h)
      (λ r2 e. placed idp ctx n r.predecessors r2.predecessors e a.0 a.1 h) ctx
      (attach ctx idp name) _ _
step-AllEnd n (asks_for_replica idp) r a h = later _ n h
step-AllEnd n (requests_replica idp ctrl) r a h =
    request_replica-P (Later n) r (later _ n h) idp ctrl _
step-AllEnd n (refers new idp ctx name) r a h =
    join_context-P (Later n) (referenced new idp ctx) r (later _ n h)
      (λ r2 e. placed new ctx n r.predecessors r2.predecessors e a.0 a.1 h) ctx
      (attach_reference ctx new name) _ _
step-AllEnd n (inserts_replica idp rsc) r a h = insert_replica-P (Later n) r (later _ n h) idp rsc _
step-AllEnd n (erases idp) r a h = erase_object-P (Later n) r (later _ n h) idp _
step-AllEnd n (deallocates idp) r a h =
    deallocate-P (Later n) r (later _ n h) idp _ (later _ n (remove-AllEnd _ idp n h))
step-AllEnd n (forgets idp) r a h = later _ n (remove-AllEnd _ idp n h)
step-AllEnd n (leaves idp) r a h = deallocated-P (Later n) r (later _ n h) idp
step-AllEnd n (wakes idp) r a h = later _ n h
step-AllEnd n (learns_predecessor idp p) r a h = later _ n h
step-AllEnd n (searches idp m) r a h = later _ n h
step-AllEnd n (wakes_in_search idp) r a h = later _ n h
step-AllEnd n (hears idp info) r a h = later _ n h

Reached-AllEnd : (n : ℕ) (r : Registry) → Reached n r → AllEnd r.predecessors n
unfolding resource_manager lookup
Reached-AllEnd n r (at_start first) = λ i. end_missing refl
Reached-AllEnd (suc n) r (next {r = s} op a h) = step-AllEnd n op s a (Reached-AllEnd n s h)

-- In a registry that any sequence of `n` operations leads to, in which new resources and references
-- get identifiers that are not among the entries, the loop of `GetDomainIdp` ends within `n + 1`
-- rounds: it throws as an entry is missing, or returns the resource above the given one, or itself,
-- that stands right below MetaDomain.
pub domain-Found :
    (n : ℕ) (r : Registry) (m idp : ℕ)
    → Reached n r
    → n < m
    → Found r.predecessors idp (get_domain_idp m r idp)
unfolding get_domain_idp
domain-Found n r m idp h l =
    Ends-Found r.predecessors m idp
      (Ends-mono r.predecessors (suc n) m idp (omega (arith, l)) (Reached-AllEnd n r h idp))
