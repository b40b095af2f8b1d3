-- ===== src/Registry/Deallocate.antt =====
-- `DeallocateResource` (libcor/src/cor/services/resource_manager.cpp), cut at its waits.
use pla_co_r.Base.{
  ℕ, Bool, true, false, Option, none, some, List, [], ◌∷◌, if◌then◌else◌, ◌==◌, Dict, lookup, put,
  remove,
}
use pla_co_r.Page.Manager.{meta_domain}
use pla_co_r.Consistency.Object.{ConsistencyObject}
use pla_co_r.Organizer.Dynamic
use pla_co_r.Organizer.Dynamic.{DynamicOrganizer}
use pla_co_r.Registry.State.{
  Resource, with_dynamic_organizer, with_static_organizer, without_organizer, Registry, free,
  no_entry, organizer_acts, ended, raised, waiting, Piece, piece, resource_of,
}

-- `DeallocateResource`, in the order of its pieces: the resources of an organizer that goes,
unfoldable pub keys_of : ℕ → Dict ℕ → List ℕ
keys_of idp [] = []
keys_of idp (x ∷ xs) = let rest = keys_of idp xs in if x.1 == idp then x.0 ∷ rest else rest

abbrev pub is_dynamic : Option Resource → Bool
is_dynamic (some (with_dynamic_organizer o)) = true
is_dynamic (some (with_static_organizer o)) = false
is_dynamic (some (without_organizer b)) = false
is_dynamic none = false

unfoldable pub deallocate : ℕ → Registry → Option (ConsistencyObject Resource) → Piece (List ℕ)
unfolding piece keys_of
deallocate idp r none = piece [] r (raised no_entry)
deallocate idp r (some o) =
    let r2 =
      if idp == meta_domain then record r { predecessors = remove r.predecessors idp } else r in
    piece [] r2
      (ended (if is_dynamic (resource_of (some o)) then keys_of idp r2.predecessors else []))

unfoldable pub deallocate_resource : ℕ → Registry → Piece (List ℕ)
unfolding deallocate
deallocate_resource idp r = deallocate idp r (lookup r.cst_objs idp)

-- the wait for one of them that is still here,
unfoldable pub wait_for_free : ℕ → Registry → Piece Unit
unfolding piece
wait_for_free idp r =
    piece [] r (elim (lookup r.cst_objs idp) [ none ↦ ended tt | some o ↦ waiting (free idp) ])

-- its entry,
unfoldable pub forget : ℕ → Registry → Piece Unit
unfolding piece
forget idp r = piece [] (record r { predecessors = remove r.predecessors idp }) (ended tt)

-- and the leave of the context, `_cst_objs.at(_predecessors.at(idp))`.
unfoldable pub leave_context :
    ℕ → Registry → Option ℕ → Option (ConsistencyObject Resource) → Option Resource → Piece Unit
unfolding piece
leave_context idp r none o rsc = piece [] r (raised no_entry)
leave_context idp r (some ctx) none rsc = piece [] r (raised no_entry)
leave_context idp r (some ctx) (some o) none = piece [] r (ended tt)
leave_context idp r (some ctx) (some o) (some (with_dynamic_organizer d)) =
    let left = Dynamic.leave d idp in
    piece (organizer_acts ctx left.acts ∷ [])
      (record r {
        cst_objs = put r.cst_objs ctx (record o { rsc = some (with_dynamic_organizer left.state) });
      })
      (ended tt)
leave_context idp r (some ctx) (some o) (some (with_static_organizer s)) = piece [] r (ended tt)
leave_context idp r (some ctx) (some o) (some (without_organizer b)) = piece [] r (ended tt)

abbrev pub object_at : Registry → Option ℕ → Option (ConsistencyObject Resource)
object_at r none = none
object_at r (some ctx) = lookup r.cst_objs ctx

unfoldable pub deallocated : ℕ → Registry → Piece Unit
unfolding piece leave_context
deallocated idp r =
    let ctx = lookup r.predecessors idp in
    if idp == meta_domain
    then piece [] r (ended tt)
    else leave_context idp r ctx (object_at r ctx) (resource_of (object_at r ctx))
