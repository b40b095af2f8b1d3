-- ===== src/Registry/Allocate.antt =====
-- How resources come and go (libcor/src/cor/services/resource_manager.cpp,
-- libcor/include/cor/services/resource_manager.tpp). The identifiers that `GenerateIdp` gives are
-- arguments.
use Prim.Native.String.{String}
use pla_co_r.Base.{
  ℕ, true, false, Option, none, some, List, [], ◌∷◌, if◌then◌else◌, lookup, put, put_new,
}
use pla_co_r.Text.Bytes.{Bytes, codes}
use pla_co_r.Page.Manager.{meta_domain}
use pla_co_r.Consistency.Object.{ConsistencyObject, consistency_object}
use pla_co_r.Consistency.Requests.{
  set_resource, increment_local_reference_counter, decrement_local_reference_counter,
}
use pla_co_r.Organizer.Members.{Act, Done, Result, returned, threw, no_members}
use pla_co_r.Organizer.Dynamic
use pla_co_r.Organizer.Dynamic.{DynamicOrganizer}
use pla_co_r.Organizer.Static
use pla_co_r.Organizer.Static.{StaticOrganizer}
use pla_co_r.Registry.State.{
  Resource, with_dynamic_organizer, with_static_organizer, without_organizer, Registry, gfind,
  replicas, not_local, no_organizer, join_failed, organizer_acts, join_resource_group,
  send_resource_allocation_info, send_find_resource_request, Outcome, ended, raised, waiting, Piece,
  piece, resolve_idp, get_consistency_object, mailbox_effect, resource_of,
}

-- `DynamicOrganizer::Join` and `StaticOrganizer::Join` of the resource of a context: the acts, the
-- resource behind the call, and how it ended.
pub record Attached : Type 0 where
  pub acts : List Act
  pub resource : Resource
  pub outcome : Outcome Unit

unfoldable pub as_outcome : Result Unit → Outcome Unit
as_outcome (returned u) = ended u
as_outcome (threw e) = raised (join_failed e)

unfoldable pub attached : {O : Type 0} → (O → Resource) → Done O Unit → Attached
unfolding as_outcome
attached f d = record { acts = d.acts; resource = f d.state; outcome = as_outcome d.result }

-- In `AllocateResource`, both kinds of organizers. A call that stays in the wait of a static group
-- never gets behind this.
unfoldable pub attach : ℕ → ℕ → Bytes → Resource → Attached
unfolding attached
attach ctx idp name (with_dynamic_organizer o) =
    attached with_dynamic_organizer (Dynamic.join o idp name)
attach ctx idp name (with_static_organizer o) =
    attached with_static_organizer (Static.join o idp name)
attach ctx idp name (without_organizer b) = record {
  acts = [];
  resource = without_organizer b;
  outcome = raised (no_organizer ctx);
}

-- In `CreateReference`, dynamic ones alone.
unfoldable pub attach_reference : ℕ → ℕ → Bytes → Resource → Attached
unfolding attached
attach_reference ctx idp name (with_dynamic_organizer o) =
    attached with_dynamic_organizer (Dynamic.join o idp name)
attach_reference ctx idp name (with_static_organizer o) = record {
  acts = [];
  resource = with_static_organizer o;
  outcome = raised (no_organizer ctx);
}
attach_reference ctx idp name (without_organizer b) = record {
  acts = [];
  resource = without_organizer b;
  outcome = raised (no_organizer ctx);
}

-- The join changes the resource of the context, in place.
unfoldable pub with_resource : ℕ → ConsistencyObject Resource → Resource → Registry → Registry
unfolding resolve_idp
with_resource ctx o rsc r = record r {
  cst_objs = put r.cst_objs (resolve_idp r ctx) (record o { rsc = some rsc });
}

-- What follows the join, if it returned.
unfoldable pub after_join :
    ℕ → ConsistencyObject Resource → Attached → (Registry → Piece Unit) → Registry → Piece Unit
unfolding piece with_resource
after_join ctx o a next r =
    let r2 = with_resource ctx o a.resource r in
    let p = next r2 in
    elim a.outcome [
      | ended u ↦ record p { effects = organizer_acts ctx a.acts ∷ p.effects }
      | raised f ↦ piece (organizer_acts ctx a.acts ∷ []) r2 (raised f)
      | waiting s ↦ piece (organizer_acts ctx a.acts ∷ []) r2 (waiting s)
    ]

-- The context's consistency object, its resource, and the join. A null pointer has no organizer.
unfoldable pub join_context :
    ℕ
    → (Resource → Attached)
    → (Registry → Piece Unit)
    → Registry
    → Option (ConsistencyObject Resource)
    → Option Resource
    → Piece Unit
unfolding piece after_join
join_context ctx att next r none rsc = piece [] r (raised (not_local ctx))
join_context ctx att next r (some o) none = piece [] r (raised (no_organizer ctx))
join_context ctx att next r (some o) (some rsc) = after_join ctx o (att rsc) next r

unfoldable pub allocated : ℕ → ℕ → Resource → String → Registry → Piece Unit
unfolding piece mailbox_effect
allocated idp ctx rsc ctrl r =
    piece (join_resource_group idp ∷ mailbox_effect idp rsc)
      (record r {
        cst_objs = put_new r.cst_objs idp (set_resource rsc (consistency_object idp true ctrl));
        predecessors = put_new r.predecessors idp ctx;
      })
      (ended tt)

unfoldable pub allocate_resource : ℕ → ℕ → Bytes → Resource → String → Registry → Piece Unit
unfolding join_context resource_of
allocate_resource idp ctx name rsc ctrl r =
    let o = get_consistency_object r ctx in
    join_context ctx (attach ctx idp name) (allocated idp ctx rsc ctrl) r o (resource_of o)

-- `new Domain(MetaDomain, "")`, with its join of itself.
unfoldable pub meta_domain_joined : Done DynamicOrganizer Unit
meta_domain_joined =
    Dynamic.join (record { idp = meta_domain; module_name = []; members = no_members }) meta_domain
      (codes "MetaDomain")

unfoldable pub create_meta_domain : String → Registry → Piece Unit
unfolding piece meta_domain_joined
create_meta_domain ctrl r =
    piece
      (join_resource_group meta_domain
        ∷ organizer_acts meta_domain meta_domain_joined.acts
        ∷ send_resource_allocation_info meta_domain
        ∷ [])
      (record r {
        cst_objs = put_new r.cst_objs meta_domain (
            set_resource (with_dynamic_organizer meta_domain_joined.state)
              (consistency_object meta_domain true ctrl));
        predecessors = put_new r.predecessors meta_domain meta_domain;
      })
      (ended tt)

-- `CreateReplica` up to its wait for the resource to be found.
unfoldable pub create_replica : ℕ → Registry → Piece Unit
unfolding piece
create_replica idp r =
    piece (send_find_resource_request idp ∷ [])
      (record r { sync_gfind = put_new r.sync_gfind idp tt }) (waiting (gfind idp))

-- Behind it, up to the wait for the replica; the first thread asks for it.
unfoldable pub request_replica : ℕ → String → Registry → Option (Unit {0}) → Piece Unit
unfolding piece
request_replica idp ctrl r (some u) = piece [] r (waiting (replicas idp))
request_replica idp ctrl r none =
    piece (join_resource_group idp ∷ [])
      (record r {
        sync_replicas = put_new r.sync_replicas idp tt;
        cst_objs = put_new r.cst_objs idp (consistency_object idp false ctrl);
      })
      (waiting (replicas idp))

unfoldable pub resource_found : ℕ → String → Registry → Piece Unit
unfolding request_replica
resource_found idp ctrl r = request_replica idp ctrl r (lookup r.sync_replicas idp)

unfoldable pub referenced : ℕ → ℕ → ℕ → Registry → Piece Unit
unfolding piece
referenced new idp ctx r =
    piece []
      (record r { predecessors = put_new r.predecessors new ctx; alias = put_new r.alias new idp })
      (ended tt)

-- `CreateReference` behind `CreateReplica`.
unfoldable pub create_reference : ℕ → ℕ → ℕ → Bytes → Registry → Piece Unit
unfolding join_context resource_of
create_reference new idp ctx name r =
    let o = get_consistency_object r ctx in
    join_context ctx (attach_reference ctx new name) (referenced new idp ctx) r o (resource_of o)

unfoldable pub create_initial_context : String → Registry → Piece Unit
unfolding create_meta_domain create_replica
create_initial_context ctrl r =
    if r.is_main_mgr then create_meta_domain ctrl r else create_replica meta_domain r

-- `IncrementLocalReferenceCounter` at the end of `CreateInitialContext`, and the decrement of
-- `CleanInitialContext`.
unfoldable pub count_meta_domain :
    (ConsistencyObject Resource → ConsistencyObject Resource)
    → Registry
    → Option (ConsistencyObject Resource)
    → Piece Unit
unfolding piece resolve_idp
count_meta_domain f r none = piece [] r (raised (not_local meta_domain))
count_meta_domain f r (some o) =
    piece [] (record r { cst_objs = put r.cst_objs (resolve_idp r meta_domain) (f o) }) (ended tt)

unfoldable pub initial_context_created : Registry → Piece Unit
unfolding count_meta_domain
initial_context_created r =
    count_meta_domain increment_local_reference_counter r (get_consistency_object r meta_domain)

unfoldable pub clean_initial_context : Registry → Piece Unit
unfolding count_meta_domain
clean_initial_context r =
    count_meta_domain decrement_local_reference_counter r (get_consistency_object r meta_domain)
