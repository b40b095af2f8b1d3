-- ===== src/Registry/State.antt =====
-- The maps of `ResourceManager` (libcor/src/cor/services/resource_manager.cpp,
-- libcor/include/cor/services/resource_manager.hpp), and the operations that look into them. A
-- method that waits is cut at its wait; a piece runs under `_mtx`.
use pla_co_r.Base.{
  ℕ, ◌+◌, ◌-◌, ◌%◌, ◌^◌, Bool, true, false, Option, none, some, List, [], ◌∷◌, ◌++◌, length,
  if◌then◌else◌, Dict, lookup, put, put_new, remove,
}
use pla_co_r.Text.Bytes.{Bytes}
use pla_co_r.Page.Manager.{meta_domain}
use pla_co_r.Consistency.Object.{ConsistencyObject}
use pla_co_r.Consistency.Requests.{acquire_replica, get_resource}
use pla_co_r.Organizer.Members.{Act, Error}
use pla_co_r.Organizer.Dynamic.{DynamicOrganizer}
use pla_co_r.Organizer.Static.{StaticOrganizer}

-- A resource, by what the dynamic casts tell of it.
pub data Resource : Type 0 where
  with_dynamic_organizer : DynamicOrganizer → Resource
  with_static_organizer : StaticOrganizer → Resource
  without_organizer : (has_mailbox : Bool) → Resource

-- An entry of `_sr_vars`: the replies, the pods, and the name of the owner.
pub record SearchVars : Type 0 where
  pub replies : ℕ
  pub total_pods : ℕ
  pub owner : Bytes

-- The condition variables that are made before they are used are kept by their keys.
pub record Registry : Type 0 where
  pub is_main_mgr : Bool
  pub cst_objs : Dict (ConsistencyObject Resource)
  pub predecessors : Dict ℕ
  pub alias : Dict ℕ
  pub cache_preds : Dict ℕ
  pub sync_gfind : Dict Unit
  pub sync_replicas : Dict Unit
  pub sr_vars : Dict SearchVars

unfoldable pub resource_manager : Bool → Registry
resource_manager first = record {
  is_main_mgr = first;
  cst_objs = [];
  predecessors = [];
  alias = [];
  cache_preds = [];
  sync_gfind = [];
  sync_replicas = [];
  sr_vars = [];
}

-- The condition variables.
pub data Signal : Type 0 where
  gfind pred replicas free search : (idp : ℕ) → Signal

-- The exceptions: the ones that the code throws, and `std::out_of_range` of `at`.
pub data Fault : Type 0 where
  not_local : (idp : ℕ) → Fault
  no_organizer : (ctx : ℕ) → Fault
  join_failed : Error → Fault
  no_entry : Fault
  nowhere : (idp : ℕ) → Fault

-- Calls of the organizer of a resource, the controller, the mailer, and notifications.
pub data Effect : Type 0 where
  organizer_acts : (ctx : ℕ) → List Act → Effect
  join_resource_group create_mailbox : (idp : ℕ) → Effect
  send_resource_allocation_info send_find_resource_request : (idp : ℕ) → Effect
  send_find_resource_reply : (idp : ℕ) → (ctrl : Bytes) → Effect
  send_find_predecessor_request : (idp : ℕ) → Effect
  send_find_predecessor_reply : (idp pred : ℕ) → (ctrl : Bytes) → Effect
  send_search_resource_request : (idp : ℕ) → Effect
  send_search_resource_reply : (idp : ℕ) → (info ctrl : Bytes) → Effect
  notify_all : Signal → Effect

-- How a piece ends. A thread that waits goes on with the piece that follows it in the source.
pub data Outcome (A : Type 0) : Type 0 where
  ended : A → Outcome A
  raised : Fault → Outcome A
  waiting : Signal → Outcome A

pub record Piece (A : Type 0) : Type 0 where
  pub effects : List Effect
  pub registry : Registry
  pub outcome : Outcome A

unfoldable pub piece : {A : Type 0} → List Effect → Registry → Outcome A → Piece A
piece es r o = record { effects = es; registry = r; outcome = o }

abbrev pub default : {A : Type 0} → A → Option A → A
default a none = a
default a (some b) = b

unfoldable pub resolve_idp : Registry → ℕ → ℕ
resolve_idp r idp = default idp (lookup r.alias idp)

-- `none` is the exception `does not exist locally`.
unfoldable pub get_consistency_object : Registry → ℕ → Option (ConsistencyObject Resource)
unfolding resolve_idp
get_consistency_object r idp = lookup r.cst_objs (resolve_idp r idp)

unfoldable pub contains_resource : Registry → ℕ → Bool
contains_resource r idp = elim (lookup r.predecessors idp) [ none ↦ false | some ctx ↦ true ]

-- `_predecessors.find`, then `_cache_preds.find`, then the request and the wait.
unfoldable pub known_predecessor : ℕ → Registry → Option ℕ → Option ℕ → Piece ℕ
unfolding piece
known_predecessor idp r (some p) cached = piece [] r (ended p)
known_predecessor idp r none (some p) = piece [] r (ended p)
known_predecessor idp r none none =
    piece (send_find_predecessor_request idp ∷ []) r (waiting (pred idp))

unfoldable pub get_predecessor_idp : ℕ → Registry → Piece ℕ
unfolding known_predecessor
get_predecessor_idp idp r =
    known_predecessor idp r (lookup r.predecessors idp) (lookup r.cache_preds idp)

-- Behind its wait: `_cache_preds[idp]`, which makes an entry of 0 where there is none.
unfoldable pub woken_predecessor : ℕ → Registry → Piece ℕ
unfolding piece
woken_predecessor idp r =
    piece [] (record r { cache_preds = put_new r.cache_preds idp 0 })
      (ended (default 0 (lookup r.cache_preds idp)))

unfoldable pub handle_find_global_resource : ℕ → Bytes → Registry → Piece Unit
unfolding piece contains_resource
handle_find_global_resource idp ctrl r =
    piece (if contains_resource r idp then send_find_resource_reply idp ctrl ∷ [] else []) r
      (ended tt)

unfoldable pub global_resource_found : ℕ → Registry → Piece Unit
unfolding piece
global_resource_found idp r =
    piece (elim (lookup r.sync_gfind idp) [ none ↦ [] | some u ↦ notify_all (gfind idp) ∷ [] ]) r
      (ended tt)

unfoldable pub handle_find_predecessor : ℕ → Bytes → Registry → Piece Unit
unfolding piece
handle_find_predecessor idp ctrl r =
    piece
      (elim (lookup r.predecessors idp) [
        | none ↦ []
        | some p ↦ send_find_predecessor_reply idp p ctrl ∷ []
      ])
      r (ended tt)

unfoldable pub predecessor_found : ℕ → ℕ → Registry → Piece Unit
unfolding piece
predecessor_found idp p r =
    piece (notify_all (pred idp) ∷ []) (record r { cache_preds = put_new r.cache_preds idp p })
      (ended tt)

-- Does a resource get a mailbox?
unfoldable pub gets_mailbox : Resource → Bool
gets_mailbox (with_dynamic_organizer o) = false
gets_mailbox (with_static_organizer o) = true
gets_mailbox (without_organizer b) = b

unfoldable pub mailbox_effect : ℕ → Resource → List Effect
unfolding gets_mailbox
mailbox_effect idp rsc = if gets_mailbox rsc then create_mailbox idp ∷ [] else []

-- `_cst_objs.at(idp)->AcquireReplica(rsc)`, and `_sync_replicas[idp]`.
unfoldable pub insert_replica :
    ℕ → Resource → Registry → Option (ConsistencyObject Resource) → Piece Unit
unfolding piece mailbox_effect
insert_replica idp rsc r none = piece (mailbox_effect idp rsc) r (raised no_entry)
insert_replica idp rsc r (some o) =
    piece (mailbox_effect idp rsc ++ notify_all (replicas idp) ∷ [])
      (record r {
        cst_objs = put r.cst_objs idp (acquire_replica rsc o);
        sync_replicas = put_new r.sync_replicas idp tt;
      })
      (ended tt)

unfoldable pub insert_resource_replica : ℕ → Resource → Registry → Piece Unit
unfolding insert_replica
insert_resource_replica idp rsc r = insert_replica idp rsc r (lookup r.cst_objs idp)

unfoldable pub erase_object : ℕ → Registry → Option (ConsistencyObject Resource) → Piece Unit
unfolding piece
erase_object idp r none = piece [] r (raised no_entry)
erase_object idp r (some o) =
    piece (notify_all (free idp) ∷ []) (record r { cst_objs = remove r.cst_objs idp }) (ended tt)

unfoldable pub erase_resource : ℕ → Registry → Piece Unit
unfolding erase_object
erase_resource idp r = erase_object idp r (lookup r.cst_objs idp)

-- `GetResource(MetaDomain)` as a dynamic organizer, whose members are counted less one. `none` is
-- the exception, or a null pointer where the program's behaviour is undefined.
abbrev pub organizer_of : Option Resource → Option DynamicOrganizer
organizer_of (some (with_dynamic_organizer o)) = some o
organizer_of (some (with_static_organizer o)) = none
organizer_of (some (without_organizer b)) = none
organizer_of none = none

unfoldable pub resource_of : Option (ConsistencyObject Resource) → Option Resource
unfolding get_resource
resource_of none = none
resource_of (some o) = get_resource o

unfoldable pub get_total_domains : Registry → Option ℕ
unfolding get_consistency_object resource_of
get_total_domains r = elim (organizer_of (resource_of (get_consistency_object r meta_domain))) [
  | none ↦ none
  | some o ↦ some ((length o.members.table + 2 ^ 32 - 1) % 2 ^ 32)
]
