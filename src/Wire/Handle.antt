-- ===== src/Wire/Handle.antt =====
-- The handlers of libcor/src/cor/services/controller.cpp: which call of a manager each message causes.
use mathlib.Core.Option
use pla_co_r.Base.{ℕ, Bool, Option, none, some, List, get_elem?, if◌then◌else◌, ◌>>=◌}
use pla_co_r.Text.Bytes.{Bytes, bytes_eq}
use pla_co_r.Names.Groups.{get_idp_from_resource_group, get_context_from_context_group}
use pla_co_r.Wire.Archive.{
  Archive, read_number, read_numbers, read_word, read_number_word, read_number_object,
}
use pla_co_r.Wire.Send.{
  MsgType, msg_type, page_request, page_reply, resource_allocation, find_resource_request,
  find_resource_reply, find_predecessor_request, find_predecessor_reply, create_replica,
  release_replica_request, update_request, update_reply, invalidate_request, token_update_request,
  token_update_reply, token_ack, create_collective_init, create_collective_idp, static_group_create,
  static_group_synchronize, static_group_cc_idp, search_resource_request, search_resource_reply,
  finalize_context, finalize,
}

-- What a handler starts: a method of `PageManager` or `ResourceManager`, most often in a thread of
-- its own, or a change of the controller's own fields.
pub data Call (R : Type 0) : Type 0 where
  nothing : Call R
  generate_page : (ctrl : Bytes) → Call R
  update_page : (page : ℕ) → Call R
  global_resource_found : (idp : ℕ) → Call R
  handle_find_global_resource : (idp : ℕ) → (ctrl : Bytes) → Call R
  handle_find_predecessor : (idp : ℕ) → (ctrl : Bytes) → Call R
  predecessor_found : (idp : ℕ) → (pred : ℕ) → Call R
  insert_resource_replica : (idp : ℕ) → (rsc : R) → Call R
  release_replica : (idp : ℕ) → (ctrl : Bytes) → Call R
  check_update : (idp : ℕ) → (ctrl : Bytes) → Call R
  update : (idp : ℕ) → (rsc : R) → Call R
  invalidate : (idp : ℕ) → Call R
  check_token_update : (idp : ℕ) → (ctrl : Bytes) → Call R
  acquire_token_update : (idp : ℕ) → (rsc : R) → (ctrl : Bytes) → Call R
  token_acknowledged : (idp : ℕ) → Call R
  init_create_collective : (context : Bytes) → (tid : Bytes) → (local : Bool) → Call R
  set_collective_idp : (context : Bytes) → (idp : ℕ) → Call R
  handle_create_static_group : (comm : ℕ) → Call R
  handle_synchronize_static_group : (comm : ℕ) → Call R
  static_group_idp : (comm : ℕ) → (idp : ℕ) → Call R
  handle_search_resource : (idp : ℕ) → (ctrl : Bytes) → Call R
  handle_search_resource_info : (idp : ℕ) → (info : Bytes) → Call R
  context_finalized : Call R
  finalized : Call R

-- `_smsg`, `_msg` and `_groups` after `receive`.
pub record Received : Type 0 where
  pub msg_kind : ℕ
  pub sender : Bytes
  pub msg : Bytes
  pub groups : List Bytes

-- `GetIdpFromResourceGroup(_groups[0])` and `GetContextFromContextGroup(_groups[0])`; `none` is an
-- exception, and here also a message to no group, which no sender makes.
unfoldable pub group_idp : Received → Option ℕ
group_idp r = elim (get_elem? r.groups 0) [
  | none ↦ none
  | some group ↦ get_idp_from_resource_group group
]

unfoldable pub group_context : Received → Option Bytes
group_context r = elim (get_elem? r.groups 0) [
  | none ↦ none
  | some group ↦ get_context_from_context_group group
]

-- The handlers. `none` is an exception of the archive or of the group's name.
module _ {R : Type 0} (a : Archive R) where
  unfoldable pub handle_page_request : Bool → Received → Option (Call R)
  handle_page_request is_main_ctrl r =
      some (if is_main_ctrl then generate_page r.sender else nothing)

  unfoldable pub handle_page_reply : Received → Option (Call R)
  handle_page_reply r = Option.map (λ v. update_page v) (read_number a r.msg)

  unfoldable pub handle_resource_allocation_info : Received → Option (Call R)
  handle_resource_allocation_info r =
      Option.map (λ v. global_resource_found v) (read_number a r.msg)

  unfoldable pub handle_find_resource_request : Received → Option (Call R)
  handle_find_resource_request r =
      Option.map (λ v. handle_find_global_resource v r.sender) (read_number a r.msg)

  unfoldable pub handle_find_resource_reply : Received → Option (Call R)
  handle_find_resource_reply r = Option.map (λ v. global_resource_found v) (read_number a r.msg)

  unfoldable pub handle_find_predecessor_request : Received → Option (Call R)
  handle_find_predecessor_request r =
      Option.map (λ v. handle_find_predecessor v r.sender) (read_number a r.msg)

  unfoldable pub handle_find_predecessor_reply : Received → Option (Call R)
  handle_find_predecessor_reply r =
      Option.map (λ v. predecessor_found v.0 v.1) (read_numbers a r.msg)

  unfoldable pub handle_create_replica : Received → Option (Call R)
  handle_create_replica r =
      Option.map (λ v. insert_resource_replica v.0 v.1) (read_number_object a r.msg)

  unfoldable pub handle_release_replica_request : Received → Option (Call R)
  unfolding group_idp
  handle_release_replica_request r = Option.map (λ v. release_replica v r.sender) (group_idp r)

  unfoldable pub handle_update_request : Received → Option (Call R)
  unfolding group_idp
  handle_update_request r = Option.map (λ v. check_update v r.sender) (group_idp r)

  unfoldable pub handle_update_reply : Received → Option (Call R)
  handle_update_reply r = Option.map (λ v. update v.0 v.1) (read_number_object a r.msg)

  unfoldable pub handle_invalidate_request : Received → Option (Call R)
  unfolding group_idp
  handle_invalidate_request r = Option.map (λ v. invalidate v) (group_idp r)

  unfoldable pub handle_token_update_request : Received → Option (Call R)
  unfolding group_idp
  handle_token_update_request r = Option.map (λ v. check_token_update v r.sender) (group_idp r)

  unfoldable pub handle_token_update_reply : Received → Option (Call R)
  handle_token_update_reply r =
      Option.map (λ v. acquire_token_update v.0 v.1 r.sender) (read_number_object a r.msg)

  unfoldable pub handle_token_ack : Received → Option (Call R)
  handle_token_ack r = Option.map (λ v. token_acknowledged v) (read_number a r.msg)

  -- Is the sender this controller?
  unfoldable pub handle_create_collective_init : Bytes → Received → Option (Call R)
  unfolding group_context
  handle_create_collective_init name r = do
    context ← group_context r
    tid ← read_word a r.msg
    some (init_create_collective context tid (bytes_eq r.sender name))

  unfoldable pub handle_create_collective_idp : Received → Option (Call R)
  unfolding group_context
  handle_create_collective_idp r = do
    context ← group_context r
    idp ← read_number a r.msg
    some (set_collective_idp context idp)

  unfoldable pub handle_static_group_create : Received → Option (Call R)
  handle_static_group_create r =
      Option.map (λ v. handle_create_static_group v) (read_number a r.msg)

  unfoldable pub handle_static_group_synchronize : Received → Option (Call R)
  handle_static_group_synchronize r =
      Option.map (λ v. handle_synchronize_static_group v) (read_number a r.msg)

  unfoldable pub handle_static_group_cc_idp : Received → Option (Call R)
  handle_static_group_cc_idp r = Option.map (λ v. static_group_idp v.0 v.1) (read_numbers a r.msg)

  unfoldable pub handle_search_resource_request : Received → Option (Call R)
  handle_search_resource_request r =
      Option.map (λ v. handle_search_resource v r.sender) (read_number a r.msg)

  unfoldable pub handle_search_resource_reply : Received → Option (Call R)
  handle_search_resource_reply r =
      Option.map (λ v. handle_search_resource_info v.0 v.1) (read_number_word a r.msg)

  unfoldable pub handle_finalize_context : Received → Option (Call R)
  handle_finalize_context r = some context_finalized

  unfoldable pub handle_finalize : Received → Option (Call R)
  handle_finalize r = some finalized

  unfoldable pub handle_kind : Bool → Bytes → MsgType → Received → Option (Call R)
  unfolding handle_page_request handle_page_reply handle_resource_allocation_info
      handle_find_resource_request handle_find_resource_reply handle_find_predecessor_request
      handle_find_predecessor_reply handle_create_replica handle_release_replica_request
      handle_update_request handle_update_reply handle_invalidate_request
      handle_token_update_request handle_token_update_reply handle_token_ack
      handle_create_collective_init handle_create_collective_idp handle_static_group_create
      handle_static_group_synchronize handle_static_group_cc_idp handle_search_resource_request
      handle_search_resource_reply handle_finalize_context handle_finalize
  handle_kind is_main_ctrl name page_request r = handle_page_request is_main_ctrl r
  handle_kind is_main_ctrl name page_reply r = handle_page_reply r
  handle_kind is_main_ctrl name resource_allocation r = handle_resource_allocation_info r
  handle_kind is_main_ctrl name find_resource_request r = handle_find_resource_request r
  handle_kind is_main_ctrl name find_resource_reply r = handle_find_resource_reply r
  handle_kind is_main_ctrl name find_predecessor_request r = handle_find_predecessor_request r
  handle_kind is_main_ctrl name find_predecessor_reply r = handle_find_predecessor_reply r
  handle_kind is_main_ctrl name create_replica r = handle_create_replica r
  handle_kind is_main_ctrl name release_replica_request r = handle_release_replica_request r
  handle_kind is_main_ctrl name update_request r = handle_update_request r
  handle_kind is_main_ctrl name update_reply r = handle_update_reply r
  handle_kind is_main_ctrl name invalidate_request r = handle_invalidate_request r
  handle_kind is_main_ctrl name token_update_request r = handle_token_update_request r
  handle_kind is_main_ctrl name token_update_reply r = handle_token_update_reply r
  handle_kind is_main_ctrl name token_ack r = handle_token_ack r
  handle_kind is_main_ctrl name create_collective_init r = handle_create_collective_init name r
  handle_kind is_main_ctrl name create_collective_idp r = handle_create_collective_idp r
  handle_kind is_main_ctrl name static_group_create r = handle_static_group_create r
  handle_kind is_main_ctrl name static_group_synchronize r = handle_static_group_synchronize r
  handle_kind is_main_ctrl name static_group_cc_idp r = handle_static_group_cc_idp r
  handle_kind is_main_ctrl name search_resource_request r = handle_search_resource_request r
  handle_kind is_main_ctrl name search_resource_reply r = handle_search_resource_reply r
  handle_kind is_main_ctrl name finalize_context r = handle_finalize_context r
  handle_kind is_main_ctrl name finalize r = handle_finalize r

  -- The switch; a number of no case is ignored.
  unfoldable pub handle_regular_message : Bool → Bytes → Received → Option (Call R)
  unfolding handle_kind
  handle_regular_message is_main_ctrl name r = elim (msg_type r.msg_kind) [
    | none ↦ some nothing
    | some t ↦ handle_kind is_main_ctrl name t r
  ]
