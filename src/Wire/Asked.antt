-- ===== src/Wire/Asked.antt =====
-- The messages as one type, and what each asks of the controller that receives it.

use pla_co_r.Base.{ℕ, ◌^◌, ◌<◌, Bool, if◌then◌else◌}
use pla_co_r.Text.Bytes.{Bytes, bytes_eq}
use pla_co_r.Wire.Archive.{Archive}
use pla_co_r.Wire.Send.{
  Outgoing, request_page, reply_page, send_resource_allocation_info, send_find_resource_request,
  send_find_resource_reply, send_find_predecessor_request, send_find_predecessor_reply,
  send_replica, send_release_replica_request, send_update_request, send_update_reply,
  send_invalidate_request, send_token_update_request, send_token_update_reply, send_token_ack,
  send_create_collective_init, send_create_collective_idp, send_static_group_create,
  send_static_group_synchronize, send_static_group_cc_idp, send_search_resource_request,
  send_search_resource_reply, send_finalize_context, send_finalize,
}
use pla_co_r.Wire.Handle.{
  Call, Received, nothing, acquire_token_update, check_token_update, check_update,
  context_finalized, finalized, generate_page, global_resource_found, handle_create_static_group,
  handle_find_global_resource, handle_find_predecessor, handle_search_resource,
  handle_search_resource_info, handle_synchronize_static_group, init_create_collective,
  insert_resource_replica, invalidate, predecessor_found, release_replica, set_collective_idp,
  static_group_idp, token_acknowledged, update, update_page,
}

-- The senders as one type, with their arguments.
pub data Send (R : Type 0) : Type 0 where
  sent_request_page : Send R
  sent_reply_page : (page : ℕ) → (ctrl : Bytes) → Send R
  sent_resource_allocation_info : (idp : ℕ) → Send R
  sent_find_resource_request : (idp : ℕ) → Send R
  sent_find_resource_reply : (idp : ℕ) → (ctrl : Bytes) → Send R
  sent_find_predecessor_request : (idp : ℕ) → Send R
  sent_find_predecessor_reply : (idp : ℕ) → (pred : ℕ) → (ctrl : Bytes) → Send R
  sent_replica : (idp : ℕ) → (rsc : R) → (ctrl : Bytes) → Send R
  sent_release_replica_request : (idp : ℕ) → Send R
  sent_update_request : (idp : ℕ) → Send R
  sent_update_reply : (idp : ℕ) → (rsc : R) → (ctrl : Bytes) → Send R
  sent_invalidate_request : (idp : ℕ) → Send R
  sent_token_update_request : (idp : ℕ) → Send R
  sent_token_update_reply : (idp : ℕ) → (rsc : R) → (ctrl : Bytes) → Send R
  sent_token_ack : (idp : ℕ) → (ctrl : Bytes) → Send R
  sent_create_collective_init : (context : Bytes) → (tid : Bytes) → Send R
  sent_create_collective_idp : (context : Bytes) → (idp : ℕ) → Send R
  sent_static_group_create : (comm : ℕ) → Send R
  sent_static_group_synchronize : (comm : ℕ) → Send R
  sent_static_group_cc_idp : (comm : ℕ) → (idp : ℕ) → Send R
  sent_search_resource_request : (idp : ℕ) → Send R
  sent_search_resource_reply : (idp : ℕ) → (info : Bytes) → (ctrl : Bytes) → Send R
  sent_finalize_context : (context : Bytes) → Send R
  sent_finalize : Send R

-- The numbers in the message have 32 bits.
abbrev pub Ranged : {R : Type 0} → Send R → Type 0
Ranged sent_request_page = Unit
Ranged (sent_reply_page page ctrl) = page < 2 ^ 32
Ranged (sent_resource_allocation_info idp) = idp < 2 ^ 32
Ranged (sent_find_resource_request idp) = idp < 2 ^ 32
Ranged (sent_find_resource_reply idp ctrl) = idp < 2 ^ 32
Ranged (sent_find_predecessor_request idp) = idp < 2 ^ 32
Ranged (sent_find_predecessor_reply idp pred ctrl) = (idp < 2 ^ 32) × (pred < 2 ^ 32)
Ranged (sent_replica idp rsc ctrl) = idp < 2 ^ 32
Ranged (sent_release_replica_request idp) = idp < 2 ^ 32
Ranged (sent_update_request idp) = idp < 2 ^ 32
Ranged (sent_update_reply idp rsc ctrl) = idp < 2 ^ 32
Ranged (sent_invalidate_request idp) = idp < 2 ^ 32
Ranged (sent_token_update_request idp) = idp < 2 ^ 32
Ranged (sent_token_update_reply idp rsc ctrl) = idp < 2 ^ 32
Ranged (sent_token_ack idp ctrl) = idp < 2 ^ 32
Ranged (sent_create_collective_init context tid) = Unit
Ranged (sent_create_collective_idp context idp) = idp < 2 ^ 32
Ranged (sent_static_group_create comm) = comm < 2 ^ 32
Ranged (sent_static_group_synchronize comm) = comm < 2 ^ 32
Ranged (sent_static_group_cc_idp comm idp) = (comm < 2 ^ 32) × (idp < 2 ^ 32)
Ranged (sent_search_resource_request idp) = idp < 2 ^ 32
Ranged (sent_search_resource_reply idp info ctrl) = idp < 2 ^ 32
Ranged (sent_finalize_context context) = Unit
Ranged sent_finalize = Unit

-- The sender's method.
unfoldable pub send : {R : Type 0} → Archive R → Bytes → Send R → Outgoing
send a app sent_request_page = request_page a app
send a app (sent_reply_page page ctrl) = reply_page a app page ctrl
send a app (sent_resource_allocation_info idp) = send_resource_allocation_info a app idp
send a app (sent_find_resource_request idp) = send_find_resource_request a app idp
send a app (sent_find_resource_reply idp ctrl) = send_find_resource_reply a app idp ctrl
send a app (sent_find_predecessor_request idp) = send_find_predecessor_request a app idp
send a app (sent_find_predecessor_reply idp pred ctrl) =
    send_find_predecessor_reply a app idp pred ctrl
send a app (sent_replica idp rsc ctrl) = send_replica a app idp rsc ctrl
send a app (sent_release_replica_request idp) = send_release_replica_request a app idp
send a app (sent_update_request idp) = send_update_request a app idp
send a app (sent_update_reply idp rsc ctrl) = send_update_reply a app idp rsc ctrl
send a app (sent_invalidate_request idp) = send_invalidate_request a app idp
send a app (sent_token_update_request idp) = send_token_update_request a app idp
send a app (sent_token_update_reply idp rsc ctrl) = send_token_update_reply a app idp rsc ctrl
send a app (sent_token_ack idp ctrl) = send_token_ack a app idp ctrl
send a app (sent_create_collective_init context tid) = send_create_collective_init a app context tid
send a app (sent_create_collective_idp context idp) = send_create_collective_idp a app context idp
send a app (sent_static_group_create comm) = send_static_group_create a app comm
send a app (sent_static_group_synchronize comm) = send_static_group_synchronize a app comm
send a app (sent_static_group_cc_idp comm idp) = send_static_group_cc_idp a app comm idp
send a app (sent_search_resource_request idp) = send_search_resource_request a app idp
send a app (sent_search_resource_reply idp info ctrl) =
    send_search_resource_reply a app idp info ctrl
send a app (sent_finalize_context context) = send_finalize_context a app context
send a app sent_finalize = send_finalize a app

-- What the message asks of the controller `name`, sent by the controller `ctrl`.
unfoldable pub asked : {R : Type 0} → Bool → Bytes → Bytes → Send R → Call R
asked is_main_ctrl name ctrl sent_request_page =
    if is_main_ctrl then generate_page ctrl else nothing
asked is_main_ctrl name ctrl (sent_reply_page page dest) = update_page page
asked is_main_ctrl name ctrl (sent_resource_allocation_info idp) = global_resource_found idp
asked is_main_ctrl name ctrl (sent_find_resource_request idp) = handle_find_global_resource idp ctrl
asked is_main_ctrl name ctrl (sent_find_resource_reply idp dest) = global_resource_found idp
asked is_main_ctrl name ctrl (sent_find_predecessor_request idp) = handle_find_predecessor idp ctrl
asked is_main_ctrl name ctrl (sent_find_predecessor_reply idp pred dest) =
    predecessor_found idp pred
asked is_main_ctrl name ctrl (sent_replica idp rsc dest) = insert_resource_replica idp rsc
asked is_main_ctrl name ctrl (sent_release_replica_request idp) = release_replica idp ctrl
asked is_main_ctrl name ctrl (sent_update_request idp) = check_update idp ctrl
asked is_main_ctrl name ctrl (sent_update_reply idp rsc dest) = update idp rsc
asked is_main_ctrl name ctrl (sent_invalidate_request idp) = invalidate idp
asked is_main_ctrl name ctrl (sent_token_update_request idp) = check_token_update idp ctrl
asked is_main_ctrl name ctrl (sent_token_update_reply idp rsc dest) =
    acquire_token_update idp rsc ctrl
asked is_main_ctrl name ctrl (sent_token_ack idp dest) = token_acknowledged idp
asked is_main_ctrl name ctrl (sent_create_collective_init context tid) =
    init_create_collective context tid (bytes_eq ctrl name)
asked is_main_ctrl name ctrl (sent_create_collective_idp context idp) =
    set_collective_idp context idp
asked is_main_ctrl name ctrl (sent_static_group_create comm) = handle_create_static_group comm
asked is_main_ctrl name ctrl (sent_static_group_synchronize comm) =
    handle_synchronize_static_group comm
asked is_main_ctrl name ctrl (sent_static_group_cc_idp comm idp) = static_group_idp comm idp
asked is_main_ctrl name ctrl (sent_search_resource_request idp) = handle_search_resource idp ctrl
asked is_main_ctrl name ctrl (sent_search_resource_reply idp info dest) =
    handle_search_resource_info idp info
asked is_main_ctrl name ctrl (sent_finalize_context context) = context_finalized
asked is_main_ctrl name ctrl sent_finalize = finalized

-- What the communication system hands over to a member of the groups.
abbrev pub deliver : Bytes → Outgoing → Received
deliver ctrl m = record { msg_kind = m.msg_kind; sender = ctrl; msg = m.msg; groups = m.groups }
