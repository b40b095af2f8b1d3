-- ===== src/Wire/Send.antt =====
-- The senders of libcor/src/cor/services/controller.cpp: the type of the message, whether it is kept from its own sender,
-- its bytes and its groups.
use pla_co_r.Base.{ℕ, ◌≡◌, refl, Bool, true, false, Option, some, List, [], ◌∷◌, get_elem?}
use pla_co_r.Text.Bytes.{Bytes}
use pla_co_r.Names.Groups.{get_context_group, get_resource_group}
use pla_co_r.Wire.Archive.{Archive, number, word, object}

pub data MsgType : Type 0 where
  page_request page_reply : MsgType
  resource_allocation find_resource_request : MsgType
  find_resource_reply find_predecessor_request : MsgType
  find_predecessor_reply create_replica : MsgType
  release_replica_request update_request : MsgType
  update_reply invalidate_request : MsgType
  token_update_request token_update_reply : MsgType
  token_ack create_collective_init : MsgType
  create_collective_idp static_group_create : MsgType
  static_group_synchronize static_group_cc_idp : MsgType
  search_resource_request search_resource_reply : MsgType
  finalize_context finalize : MsgType

-- The types in their order: a type's place is its number.
abbrev pub msg_types : List MsgType
msg_types =
    page_request
    ∷ (page_reply
        ∷ (resource_allocation
            ∷ (find_resource_request
                ∷ (find_resource_reply
                    ∷ (find_predecessor_request
                        ∷ (find_predecessor_reply
                            ∷ (create_replica
                                ∷ (release_replica_request
                                    ∷ (update_request
                                        ∷ (update_reply
                                            ∷ (invalidate_request
                                                ∷ (token_update_request
                                                    ∷ (token_update_reply
                                                        ∷ (token_ack
                                                            ∷ (create_collective_init
                                                            ∷ (create_collective_idp
                                                            ∷ (static_group_create
                                                            ∷ (static_group_synchronize
                                                            ∷ (static_group_cc_idp
                                                            ∷ (search_resource_request
                                                            ∷ (search_resource_reply
                                                            ∷ (finalize_context
                                                            ∷ (finalize ∷ [])))))))))))))))))))))))

unfoldable pub underlying_cast : MsgType → ℕ
underlying_cast page_request = 0
underlying_cast page_reply = 1
underlying_cast resource_allocation = 2
underlying_cast find_resource_request = 3
underlying_cast find_resource_reply = 4
underlying_cast find_predecessor_request = 5
underlying_cast find_predecessor_reply = 6
underlying_cast create_replica = 7
underlying_cast release_replica_request = 8
underlying_cast update_request = 9
underlying_cast update_reply = 10
underlying_cast invalidate_request = 11
underlying_cast token_update_request = 12
underlying_cast token_update_reply = 13
underlying_cast token_ack = 14
underlying_cast create_collective_init = 15
underlying_cast create_collective_idp = 16
underlying_cast static_group_create = 17
underlying_cast static_group_synchronize = 18
underlying_cast static_group_cc_idp = 19
underlying_cast search_resource_request = 20
underlying_cast search_resource_reply = 21
underlying_cast finalize_context = 22
underlying_cast finalize = 23

-- `MsgType(type)`; `none` is a number that no case of the switch has.
unfoldable pub msg_type : ℕ → Option MsgType
msg_type n = get_elem? msg_types n

pub msg_type-underlying_cast : (t : MsgType) → msg_type (underlying_cast t) ≡ some t
unfolding msg_type underlying_cast
msg_type-underlying_cast page_request = refl
msg_type-underlying_cast page_reply = refl
msg_type-underlying_cast resource_allocation = refl
msg_type-underlying_cast find_resource_request = refl
msg_type-underlying_cast find_resource_reply = refl
msg_type-underlying_cast find_predecessor_request = refl
msg_type-underlying_cast find_predecessor_reply = refl
msg_type-underlying_cast create_replica = refl
msg_type-underlying_cast release_replica_request = refl
msg_type-underlying_cast update_request = refl
msg_type-underlying_cast update_reply = refl
msg_type-underlying_cast invalidate_request = refl
msg_type-underlying_cast token_update_request = refl
msg_type-underlying_cast token_update_reply = refl
msg_type-underlying_cast token_ack = refl
msg_type-underlying_cast create_collective_init = refl
msg_type-underlying_cast create_collective_idp = refl
msg_type-underlying_cast static_group_create = refl
msg_type-underlying_cast static_group_synchronize = refl
msg_type-underlying_cast static_group_cc_idp = refl
msg_type-underlying_cast search_resource_request = refl
msg_type-underlying_cast search_resource_reply = refl
msg_type-underlying_cast finalize_context = refl
msg_type-underlying_cast finalize = refl

pub record Outgoing : Type 0 where
  pub msg_kind : ℕ
  pub self_discard : Bool
  pub msg : Bytes
  pub groups : List Bytes

unfoldable pub build : MsgType → Bool → Bytes → Bytes → Outgoing
build t discard msg dest = record {
  msg_kind = underlying_cast t;
  self_discard = discard;
  msg = msg;
  groups = dest ∷ [];
}

module _ {R : Type 0} (a : Archive R) (app : Bytes) where
  unfoldable pub request_page : Outgoing
  request_page = build page_request false [] app

  unfoldable pub reply_page : ℕ → Bytes → Outgoing
  reply_page page ctrl = build page_reply false (a.write (number page ∷ [])) ctrl

  unfoldable pub send_resource_allocation_info : ℕ → Outgoing
  send_resource_allocation_info idp =
      build resource_allocation false (a.write (number idp ∷ [])) app

  unfoldable pub send_find_resource_request : ℕ → Outgoing
  send_find_resource_request idp = build find_resource_request true (a.write (number idp ∷ [])) app

  unfoldable pub send_find_resource_reply : ℕ → Bytes → Outgoing
  send_find_resource_reply idp ctrl =
      build find_resource_reply false (a.write (number idp ∷ [])) ctrl

  unfoldable pub send_find_predecessor_request : ℕ → Outgoing
  send_find_predecessor_request idp =
      build find_predecessor_request true (a.write (number idp ∷ [])) app

  unfoldable pub send_find_predecessor_reply : ℕ → ℕ → Bytes → Outgoing
  send_find_predecessor_reply idp pred ctrl =
      build find_predecessor_reply false (a.write (number idp ∷ (number pred ∷ []))) ctrl

  unfoldable pub send_replica : ℕ → R → Bytes → Outgoing
  send_replica idp rsc ctrl =
      build create_replica false (a.write (number idp ∷ (object rsc ∷ []))) ctrl

  unfoldable pub send_release_replica_request : ℕ → Outgoing
  send_release_replica_request idp =
      build release_replica_request false [] (get_resource_group app idp)

  unfoldable pub send_update_request : ℕ → Outgoing
  send_update_request idp = build update_request false [] (get_resource_group app idp)

  unfoldable pub send_update_reply : ℕ → R → Bytes → Outgoing
  send_update_reply idp rsc ctrl =
      build update_reply false (a.write (number idp ∷ (object rsc ∷ []))) ctrl

  unfoldable pub send_invalidate_request : ℕ → Outgoing
  send_invalidate_request idp = build invalidate_request true [] (get_resource_group app idp)

  unfoldable pub send_token_update_request : ℕ → Outgoing
  send_token_update_request idp = build token_update_request false [] (get_resource_group app idp)

  unfoldable pub send_token_update_reply : ℕ → R → Bytes → Outgoing
  send_token_update_reply idp rsc ctrl =
      build token_update_reply false (a.write (number idp ∷ (object rsc ∷ []))) ctrl

  unfoldable pub send_token_ack : ℕ → Bytes → Outgoing
  send_token_ack idp ctrl = build token_ack false (a.write (number idp ∷ [])) ctrl

  unfoldable pub send_create_collective_init : Bytes → Bytes → Outgoing
  send_create_collective_init context tid =
      build create_collective_init false (a.write (word tid ∷ [])) (get_context_group app context)

  unfoldable pub send_create_collective_idp : Bytes → ℕ → Outgoing
  send_create_collective_idp context idp =
      build create_collective_idp false (a.write (number idp ∷ [])) (get_context_group app context)

  unfoldable pub send_static_group_create : ℕ → Outgoing
  send_static_group_create comm = build static_group_create false (a.write (number comm ∷ [])) app

  unfoldable pub send_static_group_synchronize : ℕ → Outgoing
  send_static_group_synchronize comm =
      build static_group_synchronize false (a.write (number comm ∷ [])) app

  unfoldable pub send_static_group_cc_idp : ℕ → ℕ → Outgoing
  send_static_group_cc_idp comm idp =
      build static_group_cc_idp false (a.write (number comm ∷ (number idp ∷ []))) app

  unfoldable pub send_search_resource_request : ℕ → Outgoing
  send_search_resource_request idp =
      build search_resource_request false (a.write (number idp ∷ [])) app

  unfoldable pub send_search_resource_reply : ℕ → Bytes → Bytes → Outgoing
  send_search_resource_reply idp info ctrl =
      build search_resource_reply false (a.write (number idp ∷ (word info ∷ []))) ctrl

  unfoldable pub send_finalize_context : Bytes → Outgoing
  send_finalize_context context = build finalize_context false [] (get_context_group app context)

  unfoldable pub send_finalize : Outgoing
  send_finalize = build finalize false [] app
