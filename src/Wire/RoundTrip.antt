-- ===== src/Wire/RoundTrip.antt =====
-- Senders and handlers together (libcor/src/cor/services/controller.cpp).
use mathlib.Core.Option
use pla_co_r.Base.{◌≡◌, refl, ap, ◌∙◌, Bool, true, false, none, some, [], ◌∷◌}
use pla_co_r.Text.Bytes.{Bytes, Lacks}
use pla_co_r.Names.Groups.{get_resource_group, get_context_group}
use pla_co_r.Names.RoundTrip.{resource_group-idp, context_group-context}
use pla_co_r.Wire.Archive.{
  Archive, ReadsBack, number, word, object, read_number-write, read_numbers-write, read_word-write,
  read_number_word-write, read_number_object-write,
}
use pla_co_r.Wire.Send.{
  MsgType, build, msg_type-underlying_cast, page_request, page_reply, resource_allocation,
  find_resource_request, find_resource_reply, find_predecessor_request, find_predecessor_reply,
  create_replica, release_replica_request, update_request, update_reply, invalidate_request,
  token_update_request, token_update_reply, token_ack, create_collective_init,
  create_collective_idp, static_group_create, static_group_synchronize, static_group_cc_idp,
  search_resource_request, search_resource_reply, finalize_context, finalize, request_page,
  reply_page, send_resource_allocation_info, send_find_resource_request, send_find_resource_reply,
  send_find_predecessor_request, send_find_predecessor_reply, send_replica,
  send_release_replica_request, send_update_request, send_update_reply, send_invalidate_request,
  send_token_update_request, send_token_update_reply, send_token_ack, send_create_collective_init,
  send_create_collective_idp, send_static_group_create, send_static_group_synchronize,
  send_static_group_cc_idp, send_search_resource_request, send_search_resource_reply,
  send_finalize_context, send_finalize,
}
use pla_co_r.Wire.Handle.{
  group_idp, group_context, handle_kind, handle_regular_message, nothing, acquire_token_update,
  check_token_update, check_update, global_resource_found, handle_create_static_group,
  handle_find_global_resource, handle_find_predecessor, handle_search_resource,
  handle_search_resource_info, handle_synchronize_static_group, insert_resource_replica, invalidate,
  predecessor_found, release_replica, static_group_idp, token_acknowledged, update, update_page,
  handle_page_request, handle_page_reply, handle_resource_allocation_info,
  handle_find_resource_request, handle_find_resource_reply, handle_find_predecessor_request,
  handle_find_predecessor_reply, handle_create_replica, handle_release_replica_request,
  handle_update_request, handle_update_reply, handle_invalidate_request,
  handle_token_update_request, handle_token_update_reply, handle_token_ack,
  handle_create_collective_init, handle_create_collective_idp, handle_static_group_create,
  handle_static_group_synchronize, handle_static_group_cc_idp, handle_search_resource_request,
  handle_search_resource_reply, handle_finalize_context, handle_finalize,
}
use pla_co_r.Wire.Asked.{
  Send, Ranged, send, asked, deliver, sent_request_page, sent_reply_page,
  sent_resource_allocation_info, sent_find_resource_request, sent_find_resource_reply,
  sent_find_predecessor_request, sent_find_predecessor_reply, sent_replica,
  sent_release_replica_request, sent_update_request, sent_update_reply, sent_invalidate_request,
  sent_token_update_request, sent_token_update_reply, sent_token_ack, sent_create_collective_init,
  sent_create_collective_idp, sent_static_group_create, sent_static_group_synchronize,
  sent_static_group_cc_idp, sent_search_resource_request, sent_search_resource_reply,
  sent_finalize_context, sent_finalize,
}

module _ {R : Type 0} (a : Archive R) (law : ReadsBack a) (app : Bytes) (no_at : Lacks b'@' app)
    (no_dollar : Lacks b'$' app) (is_main_ctrl : Bool) (name ctrl : Bytes) where
  built :
      (t : MsgType) (discard : Bool) (b dest : Bytes)
      → handle_regular_message a is_main_ctrl name (deliver ctrl (build t discard b dest))
        ≡ handle_kind a is_main_ctrl name t (deliver ctrl (build t discard b dest))
  unfolding handle_regular_message build
  built t discard b dest =
      ap
        (λ o. elim o [
          | none ↦ some nothing
          | some k ↦ handle_kind a is_main_ctrl name k (deliver ctrl (build t discard b dest))
        ])
        (msg_type-underlying_cast t)

  -- Every message that a controller sends is handled as what it asks: the handler of its type is
  -- chosen, reads back every identifier, text and resource that the sender wrote, takes the
  -- resource or the context from the group's name and the asking controller from the sender, and
  -- starts the one method meant. The archive reads back what it writes, the name of the
  -- application has no `@` and no `$`, and the identifiers have 32 bits.
  pub handled_as_sent :
      (q : Send R)
      → Ranged q
      → handle_regular_message a is_main_ctrl name (deliver ctrl (send a app q))
        ≡ some (asked is_main_ctrl name ctrl q)
  unfolding send asked handle_kind build group_idp group_context request_page reply_page
      send_resource_allocation_info send_find_resource_request send_find_resource_reply
      send_find_predecessor_request send_find_predecessor_reply send_replica
      send_release_replica_request send_update_request send_update_reply send_invalidate_request
      send_token_update_request send_token_update_reply send_token_ack send_create_collective_init
      send_create_collective_idp send_static_group_create send_static_group_synchronize
      send_static_group_cc_idp send_search_resource_request send_search_resource_reply
      send_finalize_context send_finalize handle_page_request handle_page_reply
      handle_resource_allocation_info handle_find_resource_request handle_find_resource_reply
      handle_find_predecessor_request handle_find_predecessor_reply handle_create_replica
      handle_release_replica_request handle_update_request handle_update_reply
      handle_invalidate_request handle_token_update_request handle_token_update_reply
      handle_token_ack handle_create_collective_init handle_create_collective_idp
      handle_static_group_create handle_static_group_synchronize handle_static_group_cc_idp
      handle_search_resource_request handle_search_resource_reply handle_finalize_context
      handle_finalize
  handled_as_sent sent_request_page h = built page_request false [] app
  handled_as_sent (sent_reply_page page dest) h =
      built page_reply false (a.write (number page ∷ [])) dest
      ∙ ap (Option.map (λ v. update_page v)) (read_number-write a law page h)
  handled_as_sent (sent_resource_allocation_info idp) h =
      built resource_allocation false (a.write (number idp ∷ [])) app
      ∙ ap (Option.map (λ v. global_resource_found v)) (read_number-write a law idp h)
  handled_as_sent (sent_find_resource_request idp) h =
      built find_resource_request true (a.write (number idp ∷ [])) app
      ∙ ap (Option.map (λ v. handle_find_global_resource v ctrl)) (read_number-write a law idp h)
  handled_as_sent (sent_find_resource_reply idp dest) h =
      built find_resource_reply false (a.write (number idp ∷ [])) dest
      ∙ ap (Option.map (λ v. global_resource_found v)) (read_number-write a law idp h)
  handled_as_sent (sent_find_predecessor_request idp) h =
      built find_predecessor_request true (a.write (number idp ∷ [])) app
      ∙ ap (Option.map (λ v. handle_find_predecessor v ctrl)) (read_number-write a law idp h)
  handled_as_sent (sent_find_predecessor_reply idp pred dest) h =
      built find_predecessor_reply false (a.write (number idp ∷ (number pred ∷ []))) dest
      ∙ ap (Option.map (λ v. predecessor_found v.0 v.1)) (read_numbers-write a law idp pred h.0 h.1)
  handled_as_sent (sent_replica idp rsc dest) h =
      built create_replica false (a.write (number idp ∷ (object rsc ∷ []))) dest
      ∙ ap (Option.map (λ v. insert_resource_replica v.0 v.1))
          (read_number_object-write a law idp rsc h)
  handled_as_sent (sent_release_replica_request idp) h =
      built release_replica_request false [] (get_resource_group app idp)
      ∙ ap (Option.map (λ v. release_replica v ctrl)) (resource_group-idp app idp no_at h)
  handled_as_sent (sent_update_request idp) h =
      built update_request false [] (get_resource_group app idp)
      ∙ ap (Option.map (λ v. check_update v ctrl)) (resource_group-idp app idp no_at h)
  handled_as_sent (sent_update_reply idp rsc dest) h =
      built update_reply false (a.write (number idp ∷ (object rsc ∷ []))) dest
      ∙ ap (Option.map (λ v. update v.0 v.1)) (read_number_object-write a law idp rsc h)
  handled_as_sent (sent_invalidate_request idp) h =
      built invalidate_request true [] (get_resource_group app idp)
      ∙ ap (Option.map (λ v. invalidate v)) (resource_group-idp app idp no_at h)
  handled_as_sent (sent_token_update_request idp) h =
      built token_update_request false [] (get_resource_group app idp)
      ∙ ap (Option.map (λ v. check_token_update v ctrl)) (resource_group-idp app idp no_at h)
  handled_as_sent (sent_token_update_reply idp rsc dest) h =
      built token_update_reply false (a.write (number idp ∷ (object rsc ∷ []))) dest
      ∙ ap (Option.map (λ v. acquire_token_update v.0 v.1 ctrl))
          (read_number_object-write a law idp rsc h)
  handled_as_sent (sent_token_ack idp dest) h =
      built token_ack false (a.write (number idp ∷ [])) dest
      ∙ ap (Option.map (λ v. token_acknowledged v)) (read_number-write a law idp h)
  handled_as_sent (sent_create_collective_init context tid) h =
      built create_collective_init false (a.write (word tid ∷ [])) (get_context_group app context)
      ∙ rw (context_group-context app context no_dollar, read_word-write a law tid) refl
  handled_as_sent (sent_create_collective_idp context idp) h =
      built create_collective_idp false (a.write (number idp ∷ [])) (get_context_group app context)
      ∙ rw (context_group-context app context no_dollar, read_number-write a law idp h) refl
  handled_as_sent (sent_static_group_create comm) h =
      built static_group_create false (a.write (number comm ∷ [])) app
      ∙ ap (Option.map (λ v. handle_create_static_group v)) (read_number-write a law comm h)
  handled_as_sent (sent_static_group_synchronize comm) h =
      built static_group_synchronize false (a.write (number comm ∷ [])) app
      ∙ ap (Option.map (λ v. handle_synchronize_static_group v)) (read_number-write a law comm h)
  handled_as_sent (sent_static_group_cc_idp comm idp) h =
      built static_group_cc_idp false (a.write (number comm ∷ (number idp ∷ []))) app
      ∙ ap (Option.map (λ v. static_group_idp v.0 v.1)) (read_numbers-write a law comm idp h.0 h.1)
  handled_as_sent (sent_search_resource_request idp) h =
      built search_resource_request false (a.write (number idp ∷ [])) app
      ∙ ap (Option.map (λ v. handle_search_resource v ctrl)) (read_number-write a law idp h)
  handled_as_sent (sent_search_resource_reply idp info dest) h =
      built search_resource_reply false (a.write (number idp ∷ (word info ∷ []))) dest
      ∙ ap (Option.map (λ v. handle_search_resource_info v.0 v.1))
          (read_number_word-write a law idp info h)
  handled_as_sent (sent_finalize_context context) h =
      built finalize_context false [] (get_context_group app context)
  handled_as_sent sent_finalize h = built finalize false [] app
