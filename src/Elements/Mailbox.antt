-- ===== src/Elements/Mailbox.antt =====
-- `Mailbox` (libcor/src/cor/elements/mailbox.cpp) and `SBarrier`
-- (libcor/src/cor/elements/sbarrier.cpp): a member of a static group sends and receives by ranks.
use pla_co_r.Base.{ℕ, Bool, Option, some, List, [], ◌∷◌, ◌>>=◌, if◌then◌else◌}
use pla_co_r.Text.Bytes.{Bytes}
use pla_co_r.Mail.Mailbox.{Message, Mailboxes, receive_message_from, handle_read}
use pla_co_r.Mail.Outgoing.{Packet, packet}
use pla_co_r.Organizer.Members.{Done, Result, returned, threw}
use pla_co_r.Organizer.Static.{StaticOrganizer, get_member_list, get_idp, get_idm}

-- A call of the organizer and what is done with its result; an exception goes through.
unfoldable pub map_result : {A B : Type 0} → (A → B) → Result A → Result B
map_result f (returned v) = returned (f v)
map_result f (threw e) = threw e

unfoldable pub and_then : {S A B : Type 0} → Done S A → (A → B) → Done S B
unfolding map_result
and_then d f = record { acts = d.acts; state = d.state; result = map_result f d.result }

-- `write` is the archive of messages, `app` the name of the application group, and `idp` that of
-- the mailbox. The result of a send is what is given to the queue of the mailer, in order.
module _ (write : Message → Bytes) (app : Bytes) (idp : ℕ) where
  -- `SendMessage` to many.
  unfoldable pub send_each : List ℕ → Message → List Packet
  send_each [] msg = []
  send_each (dest ∷ dests) msg = packet write app idp dest msg ∷ send_each dests msg

  unfoldable pub broadcast : StaticOrganizer → Message → Done StaticOrganizer (List Packet)
  unfolding and_then send_each get_member_list
  broadcast o msg = and_then (get_member_list o) (λ dests. send_each dests msg)

  unfoldable pub send_to_rank : ℕ → StaticOrganizer → Message → Done StaticOrganizer (List Packet)
  unfolding and_then
  send_to_rank rank o msg = and_then (get_idp o rank) (λ dest. packet write app idp dest msg ∷ [])

-- The inner `none` waits.
unfoldable pub receive_from_rank :
    ℕ → ℕ → StaticOrganizer → Mailboxes → Done StaticOrganizer (Option (Message × Mailboxes))
unfolding and_then
receive_from_rank idp rank o boxes =
    and_then (get_idp o rank) (λ source. receive_message_from boxes idp source)

-- `Synchronize` of the barrier: the group at whose barrier the active resource then waits, if it is
-- a member.
unfoldable pub synchronize : ℕ → StaticOrganizer → Done StaticOrganizer ℕ
unfolding and_then
synchronize active o = and_then (get_idm o active) (λ idm. o.idp)

-- The packets that the communication system hands to a pod, those of the groups that it joined.
unfoldable pub delivered :
    (Bytes → Option Message) → (List Bytes → Bool) → List Packet → Mailboxes → Option Mailboxes
unfolding handle_read
delivered read joined [] boxes = some boxes
delivered read joined (p ∷ ps) boxes =
    (if joined p.0 then handle_read read boxes p.0 p.1 else some boxes) >>= λ b.
    delivered read joined ps b
