-- ===== src/Elements/Ranks.antt =====
-- Two members of a group that send and receive by their ranks.
use pla_co_r.Base.{
  ℕ, ◌^◌, ◌<◌, ◌≡◌, ◌≢◌, refl, sym, ap, subst, ◌∙◌, Bool, true, Option, some, List, [], ◌∷◌, ◌++◌,
  All, length, ==_iff, ◌>>=◌, arith,
}
use pla_co_r.Text.Bytes.{Bytes, Lacks}
use pla_co_r.Names.Groups.{get_message_group}
use pla_co_r.Mail.Mailbox.{Message, Mailboxes, box, put, taken, take_from, receive_message_from}
use pla_co_r.Mail.Outgoing.{Packet, packet}
use pla_co_r.Mail.Order.{take_from-yes, take_from-no}
use pla_co_r.Organizer.Members
use pla_co_r.Organizer.Members.{Done, Result, returned, Members, no_members}
use pla_co_r.Organizer.History.{Change, changes, idm_inverse}
use pla_co_r.Organizer.Static.{StaticOrganizer, get_idp, get_idm, with_members}
use pla_co_r.Elements.Mailbox.{map_result, and_then, send_to_rank, receive_from_rank, delivered}
use pla_co_r.Elements.Broadcast.{delivered-here}

-- A message behind others of other senders.
take_from-snoc :
    (source : ℕ) (ms : List Message) (m : Message)
    → All (λ x. x.sender ≢ source) ms
    → m.sender ≡ source
    → take_from source (ms ++ m ∷ []) ≡ some (m, ms)
take_from-snoc source [] m h e = take_from-yes source m [] ((==_iff source m.sender).1 (sym e))
take_from-snoc source (x ∷ ms) m h e =
    take_from-no source x (ms ++ m ∷ []) (ground (arith, h.0))
    ∙ ap (λ o. o >>= λ r. some (r.0, x ∷ r.1)) (take_from-snoc source ms m h.1 e)

box_self : (boxes : Mailboxes) (k : ℕ) (ms : List Message) → box (put boxes k ms) k ≡ ms
unfolding box put
box_self boxes k ms = rw ((==_iff k k).1 refl) refl

received :
    (v : Mailboxes) (a b : ℕ) (ms : List Message) (m : Message)
    → box v b ≡ ms ++ m ∷ []
    → All (λ x. x.sender ≢ a) ms
    → m.sender ≡ a
    → receive_message_from v b a ≡ some (m, put v b ms)
unfolding receive_message_from taken
received v a b ms m e h s = ap (taken v b) (ap (take_from a) e ∙ take_from-snoc a ms m h s)

-- A rank that the organizer gives leads back to the member.
rank-idp :
    (cs : List Change) (o : StaticOrganizer) (k rank : ℕ)
    → o.members ≡ changes cs no_members
    → length cs < 2 ^ 32
    → (get_idm o k).result ≡ returned rank
    → (get_idp o rank).result ≡ returned k
unfolding get_idm get_idp with_members
rank-idp cs o k rank e l h =
    subst (λ u. (Members.get_idp u rank).result ≡ returned k) (sym e)
      ((idm_inverse cs k rank l).0 (subst (λ u. (Members.get_idm u k).result ≡ returned rank) e h))

-- Two members of a group that any joins and leaves have made, fewer than 2^32, find their ranks by
-- `GetIdm`. What the first sends to the rank of the second is one packet; once it has been handed to
-- a pod with the second's message group, whose mailbox has no other message of the first, the second
-- receives it by the rank of the first, with the sender set, and its mailbox is left as it was before.
-- The archive reads back what it writes, identifiers have 32 bits, and the name of the application
-- has no `@`.
pub rank-rank :
    (write : Message → Bytes) (read : Bytes → Option Message) (app : Bytes) (a b ra rb : ℕ)
    (joined : List Bytes → Bool) (msg : Message) (o : StaticOrganizer) (cs : List Change)
    (boxes : Mailboxes)
    → ((m : Message) → read (write m) ≡ some m)
    → Lacks b'@' app
    → o.members ≡ changes cs no_members
    → length cs < 2 ^ 32
    → (get_idm o a).result ≡ returned ra
    → (get_idm o b).result ≡ returned rb
    → b < 2 ^ 32
    → joined (get_message_group app b ∷ []) ≡ true
    → All (λ m. m.sender ≢ a) (box boxes b)
    → (ps : List Packet) × (v w : Mailboxes) × ((send_to_rank write app a rb o msg).result
        ≡ returned ps)
      × (delivered read joined ps boxes ≡ some v)
      × ((receive_from_rank b ra o v).result ≡ returned (some (record msg { sender = a }, w)))
      × (box w b ≡ box boxes b)
unfolding send_to_rank receive_from_rank and_then delivered
rank-rank write read app a b ra rb joined msg o cs boxes law lacks e l ha hb small here others =
    let m = record msg { sender = a } in
    let v = put boxes b (box boxes b ++ m ∷ []) in
    (
      packet write app a b msg ∷ [],
      v,
      put v b (box boxes b),
      ap (map_result (λ dest. packet write app a dest msg ∷ [])) (rank-idp cs o b rb e l hb),
      delivered-here write read app a joined msg law lacks b [] boxes here small,
      ap (map_result (λ source. receive_message_from v b source)) (rank-idp cs o a ra e l ha)
          ∙ ap returned (
              received v a b (box boxes b) m (box_self boxes b (box boxes b ++ m ∷ [])) others
                refl),
      box_self v b (box boxes b),
    )
