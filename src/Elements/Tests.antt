-- ===== src/Elements/Tests.antt =====
-- A group of the resources 5, 6 and 9, of which 6 has left, in a pod with the mailbox of 9.
use pla_co_r.Base.{ℕ, ◌≡◌, refl, false, some, List, [], ◌∷◌, ◌++◌, Bool, if◌then◌else◌, arith}
use pla_co_r.Text.Bytes.{Bytes, codes, bytes_eq}
use pla_co_r.Names.Groups.{get_message_group}
use pla_co_r.Mail.Archive.{write, read, read-write, app-at}
use pla_co_r.Mail.Mailbox.{Message, Mailboxes, box}
use pla_co_r.Mail.Outgoing.{Packet}
use pla_co_r.Organizer.Members
use pla_co_r.Organizer.Members.{
  Members, no_members, returned, find, find_if, join, leave, verified, insert, emplace, erase, look,
  reading,
}
use pla_co_r.Organizer.History.{Change, joining, leaving, change, changes}
use pla_co_r.Organizer.Static.{StaticOrganizer, get_idm, with_members}
use pla_co_r.Elements.Mailbox.{broadcast, delivered, send_to_rank, receive_from_rank}
use pla_co_r.Elements.Broadcast.{is_member, broadcast_reaches}
use pla_co_r.Elements.Ranks.{rank-rank}

abbrev three : List Change
three = joining 5 (codes "a") ∷ joining 9 (codes "b") ∷ joining 6 (codes "c") ∷ leaving 6 ∷ []

abbrev group : StaticOrganizer
group = record { idp = 3; total_members = 3; parent = 0; members = changes three no_members }

abbrev has_nine : List Bytes → Bool
has_nine [] = false
has_nine (g ∷ gs) = bytes_eq g (codes "app@M9")

abbrev letter : Message
letter = record { type = 7; sender = 0; content = codes "one" ∷ [] }

abbrev earlier : Mailboxes
earlier k = some (record letter { sender = 6 } ∷ [])

broadcast_reaches_example :
    (ps : List Packet) × (v : Mailboxes) × ((broadcast write (codes "app") 5 group letter).result
      ≡ returned ps)
    × (delivered read has_nine ps earlier ≡ some v)
    × ((k : ℕ)
        → box v k
          ≡ box earlier k
            ++ (if has_nine (get_message_group (codes "app") k ∷ [])
                then if is_member group k then record letter { sender = 5 } ∷ [] else []
                else []))
unfolding changes change join leave find find_if verified insert emplace erase no_members
    Members.member_name
broadcast_reaches_example =
    broadcast_reaches write read (codes "app") 5 has_nine letter group three earlier read-write
      app-at refl (omega arith) (omega arith, (omega arith, tt))

rank-rank_example :
    (ps : List Packet) × (v w : Mailboxes) × ((send_to_rank write
        (codes "app")
        5
        1
        group
        letter).result
      ≡ returned ps)
    × (delivered read has_nine ps earlier ≡ some v)
    × ((receive_from_rank 9 0 group v).result ≡ returned (some (record letter { sender = 5 }, w)))
    × (box w 9 ≡ box earlier 9)
unfolding changes change join leave find find_if verified insert emplace erase no_members get_idm
    with_members Members.get_idm look reading box get_message_group Members.member_name
    pla_co_r.Text.Decimal.to_string pla_co_r.Text.Decimal.digits
rank-rank_example =
    rank-rank write read (codes "app") 5 9 0 1 has_nine letter group three earlier read-write app-at
      refl (omega arith) refl refl (omega arith) refl ((λ e. omega (arith, e)), tt)
