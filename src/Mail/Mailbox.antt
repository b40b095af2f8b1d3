-- ===== src/Mail/Mailbox.antt =====
-- The mailboxes: what arrives, and the two ways to receive
-- (libcor/src/cor/services/mailer.cpp, libcor/include/cor/message.hpp).
use pla_co_r.Base.{
  ℕ, Option, none, some, List, [], ◌∷◌, ◌++◌, ◌==◌, get_elem?, if◌then◌else◌, ◌>>=◌,
}
use pla_co_r.Text.Bytes.{Bytes}
use pla_co_r.Names.Groups.{get_idp_from_message_group}

pub record Message : Type 0 where
  pub type : ℕ
  pub sender : ℕ
  pub content : List Bytes

-- The map of the mailboxes; `none` is a key that is missing.
abbrev pub Mailboxes : Type 0
Mailboxes = ℕ → Option (List Message)

abbrev pub or_empty : Option (List Message) → List Message
or_empty none = []
or_empty (some ms) = ms

-- `_mailboxes[idp]`, which makes a missing mailbox an empty one.
unfoldable pub box : Mailboxes → ℕ → List Message
box boxes idp = or_empty (boxes idp)

unfoldable pub put : Mailboxes → ℕ → List Message → Mailboxes
put boxes idp ms = λ k. if k == idp then some ms else boxes k

abbrev pub first : List Message → Option (Message × List Message)
first [] = none
first (m ∷ ms) = some (m, ms)

-- The message is moved out of the mailbox; `none` waits.
unfoldable pub taken :
    Mailboxes → ℕ → Option (Message × List Message) → Option (Message × Mailboxes)
taken boxes idp none = none
taken boxes idp (some r) = some (r.0, put boxes idp r.1)

unfoldable pub receive_message : Mailboxes → ℕ → Option (Message × Mailboxes)
unfolding taken
receive_message boxes idp = taken boxes idp (first (box boxes idp))

-- The loop over a mailbox: the first message of the source, and the others.
unfoldable pub take_from : ℕ → List Message → Option (Message × List Message)
take_from source [] = none
take_from source (m ∷ ms) =
    let rest = take_from source ms >>= λ r. some (r.0, m ∷ r.1) in
    if source == m.sender then some (m, ms) else rest

unfoldable pub receive_message_from : Mailboxes → ℕ → ℕ → Option (Message × Mailboxes)
unfolding taken take_from
receive_message_from boxes idp source = taken boxes idp (take_from source (box boxes idp))

-- `emplace` keeps a mailbox that is there, with the messages that came before it was made.
unfoldable pub emplaced : Mailboxes → ℕ → Option (List Message) → Mailboxes
emplaced boxes idp none = put boxes idp []
emplaced boxes idp (some ms) = boxes

-- The maps behind the join of the message group.
unfoldable pub create_mailbox : Mailboxes → ℕ → Mailboxes
unfolding emplaced
create_mailbox boxes idp = emplaced boxes idp (boxes idp)

-- The maps behind the leave of the message group.
unfoldable pub delete_mailbox : Mailboxes → ℕ → Mailboxes
delete_mailbox boxes idp = λ k. if k == idp then none else boxes k

unfoldable pub push_back : Mailboxes → ℕ → Message → Mailboxes
push_back boxes idp msg = put boxes idp (box boxes idp ++ (msg ∷ []))

-- A regular message; `none` is an exception of the archive or of the group's name. The archive of
-- messages is a parameter, `read`.
unfoldable pub handle_read :
    (Bytes → Option Message) → Mailboxes → List Bytes → Bytes → Option Mailboxes
handle_read read boxes groups bytes = do
  msg ← read bytes
  group ← get_elem? groups 0
  idp ← get_idp_from_message_group group
  some (push_back boxes idp msg)
