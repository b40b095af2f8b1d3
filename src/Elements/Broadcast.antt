-- ===== src/Elements/Broadcast.antt =====
-- Whom a broadcast reaches.
use mathlib.Core.List.{append_assoc, append-nil, map}
use pla_co_r.Base.{
  ℕ, ◌^◌, ◌<◌, ◌≡◌, ◌≢◌, refl, sym, ap, subst, ◌∙◌, Bool, true, false, Option, none, some, List, [],
  ◌∷◌, ◌++◌, All, All-imp, length, ◌==◌, ==_iff, ◌>>=◌, if◌then◌else◌, Bool-cases, inl, inr, arith,
}
use pla_co_r.Text.Bytes.{Bytes, Lacks}
use pla_co_r.Names.Groups.{get_message_group}
use pla_co_r.Mail.Mailbox.{Message, Mailboxes, box, put, handle_read}
use pla_co_r.Mail.Outgoing.{Packet, packet}
use pla_co_r.Mail.Order.{sent_arrives}
use pla_co_r.Organizer.Members.{Member, Table, find, find_if, Members, no_members, Result, returned}
use pla_co_r.Organizer.Members
use pla_co_r.Organizer.Table.{Valid}
use pla_co_r.Organizer.History.{Change, changes, changes-Fine}
use pla_co_r.Organizer.Static.{StaticOrganizer, get_member_list, with_members}
use pla_co_r.Elements.Mailbox.{send_each, broadcast, delivered, and_then, map_result}

-- One copy of the message for each time that the identifier is among the destinations.
abbrev copies : ℕ → List ℕ → Message → List Message
copies k [] m = []
copies k (d ∷ ds) m = if d == k then m ∷ copies k ds m else copies k ds m

box-put :
    (boxes : Mailboxes) (d k : ℕ) (ms : List Message)
    → box (put boxes d ms) k ≡ (if k == d then ms else box boxes k)
unfolding box put
box-put boxes d k ms = ground arith

flip_eq : (d k : ℕ) → (d == k) ≡ (k == d)
flip_eq d k = ground arith

-- A copy more at the end of one mailbox is a copy more at the front of those to come.
copy_there :
    (f : ℕ → List Message) (d k : ℕ) (b : Bool) (m : Message) (c : List Message)
    → (k ≡ d → b ≡ true)
    → (if k == d then f d ++ m ∷ [] else f k) ++ (if b then c else [])
      ≡ f k ++ (if b then if d == k then m ∷ c else c else [])
copy_there f d k b m c h = elim (Bool-cases (k == d)) [
  | inl s ↦
      let same = (==_iff k d).0 s in
      rw (flip_eq d k, s, h same)
        (append_assoc (f d) (m ∷ []) c ∙ ap (λ x. f x ++ m ∷ c) (sym same))
  | inr s ↦ rw (flip_eq d k, s) refl
]

no_copy :
    (xs : List Message) (d k : ℕ) (b : Bool) (m : Message) (c : List Message)
    → (k ≡ d → b ≡ false)
    → xs ++ (if b then c else []) ≡ xs ++ (if b then if d == k then m ∷ c else c else [])
no_copy xs d k b m c h = elim (Bool-cases (k == d)) [
  | inl s ↦ rw (h ((==_iff k d).0 s)) refl
  | inr s ↦ rw (flip_eq d k, s) refl
]

no_more : (xs : List Message) (b : Bool) → xs ≡ xs ++ (if b then [] else [])
no_more xs true = sym (append-nil xs)
no_more xs false = sym (append-nil xs)

module _ (write : Message → Bytes) (read : Bytes → Option Message) (app : Bytes) (idp : ℕ)
    (joined : List Bytes → Bool) (msg : Message) (law : (m : Message) → read (write m) ≡ some m)
    (lacks : Lacks b'@' app) where
  abbrev sent : Message
  sent = record msg { sender = idp }

  abbrev here : ℕ → Bool
  here k = joined (get_message_group app k ∷ [])

  -- The mailboxes behind the packets to these destinations.
  abbrev Reached : List ℕ → Mailboxes → Mailboxes → Type 0
  Reached dests boxes v =
      (k : ℕ) → box v k ≡ box boxes k ++ (if here k then copies k dests sent else [])

  pub delivered-here :
      (d : ℕ) (ps : List Packet) (boxes : Mailboxes)
      → here d ≡ true
      → d < 2 ^ 32
      → delivered read joined (packet write app idp d msg ∷ ps) boxes
        ≡ delivered read joined ps (put boxes d (box boxes d ++ sent ∷ []))
  unfolding delivered packet
  delivered-here d ps boxes e l =
      ap (λ o. o >>= λ b. delivered read joined ps b)
        (ap
            (λ b.
              if b
              then handle_read read boxes (packet write app idp d msg).0
                  (packet write app idp d msg).1
              else some boxes)
            e
          ∙ sent_arrives write read app idp d msg boxes law lacks l)

  delivered-away :
      (d : ℕ) (ps : List Packet) (boxes : Mailboxes)
      → here d ≡ false
      → delivered read joined (packet write app idp d msg ∷ ps) boxes
        ≡ delivered read joined ps boxes
  unfolding delivered packet
  delivered-away d ps boxes e =
      ap
        (λ b.
          (if b
            then handle_read read boxes (packet write app idp d msg).0
                (packet write app idp d msg).1
            else some boxes)
          >>= λ c. delivered read joined ps c)
        e

  each :
      (dests : List ℕ) (boxes : Mailboxes)
      → All (λ d. d < 2 ^ 32) dests
      → (v : Mailboxes) × (delivered read joined (send_each write app idp dests msg) boxes ≡ some v)
        × Reached dests boxes v
  unfolding delivered send_each
  each [] boxes h = (boxes, refl, λ k. no_more (box boxes k) (here k))
  each (d ∷ ds) boxes h = elim (Bool-cases (here d)) [
    | inl e ↦
        let (v, f, g) = each ds (put boxes d (box boxes d ++ sent ∷ [])) h.1 in
        (
          v,
          delivered-here d (send_each write app idp ds msg) boxes e h.0 ∙ f,
          λ k.
              g k
              ∙ ap (λ xs. xs ++ (if here k then copies k ds sent else []))
                  (box-put boxes d k (box boxes d ++ sent ∷ []))
              ∙ copy_there (box boxes) d k (here k) sent (copies k ds sent) (λ s. ap here s ∙ e),
        )
    | inr e ↦
        let (v, f, g) = each ds boxes h.1 in
        (
          v,
          delivered-away d (send_each write app idp ds msg) boxes e ∙ f,
          λ k.
              g k ∙ no_copy (box boxes k) d k (here k) sent (copies k ds sent) (λ s. ap here s ∙ e),
        )
  ]

abbrev pub is_member : StaticOrganizer → ℕ → Bool
is_member o k = elim (find o.members.table k) [ some m ↦ true | none ↦ false ]

absent :
    (t : Table) (k : ℕ) (m : Message)
    → All (λ y. y.idp ≢ k) t
    → copies k (map (λ x. x.idp) t) m ≡ []
absent [] k m h = refl
absent (x ∷ xs) k m h = ground (arith, h.0, absent xs k m h.1)

-- A member is in the list once.
one_copy :
    (n : ℕ) (t : Table) (k : ℕ) (m : Message)
    → Valid n t
    → copies k (map (λ x. x.idp) t) m
      ≡ (if elim (find t k) as (λ x. Bool) [ some y ↦ true | none ↦ false ] then m ∷ [] else [])
unfolding find find_if
one_copy n [] k m h = refl
one_copy n (x ∷ xs) k m h = elim (Bool-cases (x.idp == k)) [
  | inl e ↦ rw e (
      ap (λ l. m ∷ l)
        (absent xs k m (
          All-imp (λ y. (x.idp < y.idp) × (y.idm ≢ x.idm)) (λ y. y.idp ≢ k)
            (λ y q f. omega (arith, q.0, f, (==_iff x.idp k).0 e)) xs h.0)))
  | inr e ↦ rw e (one_copy n xs k m h.1.1.1)
]

list_of :
    (write : Message → Bytes) (app : Bytes) (idp : ℕ) (o : StaticOrganizer) (msg : Message)
    → (broadcast write app idp o msg).result
      ≡ returned (send_each write app idp (map (λ x. x.idp) o.members.table) msg)
unfolding broadcast and_then map_result get_member_list with_members Members.get_member_list
    pla_co_r.Organizer.Members.reading
list_of write app idp o msg = refl

-- `Broadcast` in a group that any joins and leaves have made, fewer than 2^32, returns; and once the
-- communication system has handed its packets to a pod, each mailbox of a member whose message group
-- the pod has joined has the message once more, at its end and with the sender set, the sender's own
-- mailbox among them, and all other mailboxes are as they were. The archive reads back what it writes,
-- identifiers have 32 bits, and the name of the application has no `@`.
pub broadcast_reaches :
    (write : Message → Bytes) (read : Bytes → Option Message) (app : Bytes) (idp : ℕ)
    (joined : List Bytes → Bool) (msg : Message) (o : StaticOrganizer) (cs : List Change)
    (boxes : Mailboxes)
    → ((m : Message) → read (write m) ≡ some m)
    → Lacks b'@' app
    → o.members ≡ changes cs no_members
    → length cs < 2 ^ 32
    → All (λ d. d < 2 ^ 32) (map (λ x. x.idp) o.members.table)
    → (ps : List Packet) × (v : Mailboxes) × ((broadcast write app idp o msg).result ≡ returned ps)
      × (delivered read joined ps boxes ≡ some v)
      × ((k : ℕ)
          → box v k
            ≡ box boxes k
              ++ (if joined (get_message_group app k ∷ [])
                  then if is_member o k then record msg { sender = idp } ∷ [] else []
                  else []))
unfolding no_members
broadcast_reaches write read app idp joined msg o cs boxes law lacks e l small =
    let dests = map (λ x. x.idp) o.members.table in
    let fine = changes-Fine 0 cs no_members (omega (arith, l)) (tt, omega arith) in
    let valid : Valid (changes cs no_members).next_idm o.members.table =
      subst (λ u. Valid (changes cs no_members).next_idm u.table) (sym e) fine.0 in
    let (v, f, g) = each write read app idp joined msg law lacks dests boxes small in
    (
      send_each write app idp dests msg,
      v,
      list_of write app idp o msg,
      f,
      λ k.
          g k
          ∙ ap (λ c. box boxes k ++ (if joined (get_message_group app k ∷ []) then c else []))
              (one_copy (changes cs no_members).next_idm o.members.table k
                (record msg { sender = idp }) valid),
    )
