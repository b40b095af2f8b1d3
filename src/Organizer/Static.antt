-- ===== src/Organizer/Static.antt =====
-- libcor/src/cor/elements/static_organizer.cpp
use pla_co_r.Base.{ℕ, List, [], ◌∷◌, ◌++◌, ◌==◌, if◌then◌else◌}
use pla_co_r.Text.Bytes.{Bytes}
use pla_co_r.Organizer.Members
use pla_co_r.Organizer.Members.{
  Members, no_members, Done, Act, Result, returned, threw, create_static_group, send_message,
}

pub record StaticOrganizer : Type 0 where
  pub idp : ℕ
  pub total_members : ℕ
  pub parent : ℕ
  pub members : Members

unfoldable pub static_organizer : ℕ → ℕ → ℕ → StaticOrganizer
static_organizer idp total_members parent = record {
  idp = idp;
  total_members = total_members;
  parent = parent;
  members = no_members;
}

-- What follows the wait of `CreateStaticGroup`, for a member with the number `idm`: the first member
-- of a group with a parent sends it a message.
unfoldable pub notify_parent : StaticOrganizer → ℕ → List Act
notify_parent o idm =
    if idm == 0 then (if o.parent == 0 then [] else send_message o.idp o.parent ∷ []) else []

unfoldable pub with_members :
    {A : Type 0} → StaticOrganizer → Done Members A → Done StaticOrganizer A
with_members o d = record {
  acts = d.acts;
  state = record o { members = d.state };
  result = d.result;
}

-- `Join` up to the wait of `CreateStaticGroup`.
unfoldable pub begin_join : StaticOrganizer → ℕ → Bytes → Done StaticOrganizer Unit
unfolding with_members
begin_join o idp name =
    let d = with_members o (Members.join o.members idp name) in
    elim d.result [
      | threw e ↦ d
      | returned v ↦ record d { acts = d.acts ++ create_static_group o.idp o.total_members ∷ [] }
    ]

-- A whole call of `Join`, one that throws or whose wait ends.
unfoldable pub join : StaticOrganizer → ℕ → Bytes → Done StaticOrganizer Unit
unfolding begin_join notify_parent
join o idp name =
    let d = begin_join o idp name in
    elim d.result [
      | threw e ↦ d
      | returned v ↦ record d { acts = d.acts ++ notify_parent o o.members.next_idm }
    ]

unfoldable pub leave : StaticOrganizer → ℕ → Done StaticOrganizer Unit
unfolding with_members
leave o idp = with_members o (Members.leave o.members idp)

unfoldable pub get_parent : StaticOrganizer → ℕ
get_parent o = o.parent

unfoldable pub get_total_members : StaticOrganizer → Done StaticOrganizer ℕ
unfolding with_members
get_total_members o = with_members o (Members.get_total_members o.members)

unfoldable pub get_member_list : StaticOrganizer → Done StaticOrganizer (List ℕ)
unfolding with_members
get_member_list o = with_members o (Members.get_member_list o.members)

unfoldable pub get_idp : StaticOrganizer → ℕ → Done StaticOrganizer ℕ
unfolding with_members
get_idp o idm = with_members o (Members.get_idp o.members idm)

unfoldable pub get_idp_of_name : StaticOrganizer → Bytes → Done StaticOrganizer ℕ
unfolding with_members
get_idp_of_name o name = with_members o (Members.get_idp_of_name o.members name)

unfoldable pub get_idm : StaticOrganizer → ℕ → Done StaticOrganizer ℕ
unfolding with_members
get_idm o idp = with_members o (Members.get_idm o.members idp)

unfoldable pub get_idm_of_name : StaticOrganizer → Bytes → Done StaticOrganizer ℕ
unfolding with_members
get_idm_of_name o name = with_members o (Members.get_idm_of_name o.members name)
