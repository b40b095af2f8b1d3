-- ===== src/Organizer/Dynamic.antt =====
-- libcor/src/cor/elements/dynamic_organizer.cpp
use pla_co_r.Base.{ℕ, List}
use pla_co_r.Text.Bytes.{Bytes}
use pla_co_r.Organizer.Members
use pla_co_r.Organizer.Members.{Members, Done}

-- `_module` is the file name of the module that the constructor loads.
pub record DynamicOrganizer : Type 0 where
  pub idp : ℕ
  pub module_name : Bytes
  pub members : Members

unfoldable pub with_members :
    {A : Type 0} → DynamicOrganizer → Done Members A → Done DynamicOrganizer A
with_members o d = record {
  acts = d.acts;
  state = record o { members = d.state };
  result = d.result;
}

unfoldable pub join : DynamicOrganizer → ℕ → Bytes → Done DynamicOrganizer Unit
unfolding with_members
join o idp name = with_members o (Members.join o.members idp name)

unfoldable pub leave : DynamicOrganizer → ℕ → Done DynamicOrganizer Unit
unfolding with_members
leave o idp = with_members o (Members.leave o.members idp)

unfoldable pub get_module_name : DynamicOrganizer → Bytes
get_module_name o = o.module_name

unfoldable pub get_total_members : DynamicOrganizer → Done DynamicOrganizer ℕ
unfolding with_members
get_total_members o = with_members o (Members.get_total_members o.members)

unfoldable pub get_member_list : DynamicOrganizer → Done DynamicOrganizer (List ℕ)
unfolding with_members
get_member_list o = with_members o (Members.get_member_list o.members)

unfoldable pub get_idp : DynamicOrganizer → ℕ → Done DynamicOrganizer ℕ
unfolding with_members
get_idp o idm = with_members o (Members.get_idp o.members idm)

unfoldable pub get_idp_of_name : DynamicOrganizer → Bytes → Done DynamicOrganizer ℕ
unfolding with_members
get_idp_of_name o name = with_members o (Members.get_idp_of_name o.members name)

unfoldable pub get_idm : DynamicOrganizer → ℕ → Done DynamicOrganizer ℕ
unfolding with_members
get_idm o idp = with_members o (Members.get_idm o.members idp)

unfoldable pub get_idm_of_name : DynamicOrganizer → Bytes → Done DynamicOrganizer ℕ
unfolding with_members
get_idm_of_name o name = with_members o (Members.get_idm_of_name o.members name)
