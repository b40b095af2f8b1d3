-- ===== src/Names/Groups.antt =====
-- `GetContextGroup`, `GetResourceGroup`, `GetMessageGroup` and their inverses
-- (libcor/src/cor/services/controller.cpp, libcor/src/cor/services/mailer.cpp).
use pla_co_r.Base.{
  ℕ, ◌+◌, ◌%◌, ◌^◌, Bool, Option, none, some, List, [], ◌∷◌, ◌++◌, ltb, if◌then◌else◌,
}
use pla_co_r.Text.Bytes.{Bytes, codes, bytes_eq, find, contains, substr}
use pla_co_r.Text.Decimal.{to_string, stoul}

unfoldable pub get_context_group : Bytes → Bytes → Bytes
get_context_group app_group context = app_group ++ (codes "$" ++ context)

unfoldable pub is_context_group : Bytes → Bool
is_context_group group = contains (codes "$") group

-- `find("$") + 1`: `npos + 1` is 0.
unfoldable pub get_context_from_context_group : Bytes → Option Bytes
get_context_from_context_group group = elim (find b'$' group) [
  | none ↦ substr 0 group
  | some i ↦ substr (i + 1) group
]

unfoldable pub get_resource_group : Bytes → ℕ → Bytes
get_resource_group app_group idp = app_group ++ (codes "@R" ++ to_string idp)

unfoldable pub is_resource_group : Bytes → Bool
is_resource_group group = contains (codes "@R") group

-- `group.substr(group.find("@") + 2)`: `npos + 2` is 1.
unfoldable pub behind_at : Bytes → Option Bytes
behind_at group = elim (find b'@' group) [ none ↦ substr 1 group | some i ↦ substr (i + 2) group ]

-- `std::stoul`, cut down to an `idp_t`; `none` is an exception.
unfoldable pub idp_of_text : Option Bytes → Option ℕ
idp_of_text none = none
idp_of_text (some s) = elim (stoul s) [ none ↦ none | some v ↦ some (v % 2 ^ 32) ]

unfoldable pub get_idp_from_resource_group : Bytes → Option ℕ
unfolding behind_at idp_of_text
get_idp_from_resource_group group = idp_of_text (behind_at group)

unfoldable pub get_message_group : Bytes → ℕ → Bytes
get_message_group app_group idp = app_group ++ (codes "@M" ++ to_string idp)

unfoldable pub get_idp_from_message_group : Bytes → Option ℕ
unfolding behind_at idp_of_text
get_idp_from_message_group group = idp_of_text (behind_at group)

-- What `HandleMessage` starts for a change of the members of a group: `HandleInitialize`,
-- `HandleInitializeContext`, `CheckReplica` and `EraseResource` of the resource manager, and the
-- end of the loop. `none` is an exception of `GetIdpFromResourceGroup`.
pub data Change : Type 0 where
  initialize initialize_context loop_break : Change
  check_replica : (idp : Option ℕ) → (size : ℕ) → (ctrl : Bytes) → Change
  erase_resource : (idp : Option ℕ) → Change

-- A regular membership, caused by the join of `ctrl`; the group has `size` members.
unfoldable pub handle_join : Bytes → Bytes → ℕ → Bytes → List Change
handle_join app_group group size ctrl =
    (if bytes_eq app_group group then initialize ∷ [] else [])
    ++ ((if is_context_group group then initialize_context ∷ [] else [])
        ++ (if is_resource_group group
            then (if ltb 1 size
                then check_replica (get_idp_from_resource_group group) size ctrl ∷ []
                else [])
            else []))

-- This controller left the group itself.
unfoldable pub handle_self_leave : Bytes → Bytes → List Change
handle_self_leave app_group group =
    (if bytes_eq app_group group then loop_break ∷ [] else [])
    ++ (if is_resource_group group
        then erase_resource (get_idp_from_resource_group group) ∷ []
        else [])
