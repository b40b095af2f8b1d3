-- ===== src/Organizer/Tests.antt =====
-- A group of three resources.
use pla_co_r.Base.{suc, ◌≡◌, ◌↔◌, List, [], ◌∷◌, refl, length, ◌==◌, if◌then◌else◌, arith, total}
use pla_co_r.Text.Bytes.{codes}
use pla_co_r.Text.Decimal.{to_string, digits}
use pla_co_r.Organizer.Members.{
  Members, no_members, find, find_if, verified, insert, emplace, erase, leave, join, get_idp,
  get_idm, get_idp_of_name, get_idm_of_name, get_total_members, returned, member_name,
}
use pla_co_r.Organizer.Static.{static_organizer}
use pla_co_r.Organizer.History
use pla_co_r.Organizer.History.{changes, idm_inverse}
use pla_co_r.Organizer.Joined.{join_then_look}
use pla_co_r.Organizer.Parent
use pla_co_r.Organizer.Parent.{new_group, acts_of, all_returned, sent, is_first, one_message}

abbrev three : List History.Change
three =
    History.joining 7 (codes "root")
    ∷ (History.joining 5 [] ∷ (History.leaving 7 ∷ (History.joining 9 (codes "last") ∷ [])))

idm_inverse_example :
    ((get_idm (changes three no_members) 9).result ≡ returned 2)
    ↔ ((get_idp (changes three no_members) 2).result ≡ returned 9)
idm_inverse_example = idm_inverse three 9 2 (omega arith)

abbrev group : Members
group = changes three no_members

join_then_look_example :
    ((get_idm (join group 4 (codes "new")).state 4).result ≡ returned group.next_idm)
    × (((get_idp (join group 4 (codes "new")).state group.next_idm).result ≡ returned 4)
        × (((get_idp_of_name (join group 4 (codes "new")).state (codes "new")).result ≡ returned 4)
            × (((get_idm_of_name (join group 4 (codes "new")).state (codes "new")).result
                  ≡ returned group.next_idm)
                × ((get_total_members (join group 4 (codes "new")).state).result
                    ≡ returned (suc (length group.table))))))
unfolding join changes History.change find find_if verified insert leave erase emplace no_members
    member_name to_string digits
join_then_look_example =
    join_then_look three 4 b'n' (codes "ew") group (join group 4 (codes "new")).state (omega arith)
      refl refl refl

-- The second member leaves the wait first, and the first one after it.
abbrev spawned : List Parent.Change
spawned =
    Parent.joining 7 (codes "root")
    ∷ Parent.joining 7 []
    ∷ Parent.joining 9 (codes "last")
    ∷ Parent.passing 1
    ∷ Parent.leaving 7
    ∷ Parent.passing 0
    ∷ []

one_message_example :
    let g = new_group (static_organizer 3 2 12) in
    total (sent 12) (acts_of spawned g)
    ≡ (if total is_first (all_returned spawned g) == 0 then 0 else 1)
one_message_example = one_message spawned 3 2 12 (λ e. omega (arith, e)) (omega arith)
