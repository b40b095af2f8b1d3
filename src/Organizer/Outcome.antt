-- ===== src/Organizer/Outcome.antt =====
-- Two members of one name (libcor/src/cor/elements/static_organizer.cpp).
use pla_co_r.Base.{ℕ, ◌≡◌, ◌≢◌, refl, sym, ◌∙◌, false, some, [], ◌∷◌, ◌==◌, subst, ap}
use pla_co_r.Text.Bytes.{Bytes, bytes_eq}
use pla_co_r.Text.Decimal.{to_string, to_string-ne-nil}
use pla_co_r.Organizer.Members.{
  Member, emplace, find_if, find, Members, no_members, member_name, join, verified, insert,
}
use pla_co_r.Organizer.Table.{find_if-no}
use pla_co_r.Organizer.Joined.{find-emplace, find-emplace_ne, find-only, ne, join-insert}

member_name_same : (idp : ℕ) (s : Bytes) → s ≢ [] → member_name idp s ≡ s
unfolding member_name
member_name_same idp [] h = absurd (h refl)
member_name_same idp (c ∷ s) h = refl

not_empty : (s : Bytes) → s ≢ [] → bytes_eq s [] ≡ false
not_empty [] h = absurd (h refl)
not_empty (c ∷ s) h = refl

module _ (a b : ℕ) (n : a ≢ b) where
  abbrev first_member : Member
  first_member = record { idp = a; idm = 0; name = to_string b }

  abbrev second_member : Member
  second_member = record { idp = b; idm = 1; name = to_string b }

  abbrev first_joined : Members
  first_joined = record { table = first_member ∷ []; next_idm = 1 }

  second_joins :
      (join first_joined b []).state
      ≡ record { table = emplace (first_member ∷ []) second_member; next_idm = 2 }
  unfolding insert member_name find find_if
  second_joins =
      join-insert first_joined b [] (find_if-no (λ y. y.idp == b) first_member [] (ne a b n)) (
        find_if-no (λ y. bytes_eq y.name []) first_member []
          (not_empty (to_string b) (to_string-ne-nil b)))

  first_joins : (join no_members a (to_string b)).state ≡ first_joined
  unfolding join verified insert no_members emplace find find_if
  first_joins =
      ap (λ s. record { table = record { idp = a; idm = 0; name = s } ∷ []; next_idm = 1 })
        (member_name_same a (to_string b) (to_string-ne-nil b))

-- Names are not kept unique: where one member joins a new group under the text of the identifier
-- of another, and that one joins without a name, both joins return and both have the same name.
pub names_collide :
    (a b : ℕ) (o o2 : Members)
    → a ≢ b
    → o ≡ (join no_members a (to_string b)).state
    → o2 ≡ (join o b []).state
    → (find o2.table a ≡ some (record { idp = a; idm = 0; name = to_string b }))
      × (find o2.table b ≡ some (record { idp = b; idm = 1; name = to_string b }))
unfolding find find_if
names_collide a b o o2 n e f =
    subst
      (λ z.
        (find z.table a ≡ some (first_member a b n))
        × (find z.table b ≡ some (second_member a b n)))
      (sym (f ∙ ap (λ y. (join y b []).state) (e ∙ first_joins a b n) ∙ second_joins a b n))
      (
        find-emplace_ne (second_member a b n) a n (first_member a b n ∷ [])
            ∙ find-only (first_member a b n),
        find-emplace (second_member a b n) (first_member a b n ∷ [])
            (find_if-no (λ y. y.idp == b) (first_member a b n) [] (ne a b n)),
      )
