-- ===== src/Organizer/History.antt =====
-- Any joins and leaves of a new group.
use mathlib.Core.List.{cons-ne-nil}
use pla_co_r.Base.{
  ℕ, suc, ◌+◌, ◌%◌, ◌^◌, ◌<◌, ◌≤◌, ◌≡◌, ◌≢◌, ◌↔◌, refl, Option, none, some, List, [], ◌∷◌, length,
  subst, arith,
}
use pla_co_r.Text.Bytes.{Bytes}
use pla_co_r.Text.Decimal.{to_string-ne-nil}
use pla_co_r.Organizer.Members.{
  Member, find, Members, no_members, member_name, returned, join, leave, verified, insert, get_idp,
  get_idm,
}
use pla_co_r.Organizer.Table.{Valid, emplace-Valid, erase-Valid}
use pla_co_r.Organizer.Lookup.{get_idm-get_idp, get_idp-get_idm}

-- A call that changes the members.
pub data Change : Type 0 where
  joining : (idp : ℕ) → (name : Bytes) → Change
  leaving : (idp : ℕ) → Change

unfoldable pub change : Change → Members → Members
change (joining idp name) o = (join o idp name).state
change (leaving idp) o = (leave o idp).state

unfoldable pub changes : List Change → Members → Members
changes [] o = o
changes (c ∷ cs) o = changes cs (change c o)

pub member_name_ne_nil : (idp : ℕ) (name : Bytes) → member_name idp name ≢ []
unfolding member_name
member_name_ne_nil idp [] = to_string-ne-nil idp
member_name_ne_nil idp (c ∷ s) = cons-ne-nil c s

next : (n k : ℕ) → n ≤ k → suc k < 2 ^ 32 → (n + 1) % 2 ^ 32 ≡ suc n
next n k h l = omega arith

-- The table is valid, and the counter has not run over.
abbrev pub Fine : ℕ → Members → Type 0
Fine k o = Valid o.next_idm o.table × (o.next_idm ≤ k)

insert-Fine :
    (k idp : ℕ) (name : Bytes) (o : Members)
    → suc k < 2 ^ 32
    → Fine k o
    → find o.table idp ≡ none
    → Fine (suc k) (insert o idp name)
unfolding insert
insert-Fine k idp name o l h e = rw (next o.next_idm k h.1 l) (
  emplace-Valid o.next_idm o.table _ h.0 e refl (member_name_ne_nil idp name),
  omega (arith, h.1),
)

verified-Fine :
    (k idp : ℕ) (name : Bytes) (o : Members) (a b : Option Member)
    → suc k < 2 ^ 32
    → Fine k o
    → find o.table idp ≡ a
    → Fine (suc k) (verified o idp name a b).state
unfolding verified
verified-Fine k idp name o (some m) b l h e = (h.0, omega (arith, h.1))
verified-Fine k idp name o none (some m) l h e = (h.0, omega (arith, h.1))
verified-Fine k idp name o none none l h e = insert-Fine k idp name o l h e

change-Fine :
    (k : ℕ) (c : Change) (o : Members) → suc k < 2 ^ 32 → Fine k o → Fine (suc k) (change c o)
unfolding change join leave
change-Fine k (leaving idp) o l h = (erase-Valid o.next_idm o.table idp h.0, omega (arith, h.1))
change-Fine k (joining idp name) o l h = verified-Fine k idp name o _ _ l h refl

pub changes-Fine :
    (k : ℕ) (cs : List Change) (o : Members)
    → length cs + k < 2 ^ 32
    → Fine k o
    → Fine (length cs + k) (changes cs o)
unfolding changes
changes-Fine k [] o l h = subst (λ i. Fine i o) (omega arith) h
changes-Fine k (c ∷ cs) o l h =
    subst (λ i. Fine i (changes cs (change c o))) (omega arith)
      (changes-Fine (suc k) cs (change c o) (omega (arith, l))
        (change-Fine k c o (omega (arith, l)) h))

-- After any joins and leaves of a new group, fewer than 2^32, numbers and identifiers of the
-- members are inverse to each other: `GetIdm` of an identifier returns a number just if `GetIdp`
-- of the number returns the identifier.
pub idm_inverse :
    (cs : List Change) (idp idm : ℕ)
    → length cs < 2 ^ 32
    → ((get_idm (changes cs no_members) idp).result ≡ returned idm)
      ↔ ((get_idp (changes cs no_members) idm).result ≡ returned idp)
unfolding no_members
idm_inverse cs idp idm l =
    let h = changes-Fine 0 cs no_members (omega (arith, l)) (tt, omega arith) in
    (
      get_idm-get_idp (changes cs no_members) _ h.0 idp idm,
      get_idp-get_idm (changes cs no_members) _ h.0 idp idm,
    )
