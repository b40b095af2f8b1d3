-- ===== src/Organizer/Members.antt =====
-- What `StaticOrganizer` and `DynamicOrganizer` have in common
-- (libcor/src/cor/elements/static_organizer.cpp, libcor/src/cor/elements/dynamic_organizer.cpp):
-- the map of the members from their identifiers, and the counter of their numbers.
use mathlib.Core.List.{map}
use pla_co_r.Base.{
  ℕ, ◌+◌, ◌%◌, ◌^◌, Bool, Option, none, some, List, [], ◌∷◌, length, ltb, ◌==◌, if◌then◌else◌,
}
use pla_co_r.Text.Bytes.{Bytes, bytes_eq}
use pla_co_r.Text.Decimal.{to_string}

-- An entry `idp ↦ (idm, name)` of the map.
pub record Member : Type 0 where
  pub idp : ℕ
  pub idm : ℕ
  pub name : Bytes

-- The entries in the order of their keys.
abbrev pub Table : Type 0
Table = List Member

-- A key that is there already keeps its entry.
unfoldable pub emplace : Table → Member → Table
emplace [] m = m ∷ []
emplace (x ∷ xs) m =
    let rest = emplace xs m in
    if ltb m.idp x.idp then m ∷ (x ∷ xs) else if m.idp == x.idp then x ∷ xs else x ∷ rest

unfoldable pub erase : Table → ℕ → Table
erase [] k = []
erase (x ∷ xs) k = let rest = erase xs k in if x.idp == k then xs else x ∷ rest

-- `std::find_if`; `none` is `end()`.
unfoldable pub find_if : (Member → Bool) → Table → Option Member
find_if p [] = none
find_if p (x ∷ xs) = let rest = find_if p xs in if p x then some x else rest

-- `_members.find`.
unfoldable pub find : Table → ℕ → Option Member
find t k = find_if (λ m. m.idp == k) t

-- The calls of the consistency object of the group, of the controller and of the mailer.
pub data Act : Type 0 where
  acquire_read release_read acquire_write release_write : Act
  create_static_group : (comm total_members : ℕ) → Act
  send_message : (idp dest : ℕ) → Act

pub data Error : Type 0 where
  already_joined name_not_unique does_not_exist out_of_range : Error

pub data Result (A : Type 0) : Type 0 where
  returned : A → Result A
  threw : Error → Result A

-- A call that has ended: what it did, the state it left, and how it ended.
pub record Done (S A : Type 0) : Type 0 where
  pub acts : List Act
  pub state : S
  pub result : Result A

pub record Members : Type 0 where
  pub table : Table
  pub next_idm : ℕ

unfoldable pub no_members : Members
no_members = record { table = []; next_idm = 0 }

-- The name of a member that has none is the text of its identifier.
unfoldable pub member_name : ℕ → Bytes → Bytes
member_name idp [] = to_string idp
member_name idp (c ∷ s) = c ∷ s

unfoldable pub insert : Members → ℕ → Bytes → Members
insert o idp name = record {
  table = emplace o.table (record { idp = idp; idm = o.next_idm; name = member_name idp name });
  next_idm = (o.next_idm + 1) % 2 ^ 32;
}

-- The end of `Join`, by the member with the identifier and the one with the name, if there are
-- such. An exception leaves without the release.
unfoldable pub verified : Members → ℕ → Bytes → Option Member → Option Member → Done Members Unit
verified o idp name (some m) same_name = record {
  acts = acquire_write ∷ [];
  state = o;
  result = threw already_joined;
}
verified o idp name none (some m) = record {
  acts = acquire_write ∷ [];
  state = o;
  result = threw name_not_unique;
}
verified o idp name none none = record {
  acts = acquire_write ∷ (release_write ∷ []);
  state = insert o idp name;
  result = returned tt;
}

unfoldable pub join : Members → ℕ → Bytes → Done Members Unit
unfolding verified
join o idp name =
    verified o idp name (find o.table idp) (find_if (λ m. bytes_eq m.name name) o.table)

unfoldable pub leave : Members → ℕ → Done Members Unit
leave o idp = record {
  acts = acquire_write ∷ (release_write ∷ []);
  state = record o { table = erase o.table idp };
  result = returned tt;
}

unfoldable pub reading : {A : Type 0} → Members → A → Done Members A
reading o v = record { acts = acquire_read ∷ (release_read ∷ []); state = o; result = returned v }

-- What is read from the member that was found, or the exception, which leaves without the release.
unfoldable pub look : {A : Type 0} → Members → (Member → A) → Error → Option Member → Done Members A
unfolding reading
look o f e (some m) = reading o (f m)
look o f e none = record { acts = acquire_read ∷ []; state = o; result = threw e }

unfoldable pub get_total_members : Members → Done Members ℕ
get_total_members o = reading o (length o.table)

unfoldable pub get_member_list : Members → Done Members (List ℕ)
get_member_list o = reading o (map (λ m. m.idp) o.table)

unfoldable pub get_idp : Members → ℕ → Done Members ℕ
unfolding look
get_idp o idm = look o (λ m. m.idp) does_not_exist (find_if (λ m. m.idm == idm) o.table)

unfoldable pub get_idp_of_name : Members → Bytes → Done Members ℕ
unfolding look
get_idp_of_name o name =
    look o (λ m. m.idp) does_not_exist (find_if (λ m. bytes_eq m.name name) o.table)

-- `_members.at`.
unfoldable pub get_idm : Members → ℕ → Done Members ℕ
unfolding look
get_idm o idp = look o (λ m. m.idm) out_of_range (find o.table idp)

unfoldable pub get_idm_of_name : Members → Bytes → Done Members ℕ
unfolding look
get_idm_of_name o name =
    look o (λ m. m.idm) does_not_exist (find_if (λ m. bytes_eq m.name name) o.table)
