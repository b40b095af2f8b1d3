-- ===== src/Organizer/Parent.antt =====
-- The message by which a new group answers to the resource that spawned it
-- (libcor/src/cor/elements/static_organizer.cpp).
use pla_co_r.Base.{
  ℕ, ◌+◌, ◌%◌, ◌^◌, ◌<◌, ◌≤◌, ◌≡◌, ◌≢◌, refl, sym, ◌∙◌, Option, none, some, List, [], ◌∷◌, ◌++◌,
  length, get_elem?, without, ◌==◌, if◌then◌else◌, subst, arith, total, total-append, total-without,
}
use pla_co_r.Text.Bytes.{Bytes, bytes_eq}
use pla_co_r.Organizer.Members
use pla_co_r.Organizer.Members.{
  Member, Members, no_members, Done, Act, Result, returned, threw, verified, insert, find, find_if,
  acquire_read, release_read, acquire_write, release_write, create_static_group, send_message,
}
use pla_co_r.Organizer.Static
use pla_co_r.Organizer.Static.{
  StaticOrganizer, static_organizer, begin_join, notify_parent, with_members,
}

-- Joins and leaves, in the order in which the writes are acquired, and the joins that leave the wait
-- of `CreateStaticGroup`, by their place among those that wait.
pub data Change : Type 0 where
  joining : (idp : ℕ) → (name : Bytes) → Change
  leaving : (idp : ℕ) → Change
  passing : (k : ℕ) → Change

-- The organizer, with the numbers of the members whose joins wait.
pub record Group : Type 0 where
  pub organizer : StaticOrganizer
  pub waiting : List ℕ

abbrev pub new_group : StaticOrganizer → Group
new_group o = record { organizer = o; waiting = [] }

-- What a change does, and the numbers of the members whose joins return.
pub record Effect : Type 0 where
  pub acts : List Act
  pub group : Group
  pub returned_idms : List ℕ

abbrev begun : Group → Done StaticOrganizer Unit → Result Unit → Effect
begun g d (threw e) = record {
  acts = d.acts;
  group = record g { organizer = d.state };
  returned_idms = [];
}
begun g d (returned v) = record {
  acts = d.acts;
  group = record { organizer = d.state; waiting = g.waiting ++ g.organizer.members.next_idm ∷ [] };
  returned_idms = [];
}

abbrev passed : Group → ℕ → Option ℕ → Effect
passed g k none = record { acts = []; group = g; returned_idms = [] }
passed g k (some idm) = record {
  acts = notify_parent g.organizer idm;
  group = record g { waiting = without g.waiting k };
  returned_idms = idm ∷ [];
}

unfoldable pub change : Change → Group → Effect
change (joining idp name) g = let d = begin_join g.organizer idp name in begun g d d.result
change (leaving idp) g =
    let d = Static.leave g.organizer idp in
    record { acts = d.acts; group = record g { organizer = d.state }; returned_idms = [] }
change (passing k) g = passed g k (get_elem? g.waiting k)

unfoldable pub acts_of : List Change → Group → List Act
acts_of [] g = []
acts_of (c ∷ cs) g = (change c g).acts ++ acts_of cs (change c g).group

unfoldable pub all_returned : List Change → Group → List ℕ
all_returned [] g = []
all_returned (c ∷ cs) g = (change c g).returned_idms ++ all_returned cs (change c g).group

-- Is this the message to `parent`?
abbrev pub sent : ℕ → Act → ℕ
sent parent (send_message idp dest) = if dest == parent then 1 else 0
sent parent _ = 0

abbrev pub is_first : ℕ → ℕ
is_first idm = if idm == 0 then 1 else 0

abbrev fresh : Members → ℕ
fresh m = is_first m.next_idm

-- The first members that have not returned from their join, the one to come among them.
abbrev firsts : Group → ℕ
firsts g = total is_first g.waiting + fresh g.organizer.members

-- What a change keeps.
record Keeps (g : Group) (e : Effect) : Type 0 where
  parent : e.group.organizer.parent ≡ g.organizer.parent
  next : e.group.organizer.members.next_idm ≤ g.organizer.members.next_idm + 1
  messages : total (sent g.organizer.parent) e.acts ≡ total is_first e.returned_idms
  less : total is_first e.returned_idms + firsts e.group ≤ firsts g

-- A join either changes nothing, or takes the next number and waits.
data Begins (o : StaticOrganizer) (d : Done StaticOrganizer Unit) : Type 0 where
  no_join :
      (e : Members.Error)
      → d ≡ record { acts = acquire_write ∷ []; state = o; result = threw e }
      → Begins o d
  new_join :
      (s : StaticOrganizer)
      → s.parent ≡ o.parent
      → s.members.next_idm ≡ (o.members.next_idm + 1) % 2 ^ 32
      → d ≡ record {
        acts = acquire_write ∷ release_write ∷ create_static_group o.idp o.total_members ∷ [];
        state = s;
        result = returned tt;
      }
      → Begins o d

begin_join-Begins :
    (o : StaticOrganizer) (idp : ℕ) (name : Bytes) → Begins o (begin_join o idp name)
unfolding begin_join with_members Members.join verified insert
begin_join-Begins o idp name =
    go (find o.members.table idp) (find_if (λ m. bytes_eq m.name name) o.members.table)
  where
    go :
        (a b : Option Member)
        → Begins o (
            let d = with_members o (verified o.members idp name a b) in
            elim d.result [
              | threw e ↦ d
              | returned v ↦ record d {
                acts = d.acts ++ create_static_group o.idp o.total_members ∷ [];
              }
            ])
    go (some m) b = no_join _ refl
    go none (some m) = no_join _ refl
    go none none = new_join _ refl refl refl

begun-Keeps :
    (g : Group) (d : Done StaticOrganizer Unit)
    → g.organizer.members.next_idm + 1 < 2 ^ 32
    → Begins g.organizer d
    → Keeps g (begun g d d.result)
unfolding total
begun-Keeps g d l (no_join e q) =
    subst (λ z. Keeps g (begun g z z.result)) (sym q)
      (record { parent = refl; next = omega arith; messages = refl; less = omega arith })
begun-Keeps g d l (new_join s p k q) =
    subst (λ z. Keeps g (begun g z z.result)) (sym q)
      (record {
        parent = p;
        next = omega (arith, k, l);
        messages = refl;
        less = omega (
          arith,
          total-append is_first g.waiting (g.organizer.members.next_idm ∷ []),
          not_first s k,
        );
      })
  where
    not_first :
        (s : StaticOrganizer)
        → s.members.next_idm ≡ (g.organizer.members.next_idm + 1) % 2 ^ 32
        → fresh s.members ≡ 0
    not_first s k = ground (arith, k, l)

leave-Keeps : (g : Group) (idp : ℕ) → Keeps g (change (leaving idp) g)
unfolding change Static.leave with_members Members.leave total
leave-Keeps g idp = record {
  parent = refl;
  next = omega arith;
  messages = refl;
  less = omega arith;
}

pass-Keeps : (g : Group) (k : ℕ) → g.organizer.parent ≢ 0 → Keeps g (change (passing k) g)
unfolding change total notify_parent
pass-Keeps g k h = go (get_elem? g.waiting k) refl
  where
    go : (o : Option ℕ) → get_elem? g.waiting k ≡ o → Keeps g (passed g k o)
    go none e = record { parent = refl; next = omega arith; messages = refl; less = omega arith }
    go (some idm) e = record {
      parent = refl;
      next = omega arith;
      messages = ground (arith, h);
      less = omega (arith, total-without is_first g.waiting k idm e);
    }

change-Keeps :
    (c : Change) (g : Group)
    → g.organizer.parent ≢ 0
    → g.organizer.members.next_idm + 1 < 2 ^ 32
    → Keeps g (change c g)
unfolding change
change-Keeps (joining idp name) g h l =
    begun-Keeps g (begin_join g.organizer idp name) l (begin_join-Begins g.organizer idp name)
change-Keeps (leaving idp) g h l = leave-Keeps g idp
change-Keeps (passing k) g h l = pass-Keeps g k h

-- The messages of a history are those of the first members that return, and these are at most those
-- that have not returned yet.
history :
    (cs : List Change) (g : Group) (parent : ℕ)
    → g.organizer.parent ≡ parent
    → parent ≢ 0
    → g.organizer.members.next_idm + length cs < 2 ^ 32
    → (total (sent parent) (acts_of cs g) ≡ total is_first (all_returned cs g))
      × (total is_first (all_returned cs g) ≤ firsts g)
unfolding acts_of all_returned total
history [] g parent e h l = (refl, omega arith)
history (c ∷ cs) g parent e h l =
    let k = change-Keeps c g (subst (λ z. z ≢ 0) (sym e) h) (omega (arith, l)) in
    let (m, b) = history cs (change c g).group parent (k.parent ∙ e) h (omega (arith, l, k.next)) in
    let own =
      subst (λ z. total (sent z) (change c g).acts ≡ total is_first (change c g).returned_idms) e
        k.messages in
    (
      omega (
        arith,
        m,
        own,
        total-append (sent parent) (change c g).acts (acts_of cs (change c g).group),
        total-append is_first (change c g).returned_idms (all_returned cs (change c g).group),
      ),
      omega (
        arith,
        b,
        k.less,
        total-append is_first (change c g).returned_idms (all_returned cs (change c g).group),
      ),
    )

-- A new group with a parent sends it exactly one message if the join of its first member, the one
-- with the number 0, returns, and none otherwise, over all histories of fewer than 2^32 joins,
-- leaves and joins that leave the wait of `CreateStaticGroup`, in whatever order they leave it.
pub one_message :
    (cs : List Change) (idp total_members parent : ℕ)
    → parent ≢ 0
    → length cs < 2 ^ 32
    → let g = new_group (static_organizer idp total_members parent) in
      total (sent parent) (acts_of cs g)
      ≡ (if total is_first (all_returned cs g) == 0 then 0 else 1)
unfolding static_organizer no_members total
one_message cs idp total_members parent h l =
    let g = new_group (static_organizer idp total_members parent) in
    let (m, b) = history cs g parent refl h (omega (arith, l)) in ground (arith, m, b)
