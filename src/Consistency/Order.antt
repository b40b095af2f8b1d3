-- ===== src/Consistency/Order.antt =====
-- The numbers of the requests that wait and were served
-- (`CheckReplica`, `CheckUpdate`, `CheckTokenUpdate` of
-- libcor/src/cor/services/consistency_object.cpp).
use Prim.Native.String.{String}
use mathlib.Core.Option.{some-injective}
use native.Mathlib.Decide.{ℕ_discrete}
use pla_co_r.Base.{
  ℕ, zero, suc, ◌+◌, ◌≤◌, ◌<◌, ◌^◌, ◌≡◌, refl, ◌⊎◌, false, Option, none, some, List, [], ◌∷◌,
  get_elem?, set, inl, inr, subst, if◌then◌else◌, ◌==◌, arith,
}
use pla_co_r.Consistency.Object.{
  ConsistencyObject, u64, Request, for_replica, for_update, for_token, Pc, outside, read_wait,
  update_wait, in_read, write_wait, token_wait, in_write, request_wait, Turn, acquire_read,
  read_updated, release_read, acquire_write, write_turn, token_turn, release_write,
}
use pla_co_r.Consistency.Requests.{is_blocked, request_turn, request, serve, serve_own, serve_other}
use pla_co_r.Consistency.Threads.{
  Pod, Method, acquires_read, acquires_write, requests, call, turn_call, turn_release, turn_wake,
}

abbrev pub ticket : Pc → Option ℕ
ticket (request_wait q requester n) = some n
ticket _ = none

abbrev pub ticket_at : List Pc → ℕ → Option ℕ
ticket_at [] i = none
ticket_at (pc ∷ pcs) zero = ticket pc
ticket_at (pc ∷ pcs) (suc i) = ticket_at pcs i

pub ticket_at-get :
    (pcs : List Pc) (i : ℕ) (pc : Pc) → get_elem? pcs i ≡ some pc → ticket_at pcs i ≡ ticket pc
ticket_at-get [] i pc e = cc
ticket_at-get (x ∷ pcs) zero pc e = cc
ticket_at-get (x ∷ pcs) (suc i) pc e = ticket_at-get pcs i pc e

pub ticket_at-set :
    (pcs : List Pc) (i j : ℕ) (old pc : Pc)
    → get_elem? pcs i ≡ some old
    → ticket_at (set pcs i pc) j ≡ (if i == j then ticket pc else ticket_at pcs j)
ticket_at-set [] i j old pc e = cc
ticket_at-set (x ∷ pcs) zero zero old pc e = ground arith
ticket_at-set (x ∷ pcs) zero (suc j) old pc e = ground arith
ticket_at-set (x ∷ pcs) (suc i) zero old pc e = ground arith
ticket_at-set (x ∷ pcs) (suc i) (suc j) old pc e = ground (arith, ticket_at-set pcs i j old pc e)

-- The numbers from `next` up to `total` are those of the requests that wait, one each.
pub record Ordered (next total : ℕ) (at : ℕ → Option ℕ) : Type 0 where
  pub range : next ≤ total
  pub waiting : (i n : ℕ) → at i ≡ some n → (next ≤ n) × (n < total)
  pub unique : (i j n : ℕ) → at i ≡ some n → at j ≡ some n → i ≡ j
  pub covered : (n : ℕ) → next ≤ n → n < total → (i : ℕ) × (at i ≡ some n)

-- How a move of one thread changes the numbers: not at all, it draws one, it draws one and is
-- served at once, or it is served.
abbrev pub Numbers : ℕ → ℕ → Option ℕ → ℕ → ℕ → Option ℕ → Type 0
Numbers next total old next' total' new =
    ((next' ≡ next) × (total' ≡ total) × (new ≡ old))
    ⊎ ((old ≡ none) × (next' ≡ next) × (total' ≡ total + 1) × (new ≡ some total))
    ⊎ ((old ≡ none) × (next ≡ total) × (next' ≡ total + 1) × (total' ≡ total + 1) × (new ≡ none))
    ⊎ ((old ≡ some next) × (next' ≡ next + 1) × (total' ≡ total) × (new ≡ none))

module _ (next total next' total' i : ℕ) (at at' : ℕ → Option ℕ) (new : Option ℕ)
    (o : Ordered next total at) (s : (j : ℕ) → at' j ≡ (if i == j then new else at j)) where
  pub move-Ordered : Numbers next total (at i) next' total' new → Ordered next' total' at'
  move-Ordered (inl (a, b, c)) = record {
    range = omega (arith, o.range);
    waiting = λ j n e. ground (arith, s j, o.waiting j n, o.waiting i n);
    unique = λ j k n e f. ground (arith, s j, s k, o.unique j k n, o.unique i k n, o.unique j i n);
    covered =
        λ n l h. let (j, e) = o.covered n (omega arith) (omega arith) in (j, ground (arith, s j));
  }
  move-Ordered (inr (inl (z, a, b, c))) = record {
    range = omega (arith, o.range);
    waiting = λ j n e. ground (arith, s j, o.waiting j n, o.range);
    unique = λ j k n e f. ground (arith, s j, s k, o.unique j k n, o.waiting j n, o.waiting k n);
    covered = λ n l h. elim (ℕ_discrete n total) [
      | yes e ↦ (i, ground (arith, s i))
      | no d ↦ let (j, e) = o.covered n (omega arith) (omega arith) in (j, ground (arith, s j))
    ];
  }
  move-Ordered (inr (inr (inl (z, q, a, b, c)))) = record {
    range = omega arith;
    waiting = λ j n e. ground (arith, s j, o.waiting j n);
    unique = λ j k n e f. ground (arith, s j, s k, o.waiting j n);
    covered = λ n l h. absurd (omega arith);
  }
  move-Ordered (inr (inr (inr (z, a, b, c)))) = record {
    range = omega (arith, o.waiting i next z);
    waiting = λ j n e. ground (arith, s j, o.waiting j n, o.unique i j next);
    unique = λ j k n e f. ground (arith, s j, s k, o.unique j k n);
    covered =
        λ n l h. let (j, e) = o.covered n (omega arith) (omega arith) in (j, ground (arith, s j));
  }

module _ {R : Type 0} where
  abbrev pub NumbersTurn : ConsistencyObject R → Pc → Turn R → Type 0
  NumbersTurn o pc t =
      Numbers o.next_req o.total_req (ticket pc) t.obj.next_req t.obj.total_req (ticket t.pc)

  -- The numbers are drawn without wrapping, and a number that is held is in range.
  pub record InRange (o : ConsistencyObject R) (pc : Pc) : Type 0 where
    pub range : o.next_req ≤ o.total_req
    pub room : o.total_req + 1 < 2 ^ 64
    pub held : (n : ℕ) → ticket pc ≡ some n → (o.next_req ≤ n) × (n < o.total_req)

  serve-numbers :
      (q : Request) (r : String) (o : ConsistencyObject R)
      → ((serve q r o).obj.next_req ≡ u64 (o.next_req + 1))
        × ((serve q r o).obj.total_req ≡ o.total_req)
        × (ticket (serve q r o).pc ≡ none)
  unfolding serve serve_own serve_other
  serve-numbers (for_replica size) r o = ground arith
  serve-numbers for_update r o = ground arith
  serve-numbers for_token r o = ground arith

  pub blocked-number :
      (r : String) (n : ℕ) (o : ConsistencyObject R) → is_blocked r n o ≡ false → n ≤ o.next_req
  unfolding is_blocked
  blocked-number r n o h = ground arith

  request-numbers :
      (q : Request) (r : String) (o : ConsistencyObject R) (pc : Pc)
      → ticket pc ≡ none
      → InRange o pc
      → NumbersTurn o pc (request q r o)
  unfolding request request_turn
  request-numbers q r o pc z h =
      let drawn = record o { total_req = u64 (o.total_req + 1) } in
      ground (arith, h.range, h.room, serve-numbers q r drawn, blocked-number r o.total_req drawn)

  wake-numbers :
      (q : Request) (r : String) (n : ℕ) (o : ConsistencyObject R)
      → InRange o (request_wait q r n)
      → NumbersTurn o (request_wait q r n) (request_turn q r n o)
  unfolding request_turn
  wake-numbers q r n o h =
      ground (arith, h.range, h.room, h.held n, serve-numbers q r o, blocked-number r n o)

  abbrev pub Draws : (Pc → ConsistencyObject R → Option (Turn R)) → Type 0
  Draws f =
      (pc : Pc) (o : ConsistencyObject R) (t : Turn R)
      → f pc o ≡ some t
      → InRange o pc
      → NumbersTurn o pc t

  pub call-Draws : (m : Method) → Draws (turn_call m)
  unfolding turn_call call acquire_read acquire_write
  call-Draws acquires_read outside o t e h = ground arith
  call-Draws acquires_write outside o t e h = ground arith
  call-Draws (requests q r) outside o t e h =
      subst (NumbersTurn o outside) (some-injective _ _ e) (request-numbers q r o outside refl h)
  call-Draws m other o t e h = cc

  pub release-Draws : Draws turn_release
  unfolding turn_release release_read release_write
  release-Draws in_read o t e h = ground arith
  release-Draws in_write o t e h = ground arith
  release-Draws other o t e h = cc

  pub wake-Draws : Draws turn_wake
  unfolding turn_wake acquire_read read_updated write_turn token_turn
  wake-Draws read_wait o t e h = ground arith
  wake-Draws update_wait o t e h = ground arith
  wake-Draws write_wait o t e h = ground arith
  wake-Draws token_wait o t e h = ground arith
  wake-Draws (request_wait q r n) o t e h =
      subst (NumbersTurn o (request_wait q r n)) (some-injective _ _ e) (wake-numbers q r n o h)
  wake-Draws other o t e h = cc

  abbrev pub IsOrdered : Pod R → Type 0
  IsOrdered p = Ordered p.obj.next_req p.obj.total_req (ticket_at p.threads)
