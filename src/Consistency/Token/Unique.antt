-- ===== src/Consistency/Token/Unique.antt =====
-- How many tokens of a resource there are, in the pods and under way.
use Prim.Native.String.{String}
use mathlib.Core.Option.{some-injective}
use native.Mathlib.Decide.{ℕ_discrete}
use pla_co_r.Base.{
  ℕ, ◌+◌, ◌≡◌, refl, true, Option, none, some, List, [], ◌∷◌, get_elem?, length, length-append,
  Option-cases, inl, inr, subst, total, total-set, le-total, two-le-total, if◌then◌else◌, ◌∙◌,
  length-without, arith,
}
use pla_co_r.Consistency.Object.{
  ConsistencyObject, consistency_object, u64, Call, reply_token_update, Request, for_replica,
  for_update, for_token, Pc, outside, read_wait, update_wait, in_read, write_wait, token_wait,
  in_write, request_wait, Turn, acquire_read, read_updated, release_read, acquire_write, write_turn,
  token_turn, release_write,
}
use pla_co_r.Consistency.Requests.{
  request_turn, request, serve, serve_own, serve_other, acquire_replica, acquire_token_update,
  invalidate, update, token_ack, release_replica, increment_local_reference_counter,
  decrement_local_reference_counter, set_resource,
}
use pla_co_r.Consistency.Threads.{
  Pod, start, Event, Method, acquires_read, acquires_write, requests, calls_method, releases, wakes,
  gets_token, call, turn_call, turn_release, turn_wake, turn, method, step,
}
use pla_co_r.Consistency.Token.Net.{
  TokenReply, Net, Action, happens, delivers, replies_in, local_step, happen, address, arrive,
  deliver, net_step, net_run, guests, net_start,
}

module _ {R : Type 0} where
  abbrev pub tokens : Pod R → ℕ
  tokens p = if p.obj.token then 1 else 0

  abbrev sent : List (Call R) → ℕ
  sent calls = length (replies_in "" calls)

  -- How many replies there are does not depend on who sends them.
  length-replies_in :
      (a : String) (calls : List (Call R)) → length (replies_in a calls) ≡ sent calls
  unfolding replies_in
  length-replies_in a [] = refl
  length-replies_in a (reply_token_update idp rsc to ∷ calls) =
      omega (arith, length-replies_in a calls)
  length-replies_in a (other ∷ calls) = length-replies_in a calls

  -- A move gives the token away by a reply, or keeps it.
  abbrev Passes : ConsistencyObject R → Turn R → Type 0
  Passes o t = (if t.obj.token then 1 else 0) + sent t.calls ≡ (if o.token then 1 else 0)

  serve-Passes : (q : Request) (r : String) (o : ConsistencyObject R) → Passes o (serve q r o)
  unfolding serve serve_own serve_other replies_in
  serve-Passes (for_replica size) r o = ground arith
  serve-Passes for_update r o = ground arith
  serve-Passes for_token r o = ground arith

  request_turn-Passes :
      (q : Request) (r : String) (n : ℕ) (o : ConsistencyObject R) → Passes o (request_turn q r n o)
  unfolding request_turn replies_in
  request_turn-Passes q r n o = ground (arith, serve-Passes q r o)

  abbrev PassesAll : (Pc → ConsistencyObject R → Option (Turn R)) → Type 0
  PassesAll f = (pc : Pc) (o : ConsistencyObject R) (t : Turn R) → f pc o ≡ some t → Passes o t

  call-Passes : (m : Method) → PassesAll (turn_call m)
  unfolding turn_call call acquire_read acquire_write request replies_in
  call-Passes acquires_read outside o t e = ground arith
  call-Passes acquires_write outside o t e = ground arith
  call-Passes (requests q r) outside o t e =
      subst (Passes o) (some-injective _ _ e)
        (request_turn-Passes q r o.total_req (record o { total_req = u64 (o.total_req + 1) }))
  call-Passes m other o t e = cc

  release-Passes : PassesAll turn_release
  unfolding turn_release release_read release_write replies_in
  release-Passes in_read o t e = ground arith
  release-Passes in_write o t e = ground arith
  release-Passes other o t e = cc

  wake-Passes : PassesAll turn_wake
  unfolding turn_wake acquire_read read_updated write_turn token_turn replies_in
  wake-Passes read_wait o t e = ground arith
  wake-Passes update_wait o t e = ground arith
  wake-Passes write_wait o t e = ground arith
  wake-Passes token_wait o t e = ground arith
  wake-Passes (request_wait q r n) o t e =
      subst (Passes o) (some-injective _ _ e) (request_turn-Passes q r n o)
  wake-Passes other o t e = cc

  -- The same for an event of a pod whose call list starts empty.
  abbrev PodPasses : Pod R → Pod R → Type 0
  PodPasses p p' = tokens p' + sent p'.calls ≡ tokens p

  turn-Passes :
      (f : Pc → ConsistencyObject R → Option (Turn R)) (p : Pod R) (i : ℕ) (o : Option Pc)
      → PassesAll f
      → p.calls ≡ []
      → PodPasses p (turn f p i o)
  unfolding turn replies_in
  turn-Passes f p i none m z = rw z (omega arith)
  turn-Passes f p i (some pc) m z = elim (Option-cases (f pc p.obj)) [
    | inl q ↦ rw (q, turn, z) (omega arith)
    | inr (t, q) ↦ rw (q, turn, z) (m pc p.obj t q)
  ]

  local_step-Passes : (e : Event R) (p : Pod R) → p.calls ≡ [] → PodPasses p (local_step e p)
  unfolding local_step step method acquire_replica update invalidate token_ack release_replica
      increment_local_reference_counter decrement_local_reference_counter set_resource replies_in
  local_step-Passes (calls_method i m) p z = turn-Passes (turn_call m) p i _ (call-Passes m) z
  local_step-Passes (releases i) p z = turn-Passes turn_release p i _ release-Passes z
  local_step-Passes (wakes i) p z = turn-Passes turn_wake p i _ wake-Passes z
  local_step-Passes other p z = ground arith

  abbrev pub tokens_in : Net R → ℕ
  tokens_in s = total tokens s.pods + length s.replies

  happen-tokens :
      (s : Net R) (i : ℕ) (e : Event R) (o : Option (Pod R))
      → get_elem? s.pods i ≡ o
      → tokens_in (happen s i e o) ≡ tokens_in s
  unfolding happen
  happen-tokens s i e none q = refl
  happen-tokens s i e (some p) q =
      let p' = local_step e (record p { calls = [] }) in
      omega (
        arith,
        local_step-Passes e (record p { calls = [] }) refl,
        total-set tokens s.pods i p p' q,
        length-append s.replies (replies_in p.obj.ctrl p'.calls),
        length-replies_in p.obj.ctrl p'.calls,
      )

  got-token :
      (p : Pod R) (rsc : R) (replier : String) → tokens (step (gets_token rsc replier) p) ≡ 1
  unfolding step method acquire_token_update
  got-token p rsc replier = refl

  arrive-tokens :
      (s : Net R) (k : ℕ) (l : TokenReply R) (r : Option R) (j : Option ℕ)
      → get_elem? s.replies k ≡ some l
      → tokens_in s ≡ 1
      → tokens_in (arrive s k l r j) ≡ 1
  unfolding arrive
  arrive-tokens s k l (some rsc) (some j) e h = elim (Option-cases (get_elem? s.pods j)) [
    | inl q ↦ rw (q, arrive) h
    | inr (p, q) ↦
        let p' = step (gets_token rsc l.replier) (record p { calls = [] }) in
        rw (q, arrive)
          (omega (
            arith,
            h,
            total-set tokens s.pods j p p' q,
            le-total tokens s.pods j p q,
            got-token (record p { calls = [] }) rsc l.replier,
            length-without s.replies k l e,
          ))
  ]
  arrive-tokens s k l (some rsc) none e h = h
  arrive-tokens s k l none j e h = h

  deliver-tokens :
      (s : Net R) (k : ℕ) (o : Option (TokenReply R))
      → get_elem? s.replies k ≡ o
      → tokens_in s ≡ 1
      → tokens_in (deliver s k o) ≡ 1
  unfolding deliver
  deliver-tokens s k none e h = h
  deliver-tokens s k (some l) e h = arrive-tokens s k l l.rsc (address l.to s.pods) e h

  net_run-tokens :
      (acts : List (Action R)) (s : Net R) → tokens_in s ≡ 1 → tokens_in (net_run acts s) ≡ 1
  unfolding net_run net_step
  net_run-tokens [] s h = h
  net_run-tokens (happens i e ∷ rest) s h =
      net_run-tokens rest _ (happen-tokens s i e (get_elem? s.pods i) refl ∙ h)
  net_run-tokens (delivers k ∷ rest) s h =
      net_run-tokens rest _ (deliver-tokens s k (get_elem? s.replies k) refl h)

guests-tokens :
    (R : Type 0) (idp threads : ℕ) (names : List String)
    → total (tokens {R = R}) (guests idp threads names) ≡ 0
unfolding guests total start consistency_object
guests-tokens R idp threads [] = refl
guests-tokens R idp threads (name ∷ names) = omega (arith, guests-tokens R idp threads names)

start-tokens :
    (R : Type 0) (idp threads : ℕ) (owner : String) (names : List String)
    → tokens_in {R = R} (net_start idp threads owner names) ≡ 1
unfolding net_start total start consistency_object
start-tokens R idp threads owner names = omega (arith, guests-tokens R idp threads names)

module _ {R : Type 0} where
  -- Whatever the threads of all pods do, and in whatever order the token replies arrive, there is
  -- exactly one token: one pod has it and no reply is under way, or no pod has it and one reply is.
  pub one_token :
      (idp threads : ℕ) (owner : String) (names : List String) (acts : List (Action R))
      → total tokens (net_run acts (net_start idp threads owner names)).pods
          + length (net_run acts (net_start idp threads owner names)).replies
        ≡ 1
  one_token idp threads owner names acts =
      net_run-tokens acts (net_start idp threads owner names)
        (start-tokens R idp threads owner names)

  -- No two pods ever have the token of a resource at once.
  pub token_holder_unique :
      (idp threads : ℕ) (owner : String) (names : List String) (acts : List (Action R)) (i j : ℕ)
      (p q : Pod R)
      → get_elem? (net_run acts (net_start idp threads owner names)).pods i ≡ some p
      → get_elem? (net_run acts (net_start idp threads owner names)).pods j ≡ some q
      → p.obj.token ≡ true
      → q.obj.token ≡ true
      → i ≡ j
  token_holder_unique idp threads owner names acts i j p q e f t u =
      let s = net_run acts (net_start idp threads owner names) in
      elim (ℕ_discrete i j) [
        | yes g ↦ g
        | no d ↦ absurd (
            ground (
              arith,
              one_token idp threads owner names acts,
              two-le-total tokens s.pods i j p q e f d,
              t,
              u,
            ))
      ]
