-- ===== src/StaticGroup/Rounds.antt =====
-- How many arrivals let a thread pass.
use pla_co_r.Base.{
  ℕ, suc, ◌+◌, ◌-◌, ◌*◌, ◌^◌, ◌<◌, ◌≤◌, ◌≡◌, refl, sym, Bool, true, false, Option, none, some, List,
  [], ◌∷◌, ltb, leb, ◌==◌, ==_iff, if◌then◌else◌, Bool-cases, inl, inr, subst, ap, arith,
}
use pla_co_r.StaticGroup.Barrier.{
  no_group, create_static_group, count, pass_create, pass_synchronize, handle_static_group_idp, Pod,
  Event, creates, synchronizes, arrives, wakes_in_create, wakes_in_synchronize, sets_idp, left,
  step, run, start,
}

-- The messages that are handled.
unfoldable pub arrivals : List Event → ℕ
arrivals [] = 0
arrivals (arrives ∷ es) = suc (arrivals es)
arrivals (_ ∷ es) = arrivals es

abbrev pub came : Event → ℕ
came e = arrivals (e ∷ [])

abbrev pub at : ℕ → ℕ → Option ℕ → ℕ → ℕ → Pod
at c n cc waiting passed = record {
  group = record { sg_vars = some (c, n); sg_cc = cc };
  waiting = waiting;
  passed = passed;
}

-- `k` messages have come to a pod of a group of `n` members.
abbrev Account : ℕ → ℕ → Pod → Type 0
Account n k p = (c : ℕ) × ((p.group.sg_vars ≡ some (c, n)) × (p.passed * n + c ≡ k))

cast : (n i j : ℕ) (p : Pod) → i ≡ j → Account n i p → Account n j p
cast n i j p e h = subst (λ k. Account n k p) e h

distribute : (q n : ℕ) → (q + 1) * n + 0 ≡ q * n + n
distribute q n = omega arith

left-Account :
    (n k c w q : ℕ) (cc cc2 : Option ℕ) (b : Bool)
    → q * n + c ≡ k
    → (c == n) ≡ b
    → Account n k (
        left
          (at c n cc w q)
          (if b then some (record { sg_vars = some (0, n); sg_cc = cc2 }) else none))
unfolding left
left-Account n k c w q cc cc2 true h e =
    (0, (refl, omega (arith, h, distribute q n, (==_iff c n).0 e)))
left-Account n k c w q cc cc2 false h e = (c, (refl, h))

wakes-Account :
    (n k c w q : ℕ) (cc cc2 : Option ℕ) (b : Bool)
    → q * n + c ≡ k
    → Account n k (
        if b
        then left
            (at c n cc w q)
            (if c == n then some (record { sg_vars = some (0, n); sg_cc = cc2 }) else none)
        else at c n cc w q)
wakes-Account n k c w q cc cc2 true h = left-Account n k c w q cc cc2 (c == n) h refl
wakes-Account n k c w q cc cc2 false h = (c, (refl, h))

step-Account :
    (e : Event) (n k c w q : ℕ) (cc : Option ℕ)
    → q * n + c ≡ k
    → suc k < 2 ^ 32
    → Account n (came e + k) (step e (at c n cc w q))
unfolding step arrivals create_static_group count pass_create pass_synchronize
    handle_static_group_idp
step-Account (creates t) n k c w q cc h l = (c, (refl, omega (arith, h)))
step-Account synchronizes n k c w q cc h l = (c, (refl, omega (arith, h)))
step-Account arrives n k c w q cc h l =
    (c + 1, (ap (λ i. some (i, n)) (omega (arith, h, l)), omega (arith, h)))
step-Account wakes_in_create n k c w q cc h l =
    cast n k _ (step wakes_in_create (at c n cc w q)) (omega arith)
      (wakes-Account n k c w q cc cc (ltb 0 w) h)
step-Account wakes_in_synchronize n k c w q cc h l =
    cast n k _ (step wakes_in_synchronize (at c n cc w q)) (omega arith)
      (wakes-Account n k c w q cc none (ltb 0 w) h)
step-Account (sets_idp idp) n k c w q cc h l = (c, (refl, omega (arith, h)))

arrivals-cons : (e : Event) (es : List Event) → arrivals (e ∷ es) ≡ came e + arrivals es
unfolding arrivals
arrivals-cons (creates t) es = omega arith
arrivals-cons synchronizes es = omega arith
arrivals-cons arrives es = omega arith
arrivals-cons wakes_in_create es = omega arith
arrivals-cons wakes_in_synchronize es = omega arith
arrivals-cons (sets_idp idp) es = omega arith

assoc : (e : Event) (es : List Event) (k : ℕ) → arrivals es + (came e + k) ≡ arrivals (e ∷ es) + k
assoc e es k = omega (arith, arrivals-cons e es)

pub bound :
    (e : Event) (es : List Event) (k : ℕ)
    → suc (arrivals (e ∷ es) + k) < 2 ^ 32
    → suc (arrivals es + (came e + k)) < 2 ^ 32
bound e es k l = omega (arith, arrivals-cons e es, l)

pub small :
    (e : Event) (es : List Event) (k : ℕ) → suc (arrivals (e ∷ es) + k) < 2 ^ 32 → suc k < 2 ^ 32
small e es k l = omega (arith, l)

next-Account :
    (e : Event) (n k : ℕ) (p : Pod)
    → suc k < 2 ^ 32
    → Account n k p
    → Account n (came e + k) (step e p)
next-Account e n k p l (c, (g, h)) =
    subst
      (λ v.
        Account n (came e + k)
          (step e (record p { group = record { sg_vars = v; sg_cc = p.group.sg_cc } })))
      (sym g) (step-Account e n k c p.waiting p.passed p.group.sg_cc h l)

run-Account :
    (es : List Event) (n k : ℕ) (p : Pod)
    → suc (arrivals es + k) < 2 ^ 32
    → Account n k p
    → Account n (arrivals es + k) (run es p)
unfolding run arrivals
run-Account [] n k p l h = cast n k _ p (omega arith) h
run-Account (e ∷ es) n k p l h = cast n _ _ (run es (step e p)) (assoc e es k) (
    run-Account es n (came e + k) (step e p) (bound e es k l)
      (next-Account e n k p (small e es k l) h))

-- Every thread that passes the barrier of a group of `n` members takes `n` messages: after any
-- calls, arrivals and wake-ups, fewer than 2^32 - 1 arrivals, what the passed threads took and what
-- is counted is what has arrived.
pub passes_paid :
    (es : List Event) (n : ℕ)
    → suc (arrivals es) < 2 ^ 32
    → (c : ℕ) × (((run es (start n)).group.sg_vars ≡ some (c, n))
        × ((run es (start n)).passed * n + c ≡ arrivals es))
unfolding start create_static_group no_group
passes_paid es n l =
    cast n _ _ (run es (start n)) (omega arith)
      (run-Account es n 0 (start n) (omega (arith, l)) (0, (refl, omega arith)))

spread : (d n : ℕ) → (d + 2) * n ≡ d * n + 2 * n
spread d n = omega arith

two : (q : ℕ) → 2 ≤ q → q - 2 + 2 ≡ q
two q h = omega arith

one_times : (q n : ℕ) → 2 ≤ q → 2 * n ≤ q * n
one_times q n h = omega (arith, spread (q - 2) n, ap (λ k. k * n) (two q h))

le_of_leb : (a b : ℕ) → leb a b ≡ true → a ≤ b
le_of_leb a b h = ground arith

lt_of_leb : (a b : ℕ) → leb a b ≡ false → b + 1 ≤ a
lt_of_leb a b h = ground arith

-- Of the threads of one pod that wait at the barrier for the `n` messages of a round, only one
-- passes: when `n` have arrived, at most one thread has passed, however many wait and wake up.
pub one_per_round :
    (es : List Event) (n : ℕ)
    → 0 < n
    → suc n < 2 ^ 32
    → arrivals es ≡ n
    → (run es (start n)).passed ≤ 1
one_per_round es n h l e =
    let (c, (g, paid)) = passes_paid es n (omega (arith, l, e)) in
    elim (Bool-cases (leb (run es (start n)).passed 1)) [
      | inl few ↦ le_of_leb (run es (start n)).passed 1 few
      | inr many ↦ absurd (
          omega (
            arith,
            h,
            e,
            paid,
            one_times (run es (start n)).passed n (lt_of_leb (run es (start n)).passed 1 many),
          ))
    ]
