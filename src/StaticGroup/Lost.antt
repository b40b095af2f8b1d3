-- ===== src/StaticGroup/Lost.antt =====
-- An identifier of a collective creation that comes too early.
use pla_co_r.Base.{ℕ, ◌+◌, ◌<◌, ◌≡◌, none, some, List, [], ◌∷◌, arith}
use pla_co_r.StaticGroup.Barrier.{
  create_static_group, count, pass_create, pass_synchronize, handle_static_group_idp,
  get_static_group_idp, Pod, Event, creates, synchronizes, arrives, wakes_in_create,
  wakes_in_synchronize, sets_idp, left, step, run,
}

-- No identifier arrives.
abbrev pub NoIdp : List Event → Type 0
NoIdp [] = Unit
NoIdp (sets_idp idp ∷ es) = ⊥
NoIdp (e ∷ es) = NoIdp es

step-none :
    (e : Event) (p : Pod) → NoIdp (e ∷ []) → p.group.sg_cc ≡ none → (step e p).group.sg_cc ≡ none
unfolding step left create_static_group count pass_create pass_synchronize
step-none (creates n) p h e = e
step-none synchronizes p h e = e
step-none arrives p h e = e
step-none wakes_in_create p h e = ground arith
step-none wakes_in_synchronize p h e = ground arith
step-none (sets_idp idp) p h e = absurd h

run-none :
    (es : List Event) (p : Pod) → NoIdp es → p.group.sg_cc ≡ none → (run es p).group.sg_cc ≡ none
unfolding run
run-none [] p h e = e
run-none (creates n ∷ es) p h e = run-none es _ h (step-none (creates n) p tt e)
run-none (synchronizes ∷ es) p h e = run-none es _ h (step-none synchronizes p tt e)
run-none (arrives ∷ es) p h e = run-none es _ h (step-none arrives p tt e)
run-none (wakes_in_create ∷ es) p h e = run-none es _ h (step-none wakes_in_create p tt e)
run-none (wakes_in_synchronize ∷ es) p h e = run-none es _ h (step-none wakes_in_synchronize p tt e)
run-none (sets_idp idp ∷ es) p h e = absurd h

passing :
    (n : ℕ) (p : Pod)
    → p.group.sg_vars ≡ some (n, n)
    → 0 < p.waiting
    → ((step wakes_in_synchronize p).group.sg_cc ≡ none)
      × ((step wakes_in_synchronize p).passed ≡ p.passed + 1)
unfolding step left pass_synchronize
passing n p e w = ground arith

-- Where all members have come to the barrier and a thread of the pod has not woken up yet, the
-- identifier of the next creation, which a faster member of another pod sends, is erased as the
-- thread passes: until another identifier arrives, `GetStaticGroupCCIdp` waits, whatever is called,
-- arrives or wakes up.
pub idp_lost :
    (es : List Event) (n idp : ℕ) (p : Pod)
    → p.group.sg_vars ≡ some (n, n)
    → 0 < p.waiting
    → NoIdp es
    → ((run (sets_idp idp ∷ wakes_in_synchronize ∷ []) p).passed ≡ p.passed + 1)
      × (get_static_group_idp (run (sets_idp idp ∷ wakes_in_synchronize ∷ es) p).group ≡ none)
unfolding run get_static_group_idp step handle_static_group_idp
idp_lost es n idp p e w h =
    let (cleared, passed) = passing n (step (sets_idp idp) p) e w in
    (passed, run-none es (step wakes_in_synchronize (step (sets_idp idp) p)) h cleared)
