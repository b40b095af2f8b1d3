-- ===== src/Pointer/Tests.antt =====
-- Three pointers to the objects 5 and 6.
use pla_co_r.Base.{ℕ, ◌+◌, ◌%◌, ◌^◌, ◌≡◌, refl, true, some, List, [], ◌∷◌}
use pla_co_r.Consistency.Object.{ConsistencyObject, consistency_object}
use pla_co_r.Pointer.Ptr.{unpointed, Op, constructs, copies, moves, destroys, move_assigns, run}
use pla_co_r.Pointer.Balance.{live, lost, counter_balance}

abbrev objects : ℕ → ConsistencyObject ℕ
objects k = consistency_object k true "C1"

abbrev history : List Op
history =
    constructs 5 (some 5)
    ∷ copies 0
    ∷ constructs 6 (some 6)
    ∷ move_assigns 0 2
    ∷ destroys 1
    ∷ moves 0
    ∷ []

counter_test : ((run history (unpointed objects)).objects 5).local_ref_cntr ≡ 1
unfolding run unpointed pla_co_r.Consistency.Requests.decrement_local_reference_counter
    pla_co_r.Consistency.Requests.increment_local_reference_counter consistency_object
counter_test = refl

live_test : live 5 (run history (unpointed objects)) ≡ 0
unfolding pla_co_r.Base.total run unpointed
live_test = refl

counter_balance_example :
    ((run history (unpointed objects)).objects 5).local_ref_cntr
    ≡ (live 5 (run history (unpointed objects)) + lost 5 history (unpointed objects)) % 2 ^ 16
unfolding consistency_object
counter_balance_example = counter_balance 5 history objects refl
