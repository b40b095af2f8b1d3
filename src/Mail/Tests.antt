-- ===== src/Mail/Tests.antt =====
-- Two resources that send to a third.
use mathlib.Core.List.{Sublist}
use pla_co_r.Base.{ℕ, ◌+◌, none, ◌≢◌, ◌≡◌, refl, false, List, [], ◌∷◌, ◌++◌, All, length}
use pla_co_r.Text.Bytes.{codes}
use pla_co_r.Mail.Mailbox.{box, Message, Mailboxes}
use pla_co_r.Mail.Outgoing.{
  next_packet, Packet, idle, enqueues, triggers, builds, sends, advances, restarts, begin_write,
  send_out, take_next, restart, Move, moves, enqueue, trigger, move,
}
use pla_co_r.Mail.Order.{from}
use pla_co_r.Mail.Fifo.{
  Step, arrives, receives, receives_from, creates, steps, all_handed, all_came, received_in_order,
  deletes,
}
use pla_co_r.Mail.Held
use pla_co_r.Mail.Held.{real, pending, enqueued, dropped}
use pla_co_r.Mail.Queue.{between, sent_in_order, never_stuck, message_lost}

abbrev of : ℕ → ℕ → Message
of source n = record { type = n; sender = source; content = [] }

abbrev waiting : List Message
waiting = of 1 10 ∷ (of 2 20 ∷ (of 1 11 ∷ (of 2 21 ∷ [])))

abbrev empty : Mailboxes
empty = λ k. none

abbrev history : List Step
history =
    creates 3
    ∷ (arrives 3 (of 1 10)
        ∷ (arrives 3 (of 2 20)
            ∷ (receives_from 3 2 ∷ (arrives 3 (of 2 21) ∷ (receives 3 ∷ (receives 3 ∷ []))))))

history-keeps : All (λ t. t ≢ deletes 3) history
history-keeps =
    ((λ e. cc), ((λ e. cc), ((λ e. cc), ((λ e. cc), ((λ e. cc), ((λ e. cc), ((λ e. cc), tt)))))))

received_in_order_example :
    from 2 (all_handed 3 history empty) ++ from 2 (box (steps history empty) 3)
    ≡ from 2 (box empty 3) ++ from 2 (all_came 3 history)
received_in_order_example = received_in_order 3 2 history empty history-keeps

abbrev one : Packet
one = (codes "app@M1" ∷ [], codes "one")

abbrev two : Packet
two = (codes "app@M2" ∷ [], codes "two")

abbrev schedule : List Move
schedule = enqueues one ∷ (triggers ∷ (enqueues two ∷ (builds ∷ (sends ∷ (advances ∷ [])))))

schedule-filled : All Held.FilledMove schedule
schedule-filled = (refl, (tt, (refl, (tt, (tt, (tt, tt))))))

sent_in_order_example :
    Sublist (real (moves schedule idle).wire ++ pending (moves schedule idle)) (enqueued schedule)
    × (length (real (moves schedule idle).wire ++ pending (moves schedule idle))
          + dropped schedule idle
        ≡ length (enqueued schedule))
sent_in_order_example = sent_in_order schedule schedule-filled

never_stuck_example :
    Held.Awake
      (moves schedule idle).stage
      (moves schedule idle).started
      (moves schedule idle).triggered
unfolding pending moves move enqueue trigger begin_write send_out take_next next_packet idle
never_stuck_example = never_stuck schedule schedule-filled (λ e. cc)

-- The sender of the second message starts the event after the handler has sent it.
abbrev late : List Move
late =
    enqueues one
    ∷ (triggers
        ∷ (builds
            ∷ (sends
                ∷ (advances
                    ∷ (enqueues two
                        ∷ (restarts
                            ∷ (builds ∷ (sends ∷ (advances ∷ (restarts ∷ (triggers ∷ [])))))))))))

late-filled : All Held.FilledMove late
late-filled = (refl, (tt, (tt, (tt, (tt, (refl, (tt, (tt, (tt, (tt, (tt, (tt, tt))))))))))))

message_lost_example :
    (real (moves (between one) (moves late idle)).wire
        ++ pending (moves (between one) (moves late idle))
      ≡ real (moves late idle).wire ++ pending (moves late idle))
    × ((moves (between one) (moves late idle)).ongoing_write ≡ false)
unfolding moves move enqueue trigger begin_write send_out take_next restart next_packet idle
message_lost_example = message_lost late one late-filled refl refl refl
