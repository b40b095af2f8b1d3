-- ===== src/Mail/Queue.antt =====
-- The order of the outgoing messages (`SendMessage`, `HandleWrite` of
-- libcor/src/cor/services/mailer.cpp), and what is lost.
use mathlib.Core.List.{append_assoc, Sublist}
use mathlib.Core.List.Sublist
use pla_co_r.Base.{
  ℕ, ◌+◌, ◌≡◌, refl, ◌∙◌, Bool, true, false, List, [], ◌∷◌, ◌++◌, All, length, length-append, ◌≢◌,
  subst, ap, arith,
}
use pla_co_r.Text.Bytes.{Bytes}
use pla_co_r.Mail.Outgoing.{
  Packet, WriteStage, off, Out, idle, enqueue, next_packet, begin_write, send_out, take_next, Move,
  enqueues, triggers, builds, sends, advances, restarts, move, moves,
}
use pla_co_r.Mail.Held.{
  real, pending, drops, dropped, enqueued, FilledMove, real-empty, Awake, Busy, Inv, state, held,
  Kept,
}
use pla_co_r.Mail.Kept.{
  unchanged, enqueue-Kept, begin_write-Kept, send_out-Kept, take_next-Kept, restart-Kept,
  trigger-Kept,
}

move-Kept :
    (m : Move) (o : Out) → FilledMove m → Inv o → Kept o (enqueued (m ∷ [])) (drops m o) (move m o)
unfolding move enqueued
move-Kept (enqueues p) o f h =
    enqueue-Kept o.started o.triggered o.wire p o.ongoing_write o.q o.outgoing o.stage o.out_smsg f
      h
move-Kept triggers o f h =
    trigger-Kept o.ongoing_write o.q o.outgoing o.started o.triggered o.stage o.out_smsg o.wire h
move-Kept builds o f h =
    begin_write-Kept o.started o.triggered o.wire o.ongoing_write o.q o.outgoing o.stage o.out_smsg
      h
move-Kept sends o f h =
    send_out-Kept o.started o.triggered o.wire o.ongoing_write o.q o.outgoing o.stage o.out_smsg h
move-Kept advances o f h =
    take_next-Kept o.started o.triggered o.wire o.ongoing_write o.q o.outgoing o.stage o.out_smsg h
move-Kept restarts o f h =
    restart-Kept o.started o.triggered o.wire o.ongoing_write o.q o.outgoing o.stage o.out_smsg h

enqueued-cons : (m : Move) (ms : List Move) → enqueued (m ∷ []) ++ enqueued ms ≡ enqueued (m ∷ ms)
unfolding enqueued
enqueued-cons (enqueues p) ms = refl
enqueued-cons triggers ms = refl
enqueued-cons builds ms = refl
enqueued-cons sends ms = refl
enqueued-cons advances ms = refl
enqueued-cons restarts ms = refl

moves-Kept :
    (ms : List Move) (o : Out)
    → All FilledMove ms
    → Inv o
    → Kept o (enqueued ms) (dropped ms o) (moves ms o)
unfolding moves enqueued dropped
moves-Kept [] o f h = unchanged o h
moves-Kept (m ∷ ms) o f h =
    let (i, (s, l)) = move-Kept m o f.0 h in
    let (i2, (s2, l2)) = moves-Kept ms (move m o) f.1 i in
    let e =
      append_assoc (held o) (enqueued (m ∷ [])) (enqueued ms)
      ∙ ap (λ k. held o ++ k) (enqueued-cons m ms) in
    (
      i2,
      (
        subst (Sublist (held (moves ms (move m o)))) e
            (Sublist.trans s2 (Sublist.append s (Sublist.refl (enqueued ms)))),
        omega (
          arith,
          l,
          l2,
          ap length e,
          length-append (held (move m o)) (enqueued ms),
          length-append (held o ++ enqueued (m ∷ [])) (enqueued ms),
        ),
      ),
    )

-- For every interleaving of senders and the event loop, where no message is empty: what the
-- communication system was given, less empty packets, and then what is pending, is what was sent,
-- in the order in which the senders entered the queue, but for the messages that the monitor of the
-- handler dropped. Nothing is repeated or overtaken, and nothing else is lost.
pub sent_in_order :
    (ms : List Move)
    → All FilledMove ms
    → Sublist (real (moves ms idle).wire ++ pending (moves ms idle)) (enqueued ms)
      × (length (real (moves ms idle).wire ++ pending (moves ms idle)) + dropped ms idle
          ≡ length (enqueued ms))
unfolding idle pending real
sent_in_order ms f = (moves-Kept ms idle f ((refl, refl), tt)).1

goes_on :
    (o : Out) (w : Bool)
    → o.ongoing_write ≡ w
    → Busy w o
    → pending o ≢ []
    → Awake o.stage o.started o.triggered
unfolding pending
goes_on o true e h n = h.1.1
goes_on o false e h n = absurd (n (rw e refl))

-- As long as a message is pending, the handler is at work, or its event is started, or a sender is
-- about to start it, for every interleaving of senders and the event loop, where no message is
-- empty.
pub never_stuck :
    (ms : List Move)
    → All FilledMove ms
    → pending (moves ms idle) ≢ []
    → Awake (moves ms idle).stage (moves ms idle).started (moves ms idle).triggered
unfolding idle pending real
never_stuck ms f n =
    goes_on (moves ms idle) (moves ms idle).ongoing_write refl
      (moves-Kept ms idle f ((refl, refl), tt)).0.0 n

-- The handler sends an empty message, and a sender enters one before the monitor of the handler.
abbrev pub between : Packet → List Move
between p = builds ∷ (sends ∷ (enqueues p ∷ (advances ∷ [])))

between-drops :
    (t : ℕ) (b : Bytes) (wire : List Packet) (p : Packet)
    → (held (moves (between p) (state false [] ([], []) true t off b wire)) ≡ real wire ++ [])
      × ((moves (between p) (state false [] ([], []) true t off b wire)).ongoing_write ≡ false)
unfolding moves move begin_write send_out enqueue take_next next_packet pending
between-drops t b wire p = (ap (λ l. l ++ []) (real-empty wire []), refl)

lost_from :
    (w : Bool) (q : List Packet) (x : Packet) (s : Bool) (t : ℕ) (g : WriteStage) (b : Bytes)
    (wire : List Packet) (p : Packet)
    → w ≡ false
    → s ≡ true
    → g ≡ off
    → Busy w (state w q x s t g b wire)
    → (held (moves (between p) (state w q x s t g b wire)) ≡ held (state w q x s t g b wire))
      × ((moves (between p) (state w q x s t g b wire)).ongoing_write ≡ false)
unfolding pending
lost_from true q x s t g b wire p e1 e2 e3 h = cc
lost_from false q x s t g b wire p e1 e2 e3 h = rw (e2, e3, h.0, h.1) (between-drops t b wire p)

-- A message is lost: whenever, behind any interleaving where no message is empty, the event is
-- started though no write is under way, and the handler is then called, any message that is entered
-- between its send and its monitor is neither given to the communication system nor pending: both
-- are as before, and no write is under way.
pub message_lost :
    (ms : List Move) (p : Packet)
    → All FilledMove ms
    → (moves ms idle).ongoing_write ≡ false
    → (moves ms idle).started ≡ true
    → (moves ms idle).stage ≡ off
    → (real (moves (between p) (moves ms idle)).wire ++ pending (moves (between p) (moves ms idle))
        ≡ real (moves ms idle).wire ++ pending (moves ms idle))
      × ((moves (between p) (moves ms idle)).ongoing_write ≡ false)
unfolding idle pending real
message_lost ms p f w s g =
    let o = moves ms idle in
    lost_from o.ongoing_write o.q o.outgoing o.started o.triggered o.stage o.out_smsg o.wire p w s g
      (moves-Kept ms idle f ((refl, refl), tt)).0.0
