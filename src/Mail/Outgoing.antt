-- ===== src/Mail/Outgoing.antt =====
-- The outgoing queue of libcor/src/cor/services/mailer.cpp: `SendMessage` in the senders' threads, `HandleWrite` in the thread of the
-- event loop. `SendMessage` is cut behind the monitor of the queue, `HandleWrite` also where it reads
-- `_outgoing_msg` and `_outgoing_groups` without the monitor.
use pla_co_r.Base.{ℕ, zero, suc, ◌+◌, Bool, true, false, List, [], ◌∷◌, ◌++◌, if◌then◌else◌}
use pla_co_r.Text.Bytes.{Bytes}
use pla_co_r.Names.Groups.{get_message_group}
use pla_co_r.Mail.Mailbox.{Message}

-- The groups and the bytes of a message.
abbrev pub Packet : Type 0
Packet = List Bytes × Bytes

-- Where `HandleWrite` is: not called, behind its read of `_outgoing_msg`, behind its send, behind the
-- monitor.
pub data WriteStage : Type 0 where
  off built sent leaving : WriteStage

pub record Out : Type 0 where
  pub ongoing_write : Bool
  pub q : List Packet
  -- `_outgoing_groups`, `_outgoing_msg`
  pub outgoing : Packet
  -- Is `_evwrite` started?
  pub started : Bool
  -- How many senders have left the monitor to restart the event.
  pub triggered : ℕ
  pub stage : WriteStage
  -- `_out_smsg`, the bytes that `HandleWrite` has read.
  pub out_smsg : Bytes
  -- What was given to the communication system, in order.
  pub wire : List Packet

unfoldable pub idle : Out
idle = record {
  ongoing_write = false;
  q = [];
  outgoing = ([], []);
  started = false;
  triggered = 0;
  stage = off;
  out_smsg = [];
  wire = [];
}

-- `SendMessage` up to the monitor: the packet of a message. `write` is the archive of messages.
unfoldable pub packet : (Message → Bytes) → Bytes → ℕ → ℕ → Message → Packet
packet write app_group idp dest msg =
    (get_message_group app_group dest ∷ [], write (record msg { sender = idp }))

-- The monitor of `SendMessage`.
unfoldable pub enqueue : Packet → Out → Out
enqueue p o =
    if o.ongoing_write
    then record o { q = o.q ++ (p ∷ []) }
    else record o { ongoing_write = true; outgoing = p; triggered = o.triggered + 1 }

-- `_evwrite->end(); _evwrite->start()` of a sender.
unfoldable pub trigger : Out → Out
trigger o = elim o.triggered [ zero ↦ o | suc k ↦ record o { triggered = k; started = true } ]

-- The monitor of `HandleWrite`.
unfoldable pub next_packet : Out → List Packet → Out
next_packet o [] = record o { ongoing_write = false; outgoing = ([], []) }
next_packet o (p ∷ ps) = record o { outgoing = p; q = ps }

-- The start of `HandleWrite`, when the event loop calls it: the bytes are read.
unfoldable pub built_from : Out → WriteStage → Out
built_from o off = if o.started then record o { stage = built; out_smsg = o.outgoing.1 } else o
built_from o _ = o

unfoldable pub begin_write : Out → Out
unfolding built_from
begin_write o = built_from o o.stage

-- The groups are read, and both are sent.
unfoldable pub sent_from : Out → WriteStage → Out
sent_from o built = record o { stage = sent; wire = o.wire ++ ((o.outgoing.0, o.out_smsg) ∷ []) }
sent_from o _ = o

unfoldable pub send_out : Out → Out
unfolding sent_from
send_out o = sent_from o o.stage

-- The monitor of `HandleWrite`, in its place.
unfoldable pub advanced_from : Out → WriteStage → Out
unfolding next_packet
advanced_from o sent = record (next_packet o o.q) { stage = leaving }
advanced_from o _ = o

unfoldable pub take_next : Out → Out
unfolding advanced_from
take_next o = advanced_from o o.stage

abbrev pub is_empty : Bytes → Bool
is_empty [] = true
is_empty (c ∷ s) = false

-- The end of `HandleWrite`: the event is started again if there is a message.
unfoldable pub restarted_from : Out → WriteStage → Out
restarted_from o leaving = record o {
  stage = off;
  started = if is_empty o.outgoing.1 then false else true;
}
restarted_from o _ = o

unfoldable pub restart : Out → Out
unfolding restarted_from
restart o = restarted_from o o.stage

pub data Move : Type 0 where
  enqueues : (p : Packet) → Move
  triggers builds sends advances restarts : Move

unfoldable pub move : Move → Out → Out
move (enqueues p) o = enqueue p o
move triggers o = trigger o
move builds o = begin_write o
move sends o = send_out o
move advances o = take_next o
move restarts o = restart o

unfoldable pub moves : List Move → Out → Out
moves [] o = o
moves (m ∷ ms) o = moves ms (move m o)
