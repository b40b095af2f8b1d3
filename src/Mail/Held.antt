-- ===== src/Mail/Held.antt =====
-- What the outgoing queue of libcor/src/cor/services/mailer.cpp holds, and when it is well formed.
use mathlib.Core.List.{append-nil}
use mathlib.Core.List.{Sublist}
use mathlib.Core.List.Sublist
use pla_co_r.Base.{
  ℕ, ◌+◌, ◌<◌, ◌≡◌, ◌⊎◌, refl, ◌∙◌, Bool, true, false, List, [], ◌∷◌, ◌++◌, All, length,
  if◌then◌else◌, Bool-cases, inl, inr, subst, ap, arith,
}
use pla_co_r.Text.Bytes.{Bytes}
use pla_co_r.Mail.Outgoing.{
  Packet, WriteStage, off, built, sent, Out, is_empty, Move, enqueues, advances, move,
}

abbrev pub Filled : Packet → Type 0
Filled p = is_empty p.1 ≡ false

-- Only those that hold something.
unfoldable pub real : List Packet → List Packet
real [] = []
real (p ∷ ps) = if is_empty p.1 then real ps else p ∷ real ps

-- What `SendMessage` has accepted and the communication system has not been given. Once the handler
-- has sent its message, only the queue is left, unless that message was empty.
abbrev pub pending_at : WriteStage → Bytes → Packet → List Packet → List Packet
pending_at sent (c ∷ s) x q = q
pending_at _ s x q = x ∷ q

unfoldable pub pending : Out → List Packet
pending o = if o.ongoing_write then pending_at o.stage o.out_smsg o.outgoing o.q else []

-- Does the monitor of `HandleWrite` drop a message: was one entered that it has not sent?
abbrev pub drops_at : WriteStage → Bytes → Bool → ℕ
drops_at sent [] true = 1
drops_at _ s w = 0

abbrev pub drops : Move → Out → ℕ
drops advances o = drops_at o.stage o.out_smsg o.ongoing_write
drops _ o = 0

unfoldable pub dropped : List Move → Out → ℕ
dropped [] o = 0
dropped (m ∷ ms) o = drops m o + dropped ms (move m o)

unfoldable pub enqueued : List Move → List Packet
enqueued [] = []
enqueued (enqueues p ∷ ms) = p ∷ enqueued ms
enqueued (m ∷ ms) = enqueued ms

abbrev pub FilledMove : Move → Type 0
FilledMove (enqueues p) = Filled p
FilledMove _ = Unit

pub real-append : (ps qs : List Packet) → real (ps ++ qs) ≡ real ps ++ real qs
unfolding real
real-append [] qs = refl
real-append (p ∷ ps) qs = elim (Bool-cases (is_empty p.1)) [
  | inl e ↦ rw e (real-append ps qs)
  | inr e ↦ rw e (ap (λ l. p ∷ l) (real-append ps qs))
]

pub real-Filled :
    (wire : List Packet) (x : Packet) → Filled x → real (wire ++ (x ∷ [])) ≡ real wire ++ (x ∷ [])
unfolding real
real-Filled wire x f = real-append wire (x ∷ []) ∙ rw f refl

pub real-empty : (wire : List Packet) (g : List Bytes) → real (wire ++ ((g, []) ∷ [])) ≡ real wire
unfolding real
real-empty wire g = real-append wire ((g, []) ∷ []) ∙ append-nil (real wire)

-- Is the handler at work, or does it or a sender start it?
abbrev pub Awake : WriteStage → Bool → ℕ → Type 0
Awake off s t = (s ≡ true) ⊎ (0 < t)
Awake _ s t = Unit

-- The bytes that the handler has read are those of the message, or none.
abbrev pub Text : Bool → WriteStage → Bytes → Bytes → Type 0
Text true built s x = (s ≡ []) ⊎ (s ≡ x)
Text false built s x = s ≡ []
Text false sent s x = s ≡ []
Text _ _ s x = Unit

-- The state of a queue with a write under way, and of one without.
abbrev pub Busy : Bool → Out → Type 0
Busy true o = Filled o.outgoing × (All Filled o.q × Awake o.stage o.started o.triggered)
Busy false o = (o.outgoing ≡ ([], [])) × (o.q ≡ [])

abbrev pub Inv : Out → Type 0
Inv o = Busy o.ongoing_write o × Text o.ongoing_write o.stage o.out_smsg o.outgoing.1

abbrev pub state : Bool → List Packet → Packet → Bool → ℕ → WriteStage → Bytes → List Packet → Out
state ongoing q outgoing started triggered stage out_smsg wire = record {
  ongoing_write = ongoing;
  q = q;
  outgoing = outgoing;
  started = started;
  triggered = triggered;
  stage = stage;
  out_smsg = out_smsg;
  wire = wire;
}

abbrev pub held : Out → List Packet
held o = real o.wire ++ pending o

-- The new state is well formed, and holds in order what was there and the new packets, but for `k`.
abbrev pub Kept : Out → List Packet → ℕ → Out → Type 0
Kept o new k o2 =
    Inv o2 × (Sublist (held o2) (held o ++ new) × (length (held o2) + k ≡ length (held o ++ new)))

pub still_holds :
    (o o2 : Out) (new : List Packet) → Inv o2 → held o2 ≡ held o ++ new → Kept o new 0 o2
still_holds o o2 new i e =
    (i, (subst (Sublist (held o2)) e (Sublist.refl (held o2)), omega (arith, ap length e)))
