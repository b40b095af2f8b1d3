-- ===== src/Mail/Kept.antt =====
-- What each part of `SendMessage` and `HandleWrite` (libcor/src/cor/services/mailer.cpp) keeps of
-- the outgoing queue.
use mathlib.Core.List.{append_assoc, append-nil, cons-ne-nil, Sublist}
use mathlib.Core.List.Sublist
use pla_co_r.Base.{
  ℕ, zero, suc, ◌+◌, ◌≡◌, refl, sym, ◌∙◌, Bool, true, false, List, [], ◌∷◌, ◌++◌, All, All-append,
  length, length-append, if◌then◌else◌, Bool-cases, inl, inr, subst, ap, arith,
}
use pla_co_r.Text.Bytes.{Bytes}
use pla_co_r.Mail.Outgoing.{
  Packet, WriteStage, off, built, sent, leaving, Out, enqueue, trigger, next_packet, begin_write,
  send_out, take_next, is_empty, restart,
}
use pla_co_r.Mail.Held.{
  Filled, real, pending_at, pending, drops_at, real-Filled, real-empty, Awake, Text, Inv, state,
  Kept, still_holds,
}

pending-snoc :
    (g : WriteStage) (b : Bytes) (x p : Packet) (q : List Packet)
    → pending_at g b x (q ++ (p ∷ [])) ≡ pending_at g b x q ++ (p ∷ [])
pending-snoc off b x p q = refl
pending-snoc built b x p q = refl
pending-snoc sent [] x p q = refl
pending-snoc sent (c ∷ b) x p q = refl
pending-snoc leaving b x p q = refl

-- A message that is entered where there is no write under way is pending.
pending-new :
    (g : WriteStage) (b y : Bytes) (p : Packet)
    → Text false g b y
    → (pending_at g b p [] ≡ p ∷ []) × Text true g b p.1
pending-new off b y p h = (refl, tt)
pending-new built b y p h = (refl, inl h)
pending-new sent [] y p h = (refl, tt)
pending-new sent (c ∷ b) y p h = absurd (cons-ne-nil c b h)
pending-new leaving b y p h = (refl, tt)

Awake-more : (g : WriteStage) (s : Bool) (t : ℕ) → Awake g s (t + 1)
Awake-more off s t = inr (omega arith)
Awake-more built s t = tt
Awake-more sent s t = tt
Awake-more leaving s t = tt

Awake-started : (g : WriteStage) (t : ℕ) → Awake g true t
Awake-started off t = inl refl
Awake-started built t = tt
Awake-started sent t = tt
Awake-started leaving t = tt

one_less :
    (base l l2 : List Packet) (x : Packet)
    → l ≡ x ∷ l2
    → Sublist (base ++ l2) ((base ++ l) ++ [])
      × (length (base ++ l2) + 1 ≡ length ((base ++ l) ++ []))
one_less base l l2 x e = (
  subst (Sublist (base ++ l2)) (ap (λ k. base ++ k) (sym e) ∙ sym (append-nil (base ++ l)))
      (Sublist.append (Sublist.refl base) (Sublist.cons x (Sublist.refl l2))),
  omega (
    arith,
    length-append base l2,
    length-append base l,
    ap length e,
    ap length (append-nil (base ++ l)),
  ),
)

pub unchanged : (o : Out) → Inv o → Kept o [] 0 o
unchanged o h = still_holds o o [] h (sym (append-nil _))

module _ (s : Bool) (t : ℕ) (wire : List Packet) where
  pub enqueue-Kept :
      (p : Packet) (w : Bool) (q : List Packet) (x : Packet) (g : WriteStage) (b : Bytes)
      → Filled p
      → Inv (state w q x s t g b wire)
      → Kept (state w q x s t g b wire) (p ∷ []) 0 (enqueue p (state w q x s t g b wire))
  unfolding enqueue pending
  enqueue-Kept p true q x g b f h =
      still_holds (state true q x s t g b wire) (state true (q ++ (p ∷ [])) x s t g b wire) (p ∷ [])
        ((h.0.0, (All-append Filled q (p ∷ []) h.0.1.0 (f, tt), h.0.1.1)), h.1)
        (ap (λ l. real wire ++ l) (pending-snoc g b x p q)
          ∙ sym (append_assoc (real wire) (pending_at g b x q) (p ∷ [])))
  enqueue-Kept p false q x g b f h =
      let new = pending-new g b x.1 p h.1 in
      still_holds (state false q x s t g b wire) (state true q p s (t + 1) g b wire) (p ∷ [])
        ((f, (subst (All Filled) (sym h.0.1) tt, Awake-more g s t)), new.1)
        (ap (λ l. real wire ++ pending_at g b p l) h.0.1
          ∙ ap (λ l. real wire ++ l) new.0
          ∙ ap (λ l. l ++ (p ∷ [])) (sym (append-nil (real wire))))

  pub begin_write-Kept :
      (w : Bool) (q : List Packet) (x : Packet) (g : WriteStage) (b : Bytes)
      → Inv (state w q x s t g b wire)
      → Kept (state w q x s t g b wire) [] 0 (begin_write (state w q x s t g b wire))
  unfolding begin_write pending
  begin_write-Kept w q x built b h = unchanged _ h
  begin_write-Kept w q x sent b h = unchanged _ h
  begin_write-Kept w q x leaving b h = unchanged _ h
  begin_write-Kept w q x off b h = elim (Bool-cases s) [
    | inl e ↦ rw e (begun w h)
    | inr e ↦ rw e (
        subst (λ z. Kept (state w q x z t off b wire) [] 0 (state w q x z t off b wire)) e
          (unchanged _ h))
  ]
    where
      begun :
          (v : Bool)
          → Inv (state v q x s t off b wire)
          → Kept (state v q x true t off b wire) [] 0 (state v q x true t built x.1 wire)
      begun true k =
          still_holds (state true q x true t off b wire) (state true q x true t built x.1 wire) []
            ((k.0.0, (k.0.1.0, tt)), inr refl) (sym (append-nil _))
      begun false k =
          still_holds (state false q x true t off b wire) (state false q x true t built x.1 wire) []
            (k.0, ap (λ y. y.1) k.0.0) (sym (append-nil _))

  pub send_out-Kept :
      (w : Bool) (q : List Packet) (x : Packet) (g : WriteStage) (b : Bytes)
      → Inv (state w q x s t g b wire)
      → Kept (state w q x s t g b wire) [] 0 (send_out (state w q x s t g b wire))
  unfolding send_out pending
  send_out-Kept w q x off b h = unchanged _ h
  send_out-Kept w q x sent b h = unchanged _ h
  send_out-Kept w q x leaving b h = unchanged _ h
  send_out-Kept false q x built b h =
      still_holds (state false q x s t built b wire)
        (state false q x s t sent b (wire ++ ((x.0, b) ∷ []))) [] (h.0, h.1)
        (ap (λ l. l ++ []) (ap (λ y. real (wire ++ ((x.0, y) ∷ []))) h.1 ∙ real-empty wire x.0)
          ∙ sym (append-nil _))
  send_out-Kept true q x built b h = elim h.1 [
    | inl e ↦
        still_holds (state true q x s t built b wire)
          (state true q x s t sent b (wire ++ ((x.0, b) ∷ []))) [] ((h.0.0, (h.0.1.0, tt)), tt)
          (ap (λ y. real (wire ++ ((x.0, y) ∷ [])) ++ pending_at sent y x q) e
            ∙ ap (λ l. l ++ (x ∷ q)) (real-empty wire x.0)
            ∙ sym (append-nil _))
    | inr e ↦
        still_holds (state true q x s t built b wire)
          (state true q x s t sent b (wire ++ ((x.0, b) ∷ []))) [] ((h.0.0, (h.0.1.0, tt)), tt)
          (ap (λ y. real (wire ++ ((x.0, y) ∷ [])) ++ pending_at sent y x q) e
            ∙ whole x h.0.0
            ∙ sym (append-nil _))
  ]
    where
      whole :
          (y : Packet)
          → Filled y
          → real (wire ++ ((y.0, y.1) ∷ [])) ++ pending_at sent y.1 y q ≡ real wire ++ (y ∷ q)
      whole (gs, []) f = cc
      whole (gs, c ∷ m) f =
          ap (λ l. l ++ q) (real-Filled wire (gs, c ∷ m) f)
          ∙ append_assoc (real wire) ((gs, c ∷ m) ∷ []) q

  pub take_next-Kept :
      (w : Bool) (q : List Packet) (x : Packet) (g : WriteStage) (b : Bytes)
      → Inv (state w q x s t g b wire)
      → Kept (state w q x s t g b wire) [] (drops_at g b w) (take_next (state w q x s t g b wire))
  unfolding take_next pending next_packet
  take_next-Kept w q x off b h = unchanged _ h
  take_next-Kept w q x built b h = unchanged _ h
  take_next-Kept w q x leaving b h = unchanged _ h
  take_next-Kept false [] x sent [] h =
      still_holds (state false [] x s t sent [] wire) (state false [] ([], []) s t leaving [] wire)
        [] ((refl, refl), tt) (sym (append-nil _))
  take_next-Kept false [] x sent (c ∷ b) h = absurd (cons-ne-nil c b h.1)
  take_next-Kept false (p ∷ ps) x sent b h = absurd (cons-ne-nil p ps h.0.1)
  take_next-Kept true [] x sent (c ∷ b) h =
      still_holds (state true [] x s t sent (c ∷ b) wire)
        (state false [] ([], []) s t leaving (c ∷ b) wire) [] ((refl, refl), tt)
        (sym (append-nil _))
  take_next-Kept true (p ∷ ps) x sent (c ∷ b) h =
      still_holds (state true (p ∷ ps) x s t sent (c ∷ b) wire)
        (state true ps p s t leaving (c ∷ b) wire) [] ((h.0.1.0.0, (h.0.1.0.1, tt)), tt)
        (sym (append-nil _))
  take_next-Kept true [] x sent [] h = (((refl, refl), tt), one_less (real wire) (x ∷ []) [] x refl)
  take_next-Kept true (p ∷ ps) x sent [] h =
      (((h.0.1.0.0, (h.0.1.0.1, tt)), tt), one_less (real wire) (x ∷ (p ∷ ps)) (p ∷ ps) x refl)

  pub restart-Kept :
      (w : Bool) (q : List Packet) (x : Packet) (g : WriteStage) (b : Bytes)
      → Inv (state w q x s t g b wire)
      → Kept (state w q x s t g b wire) [] 0 (restart (state w q x s t g b wire))
  unfolding restart pending
  restart-Kept w q x off b h = unchanged _ h
  restart-Kept w q x built b h = unchanged _ h
  restart-Kept w q x sent b h = unchanged _ h
  restart-Kept true q x leaving b h =
      still_holds (state true q x s t leaving b wire)
        (state true q x (if is_empty x.1 then false else true) t off b wire) []
        ((h.0.0, (h.0.1.0, inl (ap (λ e. if e then false else true) h.0.0))), tt)
        (sym (append-nil _))
  restart-Kept false q x leaving b h =
      still_holds (state false q x s t leaving b wire)
        (state false q x (if is_empty x.1 then false else true) t off b wire) [] (h.0, tt)
        (sym (append-nil _))

pub trigger-Kept :
    (w : Bool) (q : List Packet) (x : Packet) (s : Bool) (t : ℕ) (g : WriteStage) (b : Bytes)
    (wire : List Packet)
    → Inv (state w q x s t g b wire)
    → Kept (state w q x s t g b wire) [] 0 (trigger (state w q x s t g b wire))
unfolding trigger pending
trigger-Kept w q x s zero g b wire h = unchanged _ h
trigger-Kept true q x s (suc t) g b wire h =
    still_holds (state true q x s (suc t) g b wire) (state true q x true t g b wire) []
      ((h.0.0, (h.0.1.0, Awake-started g t)), h.1) (sym (append-nil _))
trigger-Kept false q x s (suc t) g b wire h =
    still_holds (state false q x s (suc t) g b wire) (state false q x true t g b wire) [] (h.0, h.1)
      (sym (append-nil _))
