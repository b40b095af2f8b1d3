-- ===== src/Mail/Order.antt =====
-- The order of one sender's messages in a mailbox (libcor/src/cor/services/mailer.cpp).
use pla_co_r.Base.{
  ℕ, ◌≡◌, ◌≢◌, refl, sym, ◌∙◌, true, false, Option, none, some, some-injective, none-ne-some, List,
  [], ◌∷◌, ◌++◌, All, ◌==◌, ==_iff, if◌then◌else◌, Bool-cases, inl, inr, subst, ap, arith, ◌^◌, ◌<◌,
  ◌>>=◌,
}
use pla_co_r.Text.Bytes.{Bytes, Lacks}
use pla_co_r.Names.RoundTrip.{message_group-idp}
use pla_co_r.Mail.Mailbox.{Message, box, Mailboxes, put, first, push_back, take_from, handle_read}
use pla_co_r.Mail.Outgoing.{packet}

-- What a selective receive takes: the first message of the source.
abbrev pub First : ℕ → List Message → Message × List Message → Type 0
First source ms r =
    (before : List Message) × ((after : List Message) × ((ms ≡ before ++ (r.0 ∷ after))
        × ((r.1 ≡ before ++ after)
            × ((r.0.sender ≡ source) × All (λ m. m.sender ≢ source) before))))

bind-some :
    {A B : Type 0} (o : Option A) (f : A → B) (b : B)
    → (o >>= λ a. some (f a)) ≡ some b
    → (a : A) × ((o ≡ some a) × (f a ≡ b))
bind-some none f b e = absurd (none-ne-some b e)
bind-some (some a) f b e = (a, (refl, some-injective _ _ e))

module _ (source : ℕ) (m : Message) (ms : List Message) where
  pub take_from-yes : (source == m.sender) ≡ true → take_from source (m ∷ ms) ≡ some (m, ms)
  unfolding take_from
  take_from-yes f = rw f refl

  pub take_from-no :
      (source == m.sender) ≡ false
      → take_from source (m ∷ ms) ≡ (take_from source ms >>= λ r. some (r.0, m ∷ r.1))
  unfolding take_from
  take_from-no f = rw f refl

-- `ReceiveMessage` of a source takes the first message of that source, and leaves the others in
-- their order; whatever it takes is from the source.
pub take_from-First :
    (source : ℕ) (ms : List Message) (r : Message × List Message)
    → take_from source ms ≡ some r
    → First source ms r
unfolding take_from
take_from-First source [] r e = absurd (none-ne-some r e)
take_from-First source (m ∷ ms) r e = elim (Bool-cases (source == m.sender)) [
  | inl f ↦
      subst (First source (m ∷ ms)) (some-injective _ _ (sym (take_from-yes source m ms f) ∙ e))
        ([], (ms, (refl, (refl, (sym ((==_iff source m.sender).0 f), tt)))))
  | inr f ↦
      let (r2, (e2, q)) =
        bind-some (take_from source ms) (λ z. (z.0, m ∷ z.1)) r
          (sym (take_from-no source m ms f) ∙ e) in
      let (before, (after, (u, (v, (w, a))))) = take_from-First source ms r2 e2 in
      subst (First source (m ∷ ms)) q (
        m ∷ before,
        (after, (ap (λ l. m ∷ l) u, (ap (λ l. m ∷ l) v, (w, ((λ k. ground (arith, f, k)), a))))),
      )
]

-- The messages of one sender.
abbrev pub from : ℕ → List Message → List Message
from s [] = []
from s (m ∷ ms) = if m.sender == s then m ∷ from s ms else from s ms

pub from-append : (s : ℕ) (xs ys : List Message) → from s (xs ++ ys) ≡ from s xs ++ from s ys
from-append s [] ys = refl
from-append s (x ∷ xs) ys = elim (Bool-cases (x.sender == s)) [
  | inl e ↦ rw e (ap (λ l. x ∷ l) (from-append s xs ys))
  | inr e ↦ rw e (from-append s xs ys)
]

-- Nothing of `s` stands among messages of none.
from-none : (s : ℕ) (xs : List Message) → All (λ m. m.sender ≢ s) xs → from s xs ≡ []
from-none s [] h = refl
from-none s (x ∷ xs) h = ground (arith, from-none s xs h.1)

module _ (s : ℕ) (x : Message) (before after : List Message) where
  from-yes :
      (x.sender == s) ≡ true
      → All (λ m. m.sender ≢ s) before
      → from s (x ∷ []) ++ from s (before ++ after) ≡ from s (before ++ (x ∷ after))
  from-yes e h =
      rw (from-append s before after, from-append s before (x ∷ after), from-none s before h, e)
        refl

  from-no :
      (x.sender == s) ≡ false
      → from s (x ∷ []) ++ from s (before ++ after) ≡ from s (before ++ (x ∷ after))
  from-no e = rw (from-append s before after, from-append s before (x ∷ after), e) refl

pub First-from :
    (s source : ℕ) (ms : List Message) (r : Message × List Message)
    → First source ms r
    → from s (r.0 ∷ []) ++ from s r.1 ≡ from s ms
First-from s source ms r h =
    let (before, (after, (u, (v, (w, a))))) = h in
    ap (λ l. from s (r.0 ∷ []) ++ from s l) v
    ∙ elim (Bool-cases (r.0.sender == s)) [
      | inl e ↦
          from-yes s r.0 before after e
            (subst (λ k. All (λ m. m.sender ≢ k) before) (sym w ∙ (==_iff r.0.sender s).0 e) a)
      | inr e ↦ from-no s r.0 before after e
    ]
    ∙ ap (from s) (sym u)

pub first-from :
    (s : ℕ) (ms : List Message) (r : Message × List Message)
    → first ms ≡ some r
    → from s (r.0 ∷ []) ++ from s r.1 ≡ from s ms
first-from s [] r e = absurd (none-ne-some r e)
first-from s (m ∷ ms) r e =
    subst (λ z. from s (z.0 ∷ []) ++ from s z.1 ≡ from s (m ∷ ms)) (some-injective _ _ e)
      (sym (from-append s (m ∷ []) ms))

-- A message that `SendMessage` puts into a packet, `HandleRead` puts at the end of the mailbox of
-- its destination, with the sender set, and leaves the other mailboxes alone, for an archive that
-- reads back what it writes, an application name without `@`, and an identifier of 32 bits.
pub sent_arrives :
    (write : Message → Bytes) (read : Bytes → Option Message) (app : Bytes) (idp dest : ℕ)
    (msg : Message) (boxes : Mailboxes)
    → ((m : Message) → read (write m) ≡ some m)
    → Lacks b'@' app
    → dest < 2 ^ 32
    → handle_read read boxes (packet write app idp dest msg).0 (packet write app idp dest msg).1
      ≡ some (put boxes dest (box boxes dest ++ (record msg { sender = idp } ∷ [])))
unfolding handle_read packet push_back
sent_arrives write read app idp dest msg boxes law h l =
    rw (law (record msg { sender = idp }), message_group-idp app dest h l) refl
