-- ===== src/Mail/Fifo.antt =====
-- Histories of the mailboxes (libcor/src/cor/services/mailer.cpp): what arrives and what is received.
use mathlib.Core.List.{append_assoc, append-nil}
use pla_co_r.Base.{
  ℕ, ◌≡◌, ◌≢◌, refl, sym, ◌∙◌, true, false, Option, none, some, List, [], ◌∷◌, ◌++◌, All, ◌==◌,
  ==_iff, if◌then◌else◌, Bool-cases, inl, inr, subst, ap,
}
use pla_co_r.Mail.Mailbox.{
  Message, box, or_empty, emplaced, Mailboxes, put, first, taken, push_back, receive_message,
  take_from, receive_message_from, create_mailbox, delete_mailbox,
}
use pla_co_r.Mail.Order.{from, from-append, First-from, first-from, take_from-First}

-- What happens to the mailboxes. A receive that finds no message waits, and changes nothing.
pub data Step : Type 0 where
  arrives : (idp : ℕ) → (msg : Message) → Step
  receives : (idp : ℕ) → Step
  receives_from : (idp source : ℕ) → Step
  creates deletes : (idp : ℕ) → Step

abbrev left : Mailboxes → Option (Message × Mailboxes) → Mailboxes
left boxes none = boxes
left boxes (some r) = r.1

abbrev got : Option (Message × Mailboxes) → List Message
got none = []
got (some r) = r.0 ∷ []

unfoldable pub step : Step → Mailboxes → Mailboxes
step (arrives idp msg) boxes = push_back boxes idp msg
step (receives idp) boxes = left boxes (receive_message boxes idp)
step (receives_from idp source) boxes = left boxes (receive_message_from boxes idp source)
step (creates idp) boxes = create_mailbox boxes idp
step (deletes idp) boxes = delete_mailbox boxes idp

unfoldable pub steps : List Step → Mailboxes → Mailboxes
steps [] boxes = boxes
steps (t ∷ ts) boxes = steps ts (step t boxes)

module _ (k : ℕ) where
  -- What a step hands to a receiver of the mailbox `k`, and what arrives in it.
  unfoldable pub handed : Step → Mailboxes → List Message
  handed (receives idp) boxes = if k == idp then got (receive_message boxes idp) else []
  handed (receives_from idp source) boxes =
      if k == idp then got (receive_message_from boxes idp source) else []
  handed _ boxes = []

  unfoldable pub came : Step → List Message
  came (arrives idp msg) = if k == idp then msg ∷ [] else []
  came _ = []

  unfoldable pub all_handed : List Step → Mailboxes → List Message
  all_handed [] boxes = []
  all_handed (t ∷ ts) boxes = handed t boxes ++ all_handed ts (step t boxes)

  unfoldable pub all_came : List Step → List Message
  all_came [] = []
  all_came (t ∷ ts) = came t ++ all_came ts

  taken_other :
      (boxes : Mailboxes) (idp : ℕ) (t : Option (Message × List Message))
      → (k == idp) ≡ false
      → box (left boxes (taken boxes idp t)) k ≡ box boxes k
  unfolding taken put box
  taken_other boxes idp none e = refl
  taken_other boxes idp (some r) e = rw e refl

  taken_self :
      (s : ℕ) (boxes : Mailboxes) (idp : ℕ) (t : Option (Message × List Message))
      → (k == idp) ≡ true
      → ((r : Message × List Message)
          → t ≡ some r
          → from s (r.0 ∷ []) ++ from s r.1 ≡ from s (box boxes k))
      → from s (got (taken boxes idp t)) ++ from s (box (left boxes (taken boxes idp t)) k)
        ≡ from s (box boxes k)
  unfolding taken put box
  taken_self s boxes idp none e h = refl
  taken_self s boxes idp (some r) e h = rw e (h r refl)

  -- A step that takes `t` out of the mailbox `idp`.
  takes :
      (s : ℕ) (boxes : Mailboxes) (idp : ℕ) (t : Option (Message × List Message))
      → ((r : Message × List Message)
          → t ≡ some r
          → from s (r.0 ∷ []) ++ from s r.1 ≡ from s (box boxes idp))
      → from s (if k == idp then got (taken boxes idp t) else [])
          ++ from s (box (left boxes (taken boxes idp t)) k)
        ≡ from s (box boxes k) ++ []
  takes s boxes idp t h = elim (Bool-cases (k == idp)) [
    | inl e ↦ rw e (
        taken_self s boxes idp t e (
          subst
            (λ j.
              (r : Message × List Message)
              → t ≡ some r
              → from s (r.0 ∷ []) ++ from s r.1 ≡ from s (box boxes j))
            (sym ((==_iff k idp).0 e)) h)
        ∙ sym (append-nil (from s (box boxes k))))
    | inr e ↦
        rw e (ap (from s) (taken_other boxes idp t e) ∙ sym (append-nil (from s (box boxes k))))
  ]

  put_self :
      (boxes : Mailboxes) (idp : ℕ) (ms : List Message)
      → (k == idp) ≡ true
      → box (put boxes idp ms) k ≡ ms
  unfolding put box
  put_self boxes idp ms e = rw e refl

  put_other :
      (boxes : Mailboxes) (idp : ℕ) (ms : List Message)
      → (k == idp) ≡ false
      → box (put boxes idp ms) k ≡ box boxes k
  unfolding put box
  put_other boxes idp ms e = rw e refl

  delete_other :
      (boxes : Mailboxes) (idp : ℕ)
      → (k == idp) ≡ false
      → box (delete_mailbox boxes idp) k ≡ box boxes k
  unfolding delete_mailbox box
  delete_other boxes idp e = rw e refl

  box_missing :
      (boxes : Mailboxes) (idp : ℕ) → boxes idp ≡ none → (k == idp) ≡ true → box boxes k ≡ []
  unfolding box
  box_missing boxes idp e f = ap (λ j. or_empty (boxes j)) ((==_iff k idp).0 f) ∙ ap or_empty e

  box-emplaced :
      (boxes : Mailboxes) (idp : ℕ) (o : Option (List Message))
      → boxes idp ≡ o
      → box (emplaced boxes idp o) k ≡ box boxes k
  unfolding emplaced
  box-emplaced boxes idp (some ms) e = refl
  box-emplaced boxes idp none e = elim (Bool-cases (k == idp)) [
    | inl f ↦ put_self boxes idp [] f ∙ sym (box_missing boxes idp e f)
    | inr f ↦ put_other boxes idp [] f
  ]

  created : (boxes : Mailboxes) (idp : ℕ) → box (create_mailbox boxes idp) k ≡ box boxes k
  unfolding create_mailbox
  created boxes idp = box-emplaced boxes idp (boxes idp) refl

  arrived :
      (s : ℕ) (boxes : Mailboxes) (idp : ℕ) (msg : Message)
      → from s (box (push_back boxes idp msg) k)
        ≡ from s (box boxes k) ++ from s (if k == idp then msg ∷ [] else [])
  unfolding push_back
  arrived s boxes idp msg = elim (Bool-cases (k == idp)) [
    | inl e ↦ rw e (
        ap (from s) (
          put_self boxes idp (box boxes idp ++ (msg ∷ [])) e
          ∙ ap (λ j. box boxes j ++ (msg ∷ [])) (sym ((==_iff k idp).0 e)))
        ∙ from-append s (box boxes k) (msg ∷ []))
    | inr e ↦ rw e (
        ap (from s) (put_other boxes idp (box boxes idp ++ (msg ∷ [])) e)
        ∙ sym (append-nil (from s (box boxes k))))
  ]

  deleted :
      (s : ℕ) (boxes : Mailboxes) (idp : ℕ)
      → deletes idp ≢ deletes k
      → from s (box (delete_mailbox boxes idp) k) ≡ from s (box boxes k) ++ []
  deleted s boxes idp h = elim (Bool-cases (k == idp)) [
    | inl e ↦ absurd (h (ap deletes (sym ((==_iff k idp).0 e))))
    | inr e ↦ ap (from s) (delete_other boxes idp e) ∙ sym (append-nil (from s (box boxes k)))
  ]

  step-from :
      (s : ℕ) (t : Step) (boxes : Mailboxes)
      → t ≢ deletes k
      → from s (handed t boxes) ++ from s (box (step t boxes) k)
        ≡ from s (box boxes k) ++ from s (came t)
  unfolding handed step came receive_message receive_message_from create_mailbox delete_mailbox
      push_back put
  step-from s (arrives idp msg) boxes h = arrived s boxes idp msg
  step-from s (receives idp) boxes h =
      takes s boxes idp (first (box boxes idp)) (first-from s (box boxes idp))
  step-from s (receives_from idp source) boxes h =
      takes s boxes idp (take_from source (box boxes idp))
        (λ r e. First-from s source (box boxes idp) r (take_from-First source (box boxes idp) r e))
  step-from s (creates idp) boxes h =
      ap (from s) (created boxes idp) ∙ sym (append-nil (from s (box boxes k)))
  step-from s (deletes idp) boxes h = deleted s boxes idp h

  -- Whatever arrives, is received by either kind of receive, or waits, in any order: as long as
  -- the mailbox is not deleted, the messages of one sender are received in the order in which they
  -- were in the mailbox and arrived, none is lost and none is received twice. Those that were
  -- received, and then those that are left, are those that were there, and then those that came.
  pub received_in_order :
      (s : ℕ) (ts : List Step) (boxes : Mailboxes)
      → All (λ t. t ≢ deletes k) ts
      → from s (all_handed ts boxes) ++ from s (box (steps ts boxes) k)
        ≡ from s (box boxes k) ++ from s (all_came ts)
  unfolding all_handed steps all_came
  received_in_order s [] boxes h = sym (append-nil (from s (box boxes k)))
  received_in_order s (t ∷ ts) boxes h =
      rw
        (
          from-append s (handed t boxes) (all_handed ts (step t boxes)),
          from-append s (came t) (all_came ts),
        )
        (append_assoc (from s (handed t boxes)) (from s (all_handed ts (step t boxes)))
            (from s (box (steps ts (step t boxes)) k))
          ∙ ap (λ l. from s (handed t boxes) ++ l) (received_in_order s ts (step t boxes) h.1)
          ∙ sym (
              append_assoc (from s (handed t boxes)) (from s (box (step t boxes) k))
                (from s (all_came ts)))
          ∙ ap (λ l. l ++ from s (all_came ts)) (step-from s t boxes h.0)
          ∙ append_assoc (from s (box boxes k)) (from s (came t)) (from s (all_came ts)))
