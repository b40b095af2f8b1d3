-- ===== src/Mail/Archive.antt =====
-- An archive of messages, for the tests.
use mathlib.Core.List.{append-nil}
use pla_co_r.Base.{zero, suc, none, ap, ◌∙◌, ◌≡◌, refl, Option, some, List, [], ◌∷◌, ◌++◌, arith}
use pla_co_r.Text.Bytes.{Bytes, codes, Lacks}
use pla_co_r.Mail.Mailbox.{Message}

-- An archive: the fields, and in the list of texts a 0 before each text and a 1 before each byte.
abbrev pub put_text : Bytes → Bytes → Bytes
put_text [] b = b
put_text (c ∷ s) b = 1 ∷ (c ∷ put_text s b)

abbrev pub put_texts : List Bytes → Bytes
put_texts [] = []
put_texts (s ∷ ss) = 0 ∷ put_text s (put_texts ss)

-- The rest of a text, and the texts behind it.
abbrev pub texts : Bytes → Bytes × List Bytes
texts [] = ([], [])
texts (zero ∷ b) = ([], (texts b).0 ∷ (texts b).1)
texts (suc k ∷ []) = ([], [])
texts (suc k ∷ (c ∷ b)) = (c ∷ (texts b).0, (texts b).1)

abbrev pub write : Message → Bytes
write m = m.type ∷ (m.sender ∷ put_texts m.content)

abbrev pub read : Bytes → Option Message
read (t ∷ (s ∷ b)) = some (record { type = t; sender = s; content = (texts b).1 })
read _ = none

texts-put_text : (s b : Bytes) → texts (put_text s b) ≡ (s ++ (texts b).0, (texts b).1)
texts-put_text [] b = refl
texts-put_text (c ∷ s) b = ap (λ p. (c ∷ p.0, p.1)) (texts-put_text s b)

texts-put_texts : (ss : List Bytes) → texts (put_texts ss) ≡ ([], ss)
texts-put_texts [] = refl
texts-put_texts (s ∷ ss) =
    ap (λ p. ([], p.0 ∷ p.1))
      (texts-put_text s (put_texts ss)
        ∙ ap (λ p. (s ++ p.0, p.1)) (texts-put_texts ss)
        ∙ ap (λ l. (l, ss)) (append-nil s))

pub read-write : (m : Message) → read (write m) ≡ some m
read-write m =
    ap (λ p. some (record { type = m.type; sender = m.sender; content = p.1 }))
      (texts-put_texts m.content)

pub app-at : Lacks b'@' (codes "app")
app-at = ((λ e. ground arith), ((λ e. ground arith), ((λ e. ground arith), tt)))
