-- ===== src/Wire/Tests.antt =====
-- A small archive, and a resource that is sent with it.
use mathlib.Core.List.{map}
use mathlib.Core.Option
use pla_co_r.Base.{
  ℕ, zero, suc, ◌+◌, ◌*◌, ◌/◌, ◌%◌, ◌≡◌, refl, ap, ◌∙◌, Option, none, some, List, [], ◌∷◌, false,
  ◌^◌, ◌<◌, ◌>>=◌, arith,
}
use pla_co_r.Text.Bytes.{Bytes, codes, Lacks}
use pla_co_r.Wire.Archive.{
  Archive, Value, Shape, shape, ReadsBack, number, word, object, u32, text, pointer,
}
use pla_co_r.Wire.Handle.{handle_regular_message}
use pla_co_r.Wire.Asked.{send, sent_token_update_reply, asked, deliver}
use pla_co_r.Wire.RoundTrip.{handled_as_sent}

-- A number is four bytes, the lowest first.
abbrev put_number : ℕ → Bytes → Bytes
put_number n b = n % 256 ∷ (n / 256 % 256 ∷ (n / 65536 % 256 ∷ (n / 16777216 % 256 ∷ b)))

abbrev take_number : Bytes → Option (ℕ × Bytes)
take_number (b0 ∷ (b1 ∷ (b2 ∷ (b3 ∷ b)))) = some (b0 + 256 * b1 + 65536 * b2 + 16777216 * b3, b)
take_number _ = none

-- Before each byte of a text stands a 1, and a 0 at the end.
abbrev put_text : Bytes → Bytes → Bytes
put_text [] b = 0 ∷ b
put_text (c ∷ s) b = 1 ∷ (c ∷ put_text s b)

abbrev take_text : Bytes → Option (Bytes × Bytes)
take_text [] = none
take_text (zero ∷ b) = some ([], b)
take_text (suc k ∷ []) = none
take_text (suc k ∷ (c ∷ b)) = Option.map (λ p. (c ∷ p.0, p.1)) (take_text b)

-- A resource is a text here.
abbrev write_all : List (Value Bytes) → Bytes
write_all [] = []
write_all (number n ∷ vs) = put_number n (write_all vs)
write_all (word s ∷ vs) = put_text s (write_all vs)
write_all (object r ∷ vs) = put_text r (write_all vs)

abbrev read_all : List Shape → Bytes → Option (List (Value Bytes))
read_all [] b = some []
read_all (u32 ∷ ss) b = take_number b >>= λ p. Option.map (λ vs. number p.0 ∷ vs) (read_all ss p.1)
read_all (text ∷ ss) b = take_text b >>= λ p. Option.map (λ vs. word p.0 ∷ vs) (read_all ss p.1)
read_all (pointer ∷ ss) b =
    take_text b >>= λ p. Option.map (λ vs. object p.0 ∷ vs) (read_all ss p.1)

abbrev archive : Archive Bytes
archive = record { write = write_all; read = read_all }

take_number-put_number :
    (n : ℕ) (b : Bytes) → n < 2 ^ 32 → take_number (put_number n b) ≡ some (n, b)
take_number-put_number n b l = ap (λ k. some (k, b)) (omega (arith, l))

take_text-put_text : (s b : Bytes) → take_text (put_text s b) ≡ some (s, b)
take_text-put_text [] b = refl
take_text-put_text (c ∷ s) b = ap (Option.map (λ p. (c ∷ p.0, p.1))) (take_text-put_text s b)

archive-ReadsBack : ReadsBack archive
archive-ReadsBack [] h = refl
archive-ReadsBack (number n ∷ vs) h =
    ap (λ o. o >>= λ p. Option.map (λ ws. number p.0 ∷ ws) (read_all (map shape vs) p.1))
      (take_number-put_number n (write_all vs) h.0)
    ∙ ap (Option.map (λ ws. number n ∷ ws)) (archive-ReadsBack vs h.1)
archive-ReadsBack (word s ∷ vs) h =
    ap (λ o. o >>= λ p. Option.map (λ ws. word p.0 ∷ ws) (read_all (map shape vs) p.1))
      (take_text-put_text s (write_all vs))
    ∙ ap (Option.map (λ ws. word s ∷ ws)) (archive-ReadsBack vs h.1)
archive-ReadsBack (object s ∷ vs) h =
    ap (λ o. o >>= λ p. Option.map (λ ws. object p.0 ∷ ws) (read_all (map shape vs) p.1))
      (take_text-put_text s (write_all vs))
    ∙ ap (Option.map (λ ws. object s ∷ ws)) (archive-ReadsBack vs h.1)

app-at : Lacks b'@' (codes "app")
app-at = ((λ e. ground arith), ((λ e. ground arith), ((λ e. ground arith), tt)))

app-dollar : Lacks b'$' (codes "app")
app-dollar = ((λ e. ground arith), ((λ e. ground arith), ((λ e. ground arith), tt)))

handled_as_sent_example :
    handle_regular_message archive false (codes "#b#h") (
      deliver (codes "#a#h") (
        send archive
          (codes "app")
          (sent_token_update_reply 4294967041 (codes "data") (codes "#b#h"))))
    ≡ some (
        asked false
          (codes "#b#h")
          (codes "#a#h")
          (sent_token_update_reply 4294967041 (codes "data") (codes "#b#h")))
handled_as_sent_example =
    handled_as_sent archive archive-ReadsBack (codes "app") app-at app-dollar false (codes "#b#h")
      (codes "#a#h") (sent_token_update_reply 4294967041 (codes "data") (codes "#b#h"))
      (omega arith)
