-- ===== src/Text/Decimal.antt =====
-- `std::to_string` of an unsigned number and `std::stoul`.
use mathlib.Core.Option
use pla_co_r.Base.{
  ℕ, zero, suc, ◌+◌, ◌-◌, ◌*◌, ◌/◌, ◌%◌, ◌^◌, ◌<◌, ◌≡◌, ◌≢◌, Bool, true, ◌&&◌, ◌||◌, Option, none,
  some, [], ◌∷◌, All, ltb, leb, ◌==◌, if◌then◌else◌, Bool-cases, inl, inr, subst, ◌∙◌, arith,
}
use pla_co_r.Text.Bytes.{Bytes}

-- The digits of `n` before `out`; each round takes one, so a number needs no more rounds than
-- its size.
unfoldable pub digits : ℕ → ℕ → Bytes → Bytes
digits zero n out = out
digits (suc rounds) n out =
    let more = digits rounds (n / 10) ((b'0' + n % 10) ∷ out) in
    if ltb n 10 then (b'0' + n) ∷ out else more

unfoldable pub to_string : ℕ → Bytes
to_string n = digits (suc n) n []

abbrev pub is_digit : ℕ → Bool
is_digit c = leb b'0' c && leb c b'9'

abbrev is_space : ℕ → Bool
is_space c = c == b' ' || (leb 9 c && leb c 13)

-- The digits at the front, in a 64-bit word; `none` is `std::out_of_range`.
unfoldable pub scan : Bytes → ℕ → Option ℕ
scan [] v = some v
scan (c ∷ s) v =
    let more = scan s (v * 10 + (c - b'0')) in
    if is_digit c then if ltb (v * 10 + (c - b'0')) (2 ^ 64) then more else none else some v

-- There must be a digit; `none` is also `std::invalid_argument`.
unfoldable pub scan_digits : Bytes → Option ℕ
scan_digits [] = none
scan_digits (c ∷ s) = if is_digit c then scan (c ∷ s) 0 else none

unfoldable pub skip_spaces : Bytes → Bytes
skip_spaces [] = []
skip_spaces (c ∷ s) = if is_space c then skip_spaces s else c ∷ s

unfoldable pub scan_signed : Bytes → Option ℕ
scan_signed [] = none
scan_signed (c ∷ s) =
    if c == b'-'
    then Option.map (λ v. (2 ^ 64 - v) % 2 ^ 64) (scan_digits s)
    else if c == b'+'
    then scan_digits s
    else scan_digits (c ∷ s)

unfoldable pub stoul : Bytes → Option ℕ
stoul s = scan_signed (skip_spaces s)

scan-digits :
    (rounds n : ℕ) (out : Bytes)
    → n < rounds
    → n < 2 ^ 64
    → scan (digits rounds n out) 0 ≡ scan out n
unfolding digits scan
scan-digits zero n out h l = absurd (omega arith)
scan-digits (suc rounds) n out h l =
    ground (arith, scan-digits rounds (n / 10) ((b'0' + n % 10) ∷ out))

abbrev StartsDigit : Bytes → Type 0
StartsDigit [] = ⊥
StartsDigit (c ∷ s) = is_digit c ≡ true

digits-StartsDigit : (rounds n : ℕ) (out : Bytes) → n < rounds → StartsDigit (digits rounds n out)
unfolding digits
digits-StartsDigit zero n out h = absurd (omega arith)
digits-StartsDigit (suc rounds) n out h = elim (Bool-cases (ltb n 10)) [
  | inl small ↦ rw small (ground arith)
  | inr large ↦ rw large (digits-StartsDigit rounds (n / 10) ((b'0' + n % 10) ∷ out) (ground arith))
]

stoul-scan : (s : Bytes) → StartsDigit s → stoul s ≡ scan s 0
unfolding stoul scan_signed skip_spaces scan_digits
stoul-scan [] h = absurd h
stoul-scan (c ∷ s) h = ground arith

digits-All :
    (rounds n : ℕ) (out : Bytes)
    → All (λ b. is_digit b ≡ true) out
    → All (λ b. is_digit b ≡ true) (digits rounds n out)
unfolding digits
digits-All zero n out h = h
digits-All (suc rounds) n out h = elim (Bool-cases (ltb n 10)) [
  | inl small ↦ rw small (ground arith, h)
  | inr large ↦ rw large (digits-All rounds (n / 10) ((b'0' + n % 10) ∷ out) (ground arith, h))
]

-- The text of a number holds digits only.
pub to_string-All : (n : ℕ) → All (λ b. is_digit b ≡ true) (to_string n)
unfolding to_string
to_string-All n = digits-All (suc n) n [] tt

-- `std::stoul` reads back what `std::to_string` writes.
pub stoul-to_string : (n : ℕ) → n < 2 ^ 64 → stoul (to_string n) ≡ some n
unfolding to_string scan
stoul-to_string n h =
    stoul-scan _ (digits-StartsDigit (suc n) n [] (omega arith))
    ∙ scan-digits (suc n) n [] (omega arith) h

pub to_string-ne-nil : (n : ℕ) → to_string n ≢ []
unfolding to_string
to_string-ne-nil n e = subst StartsDigit e (digits-StartsDigit (suc n) n [] (omega arith))
