-- ===== src/HostFile/Matches.antt =====
-- What the regular expressions of a host file's line match, part by part.
use pla_co_r.Base.{ℕ, ◌≡◌, refl, Bool, true, false, [], ◌∷◌, ◌++◌, All, arith}
use pla_co_r.Text.Bytes.{Bytes, Lacks}
use pla_co_r.Text.Decimal.{is_digit}
use pla_co_r.HostFile.Line.{
  colon, is_name_byte, class_part, class_rest, at_end, all_digits, is_number, optional_colon,
  after_colon, after_number, after_name,
}

abbrev pub Of : (ℕ → Bool) → Bytes → Type 0
Of p = All (λ c. p c ≡ true)

-- The text does not go on with a byte of the class.
abbrev pub Stops : (ℕ → Bool) → Bytes → Type 0
Stops p [] = Unit
Stops p (c ∷ s) = p c ≡ false

abbrev pub IsName : Bytes → Type 0
IsName s = (at_end s ≡ false) × Of is_name_byte s

abbrev pub IsNumber : Bytes → Type 0
IsNumber s = is_number s ≡ true

class_part-append : (p : ℕ → Bool) (s r : Bytes) → Of p s → Stops p r → class_part p (s ++ r) ≡ s
class_part-append p [] [] h l = refl
class_part-append p [] (c ∷ r) h l = rw l refl
class_part-append p (c ∷ s) r h l = rw (h.0, class_part-append p s r h.1 l) refl

class_rest-append : (p : ℕ → Bool) (s r : Bytes) → Of p s → Stops p r → class_rest p (s ++ r) ≡ r
class_rest-append p [] [] h l = refl
class_rest-append p [] (c ∷ r) h l = rw l refl
class_rest-append p (c ∷ s) r h l = rw (h.0, class_rest-append p s r h.1 l) refl

pub after_name-append :
    (p : Bytes → Bool) (s r : Bytes) → IsName s → Stops is_name_byte r → after_name p (s ++ r) ≡ p r
after_name-append p s r h l =
    rw (class_part-append is_name_byte s r h.1 l, class_rest-append is_name_byte s r h.1 l, h.0)
      refl

all_digits-Of : (s : Bytes) → all_digits s ≡ true → Of is_digit s
all_digits-Of [] h = tt
all_digits-Of (c ∷ s) h = (ground arith, all_digits-Of s (ground arith))

number-Of : (n : Bytes) → IsNumber n → Of is_digit n
number-Of [] h = tt
number-Of (c ∷ []) h = (ground arith, tt)
number-Of (c ∷ d ∷ s) h = (ground arith, all_digits-Of (d ∷ s) (ground arith))

pub after_number-append :
    (p : Bytes → Bool) (n r : Bytes) → IsNumber n → Stops is_digit r → after_number p (n ++ r) ≡ p r
after_number-append p n r h l =
    rw
      (
        class_part-append is_digit n r (number-Of n h) l,
        class_rest-append is_digit n r (number-Of n h) l,
        h,
      )
      refl

pub name-Lacks : (s : Bytes) → Of is_name_byte s → Lacks colon s
name-Lacks [] h = tt
name-Lacks (c ∷ s) h = (ground arith, name-Lacks s h.1)

digits-Lacks : (s : Bytes) → Of is_digit s → Lacks colon s
digits-Lacks [] h = tt
digits-Lacks (c ∷ s) h = (ground arith, digits-Lacks s h.1)

pub number-Lacks : (n : Bytes) → IsNumber n → Lacks colon n
number-Lacks n h = digits-Lacks n (number-Of n h)

-- A number is no colon.
pub optional_colon-number : (n r : Bytes) → IsNumber n → optional_colon (n ++ r) ≡ false
optional_colon-number [] r h = cc
optional_colon-number (c ∷ n) r h = ground arith

pub after_colon-number :
    (p : Bytes → Bool) (n r : Bytes) → IsNumber n → after_colon p (n ++ r) ≡ false
after_colon-number p [] r h = cc
after_colon-number p (c ∷ n) r h = ground arith
