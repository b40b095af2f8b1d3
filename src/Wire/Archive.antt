-- ===== src/Wire/Archive.antt =====
-- The part of the cereal archive that the controller uses: a sequence of values written as bytes,
-- and read back by their types. The archive is a parameter.
use mathlib.Core.List.{map}
use pla_co_r.Base.{ℕ, ◌≡◌, ap, ◌^◌, ◌<◌, Option, none, some, List, [], ◌∷◌, All}
use pla_co_r.Text.Bytes.{Bytes}

-- `idp_t` and `page_t`, `std::string`, and a `std::unique_ptr<Resource>`.
pub data Shape : Type 0 where
  u32 text pointer : Shape

pub data Value (R : Type 0) : Type 0 where
  number : ℕ → Value R
  word : Bytes → Value R
  object : R → Value R

abbrev pub shape : {R : Type 0} → Value R → Shape
shape (number n) = u32
shape (word s) = text
shape (object r) = pointer

-- A number has 32 bits.
abbrev pub Fits : {R : Type 0} → Value R → Type 0
Fits (number n) = n < 2 ^ 32
Fits (word s) = Unit
Fits (object r) = Unit

pub record Archive (R : Type 0) : Type 0 where
  pub write : List (Value R) → Bytes
  pub read : List Shape → Bytes → Option (List (Value R))

-- What was written is read back.
abbrev pub ReadsBack : {R : Type 0} → Archive R → Type 0
ReadsBack {R} a = (vs : List (Value R)) → All Fits vs → a.read (map shape vs) (a.write vs) ≡ some vs

abbrev pub one_number : {R : Type 0} → Option (List (Value R)) → Option ℕ
one_number (some (number n ∷ [])) = some n
one_number _ = none

abbrev pub two_numbers : {R : Type 0} → Option (List (Value R)) → Option (ℕ × ℕ)
two_numbers (some (number n ∷ (number m ∷ []))) = some (n, m)
two_numbers _ = none

abbrev pub one_word : {R : Type 0} → Option (List (Value R)) → Option Bytes
one_word (some (word s ∷ [])) = some s
one_word _ = none

abbrev pub number_word : {R : Type 0} → Option (List (Value R)) → Option (ℕ × Bytes)
number_word (some (number n ∷ (word s ∷ []))) = some (n, s)
number_word _ = none

abbrev pub number_object : {R : Type 0} → Option (List (Value R)) → Option (ℕ × R)
number_object (some (number n ∷ (object r ∷ []))) = some (n, r)
number_object _ = none

module _ {R : Type 0} (a : Archive R) where
  -- `iarchive(idp)`, `iarchive(idp, pred)`, and so on.
  unfoldable pub read_number : Bytes → Option ℕ
  read_number b = one_number (a.read (u32 ∷ []) b)

  unfoldable pub read_numbers : Bytes → Option (ℕ × ℕ)
  read_numbers b = two_numbers (a.read (u32 ∷ (u32 ∷ [])) b)

  unfoldable pub read_word : Bytes → Option Bytes
  read_word b = one_word (a.read (text ∷ []) b)

  unfoldable pub read_number_word : Bytes → Option (ℕ × Bytes)
  read_number_word b = number_word (a.read (u32 ∷ (text ∷ [])) b)

  unfoldable pub read_number_object : Bytes → Option (ℕ × R)
  read_number_object b = number_object (a.read (u32 ∷ (pointer ∷ [])) b)

  module _ (law : ReadsBack a) where
    pub read_number-write : (n : ℕ) → n < 2 ^ 32 → read_number (a.write (number n ∷ [])) ≡ some n
    unfolding read_number
    read_number-write n l = ap one_number (law (number n ∷ []) (l, tt))

    pub read_numbers-write :
        (n m : ℕ)
        → n < 2 ^ 32
        → m < 2 ^ 32
        → read_numbers (a.write (number n ∷ (number m ∷ []))) ≡ some (n, m)
    unfolding read_numbers
    read_numbers-write n m l k = ap two_numbers (law (number n ∷ (number m ∷ [])) (l, (k, tt)))

    pub read_word-write : (s : Bytes) → read_word (a.write (word s ∷ [])) ≡ some s
    unfolding read_word
    read_word-write s = ap one_word (law (word s ∷ []) (tt, tt))

    pub read_number_word-write :
        (n : ℕ) (s : Bytes)
        → n < 2 ^ 32
        → read_number_word (a.write (number n ∷ (word s ∷ []))) ≡ some (n, s)
    unfolding read_number_word
    read_number_word-write n s l = ap number_word (law (number n ∷ (word s ∷ [])) (l, (tt, tt)))

    pub read_number_object-write :
        (n : ℕ) (r : R)
        → n < 2 ^ 32
        → read_number_object (a.write (number n ∷ (object r ∷ []))) ≡ some (n, r)
    unfolding read_number_object
    read_number_object-write n r l =
        ap number_object (law (number n ∷ (object r ∷ [])) (l, (tt, tt)))
