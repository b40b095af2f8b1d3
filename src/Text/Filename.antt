-- ===== src/Text/Filename.antt =====
-- `get_filename` (libcor/src/cor/utils/utils.cpp).
use pla_co_r.Base.{
  ℕ, zero, suc, ◌+◌, ◌-◌, ◌%◌, ◌^◌, ◌≤◌, ◌<◌, ◌≡◌, refl, ap, Bool, true, false, ◌||◌, Option, none,
  some, [], ◌∷◌, length, if◌then◌else◌, ◌==◌, arith,
}
use pla_co_r.Text.Bytes.{Bytes}

-- `std::string::rfind`; `none` is `npos`.
unfoldable pub rfind : Bytes → ℕ → Option ℕ
rfind [] c = none
rfind (x ∷ s) c =
    let rest = rfind s c in
    elim rest [ some k ↦ some (suc k) | none ↦ if x == c then some 0 else none ]

unfoldable pub drop : ℕ → Bytes → Bytes
drop zero s = s
drop (suc k) [] = []
drop (suc k) (x ∷ s) = drop k s

unfoldable pub take : ℕ → Bytes → Bytes
take zero s = []
take (suc k) [] = []
take (suc k) (x ∷ s) = x ∷ take k s

-- `substr`, at most to the end of the string.
unfoldable pub substr : Bytes → ℕ → ℕ → Bytes
unfolding take drop
substr s pos count = take count (drop pos s)

abbrev pub npos : ℕ
npos = 2 ^ 64 - 1

abbrev is_some : Option ℕ → Bool
is_some none = false
is_some (some k) = true

abbrev position : Option ℕ → ℕ
position none = npos
position (some k) = k

-- The second argument of `substr`, a number of 64 bits.
unfoldable pub count_of : ℕ → Bool → Option ℕ → ℕ
count_of size with_extension dot_pos =
    (size + 2 ^ 64 - (if with_extension || is_some dot_pos then 1 else position dot_pos)) % 2 ^ 64

unfoldable pub get_filename : Bytes → Bool → ℕ → Bytes
unfolding rfind substr count_of
get_filename file_path with_extension separator = elim (rfind file_path separator) [
  | none ↦ file_path
  | some sep_pos ↦
      substr file_path (suc sep_pos)
        (count_of (length file_path) with_extension (rfind file_path b'.'))
]

-- What follows the last separator, or the whole path.
unfoldable pub file_part : Bytes → ℕ → Bytes
unfolding rfind drop
file_part s c = elim (rfind s c) [ none ↦ s | some k ↦ drop (suc k) s ]

length-drop : (k : ℕ) (s : Bytes) → length (drop k s) ≤ length s
unfolding drop
length-drop zero s = omega arith
length-drop (suc k) [] = omega arith
length-drop (suc k) (x ∷ s) = omega (arith, length-drop k s)

length-drop-suc : (k n : ℕ) (s : Bytes) → length s ≤ suc n → length (drop (suc k) s) ≤ n
unfolding drop
length-drop-suc k n [] l = omega arith
length-drop-suc k n (x ∷ s) l = omega (arith, length-drop k s, l)

take-all : (n : ℕ) (s : Bytes) → length s ≤ n → take n s ≡ s
unfolding take
take-all zero [] l = refl
take-all zero (x ∷ s) l = absurd (omega (arith, l))
take-all (suc n) [] l = refl
take-all (suc n) (x ∷ s) l = ap (λ t. x ∷ t) (take-all n s (omega (arith, l)))

count-le : (n : ℕ) (b : Bool) (d : Option ℕ) → n < npos → n ≤ suc (count_of n b d)
unfolding count_of
count-le n true d l = omega (arith, l)
count-le n false (some k) l = omega (arith, l)
count-le n false none l = omega (arith, l)

-- The extension is never removed, whatever `with_extension` says: the result is what follows the
-- last separator.
pub get_filename-file_part :
    (s : Bytes) (with_extension : Bool) (c : ℕ)
    → length s < npos
    → get_filename s with_extension c ≡ file_part s c
unfolding get_filename file_part substr
get_filename-file_part s b c l = go (rfind s c)
  where
    go :
        (o : Option ℕ)
        → elim o as (λ x. Bytes) [
          | none ↦ s
          | some k ↦ substr s (suc k) (count_of (length s) b (rfind s b'.'))
        ]
          ≡ elim o as (λ x. Bytes) [ none ↦ s | some k ↦ drop (suc k) s ]
    go none = refl
    go (some k) = take-all (count_of (length s) b (rfind s b'.')) (drop (suc k) s) (
        length-drop-suc k (count_of (length s) b (rfind s b'.')) s
          (count-le (length s) b (rfind s b'.') l))
