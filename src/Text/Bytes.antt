-- ===== src/Text/Bytes.antt =====
-- `std::string` as a list of bytes, with `find` of a character or of a text, and `substr`.
use Prim.Native.Nat.add
use Prim.Native.Char.{code}
use Prim.Native.String.{String}
use mathlib.Core.Option
use pla_co_r.Base.{
  ℕ, zero, suc, ◌+◌, ◌≡◌, refl, ◌≢◌, Bool, true, false, ◌&&◌, ◌||◌, Option, none, some, List, [],
  ◌∷◌, ◌++◌, length, length-append, All, leb, ◌==◌, if◌then◌else◌, arith,
}

abbrev pub Bytes : Type 0
Bytes = List ℕ

-- The bytes of an ASCII literal.
abbrev pub codes : String → Bytes
codes String.[] = []
codes (String.◌∷◌ c s) = code c ∷ codes s

abbrev pub bytes_eq : Bytes → Bytes → Bool
bytes_eq [] [] = true
bytes_eq (a ∷ s) (b ∷ t) = a == b && bytes_eq s t
bytes_eq _ _ = false

abbrev pub drop : ℕ → Bytes → Bytes
drop zero s = s
drop (suc n) [] = []
drop (suc n) (c ∷ s) = drop n s

-- `s.find(c)`; `none` is `npos`.
abbrev pub find : ℕ → Bytes → Option ℕ
find c [] = none
find c (b ∷ s) = if b == c then some 0 else Option.map suc (find c s)

-- Does the text start with these bytes?
abbrev pub starts_with : Bytes → Bytes → Bool
starts_with [] s = true
starts_with (a ∷ p) [] = false
starts_with (a ∷ p) (b ∷ s) = a == b && starts_with p s

-- `s.find(p) != npos`.
abbrev pub contains : Bytes → Bytes → Bool
contains p [] = starts_with p []
contains p (b ∷ s) = starts_with p (b ∷ s) || contains p s

-- `s.substr(pos)`; `none` is the exception `std::out_of_range`.
abbrev pub substr : ℕ → Bytes → Option Bytes
substr pos s = if leb pos (length s) then some (drop pos s) else none

abbrev pub Lacks : ℕ → Bytes → Type 0
Lacks c = All (λ b. b ≢ c)

pub find-append : (c : ℕ) (s t : Bytes) → Lacks c s → find c (s ++ c ∷ t) ≡ some (length s)
find-append c [] t h = ground arith
find-append c (b ∷ s) t h = ground (arith, find-append c s t h.1)

pub drop-append : (s t : Bytes) (k : ℕ) → drop (length s + k) (s ++ t) ≡ drop k t
drop-append [] t k = ground arith
drop-append (b ∷ s) t k = rw add.suc (drop-append s t k)

pub substr-append : (s t : Bytes) (k : ℕ) → substr (length s + k) (s ++ t) ≡ substr k t
substr-append s t k = ground (arith, drop-append s t k, length-append s t)

pub contains-append : (p s t : Bytes) → contains p t ≡ true → contains p (s ++ t) ≡ true
contains-append p [] t h = h
contains-append p (b ∷ s) t h = ground (arith, contains-append p s t h)

-- Where the first byte of a text does not occur, the text does not.
pub contains-Lacks : (c : ℕ) (p s : Bytes) → Lacks c s → contains (c ∷ p) s ≡ false
contains-Lacks c p [] h = refl
contains-Lacks c p (b ∷ s) h = ground (arith, contains-Lacks c p s h.1)

pub bytes_eq_self : (s : Bytes) → bytes_eq s s ≡ true
bytes_eq_self [] = refl
bytes_eq_self (c ∷ s) = ground (arith, bytes_eq_self s)

pub bytes_eq_iff : (s t : Bytes) → bytes_eq s t ≡ true → s ≡ t
bytes_eq_iff [] [] h = refl
bytes_eq_iff [] (b ∷ t) h = cc
bytes_eq_iff (a ∷ s) [] h = cc
bytes_eq_iff (a ∷ s) (b ∷ t) h = ground (arith, bytes_eq_iff s t)
