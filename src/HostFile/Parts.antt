-- ===== src/HostFile/Parts.antt =====
-- What is cut out of a line that has its colons after given parts.
use pla_co_r.Base.{ℕ, suc, ◌+◌, ◌≡◌, refl, ap, ◌∙◌, none, some, [], ◌∷◌, ◌++◌, length, arith}
use pla_co_r.Text.Bytes.{Bytes, Lacks, find, find-append, drop, drop-append}
use pla_co_r.Text.Filename.{take}
use pla_co_r.HostFile.Line.{
  colon, find_from, find_next, before_delimiter, after_delimiter, between_delimiters,
}

take-append : (a r : Bytes) → take (length a) (a ++ r) ≡ a
unfolding take
take-append [] r = refl
take-append (x ∷ a) r = ap (λ s. x ∷ s) (take-append a r)

drop-length : (a r : Bytes) → drop (length a) (a ++ r) ≡ r
drop-length [] r = refl
drop-length (x ∷ a) r = drop-length a r

drop-after : (a r : Bytes) → drop (suc (length a)) (a ++ colon ∷ r) ≡ r
drop-after [] r = refl
drop-after (x ∷ a) r = drop-after a r

find_from-append :
    (a r : Bytes) (k : ℕ)
    → find colon r ≡ some k
    → find_from colon (suc (length a)) (a ++ colon ∷ r) ≡ some (suc (length a + k))
find_from-append [] r k h = rw h (ap (λ n. some (suc n)) (omega arith))
find_from-append (x ∷ a) r k h =
    rw (find_from-append a r k h) (ap (λ n. some (suc n)) (omega arith))

find_from-none :
    (a r : Bytes) → find colon r ≡ none → find_from colon (suc (length a)) (a ++ colon ∷ r) ≡ none
find_from-none [] r h = rw h refl
find_from-none (x ∷ a) r h = rw (find_from-none a r h) refl

pub find-Lacks : (s : Bytes) → Lacks colon s → find colon s ≡ none
find-Lacks [] h = refl
find-Lacks (c ∷ s) h = ground (arith, find-Lacks s h.1)

-- A line whose first part lacks a colon.
module _ (a r : Bytes) (la : Lacks colon a) where
  pub before_delimiter-first : before_delimiter (find colon (a ++ colon ∷ r)) (a ++ colon ∷ r) ≡ a
  before_delimiter-first = rw (find-append colon a r la) (take-append a (colon ∷ r))

  pub between_delimiters-last :
      Lacks colon r
      → between_delimiters
          (find colon (a ++ colon ∷ r))
          (find_next (find colon (a ++ colon ∷ r)) (a ++ colon ∷ r))
          (a ++ colon ∷ r)
        ≡ r
  between_delimiters-last lr =
      rw (find-append colon a r la, find_from-none a r (find-Lacks r lr)) (drop-after a r)

-- A line whose first two parts lack a colon.
module _ (a b r : Bytes) (la : Lacks colon a) (lb : Lacks colon b) where
  abbrev line : Bytes
  line = a ++ colon ∷ (b ++ colon ∷ r)

  second : find_from colon (suc (length a)) line ≡ some (suc (length a + length b))
  second = find_from-append a (b ++ colon ∷ r) (length b) (find-append colon b r lb)

  pub between_delimiters-colons :
      between_delimiters (find colon line) (find_next (find colon line) line) line ≡ b
  between_delimiters-colons =
      rw (find-append colon a (b ++ colon ∷ r) la, second, drop-after a (b ++ colon ∷ r))
        (ap (λ n. take n (b ++ colon ∷ r)) (omega arith) ∙ take-append b (colon ∷ r))

  pub after_delimiter-second : after_delimiter (find_next (find colon line) line) line ≡ r
  after_delimiter-second =
      rw (find-append colon a (b ++ colon ∷ r) la, second)
        (ap (λ n. drop n line) {x = suc (suc (length a + length b))} (omega arith)
          ∙ drop-append a (colon ∷ (b ++ colon ∷ r)) (suc (suc (length b)))
          ∙ drop-after b r)
