-- ===== src/HostFile/Written.antt =====
-- The lines that a host file may have, and what they mean.
use mathlib.Core.List.{append-nil}
use pla_co_r.Base.{ℕ, ◌≡◌, refl, ap, sym, ◌∙◌, Bool, true, false, Option, some, [], ◌∷◌, ◌++◌}
use pla_co_r.Text.Bytes.{Bytes, codes, find}
use pla_co_r.HostFile.Line.{
  Host, host_of, colon, at_end, optional_colon, optional_colons, after_colon, after_number,
  hostname_regex, hostname_sshport_regex, hostname_spreadport_regex,
  hostname_sshport_spreadport_regex, find_next, before_delimiter, after_delimiter,
  between_delimiters, parse_trimmed,
}
use pla_co_r.HostFile.Matches.{
  IsName, IsNumber, after_name-append, after_number-append, name-Lacks, number-Lacks,
  optional_colon-number, after_colon-number,
}
use pla_co_r.HostFile.Parts.{
  before_delimiter-first, between_delimiters-last, between_delimiters-colons,
  after_delimiter-second, find-Lacks,
}

pub data Ending : Type 0 where
  no_colon : Ending
  one_colon : Ending
  two_colons : Ending

abbrev pub colons : Ending → Bytes
colons no_colon = []
colons one_colon = colon ∷ []
colons two_colons = colon ∷ colon ∷ []

-- A name alone, with one port or with both.
pub data Form : Type 0 where
  named : Bytes → Ending → Form
  with_ssh_port : Bytes → Bytes → Bool → Form
  with_spread_port : Bytes → Bytes → Form
  with_ports : Bytes → Bytes → Bytes → Form

abbrev pub written : Form → Bytes
written (named s e) = s ++ colons e
written (with_ssh_port s n true) = s ++ colon ∷ (n ++ colon ∷ [])
written (with_ssh_port s n false) = s ++ colon ∷ n
written (with_spread_port s m) = s ++ colon ∷ colon ∷ m
written (with_ports s n m) = s ++ colon ∷ (n ++ colon ∷ m)

abbrev pub meaning : Form → Host
meaning (named s e) = host_of s (codes "22") (codes "4803")
meaning (with_ssh_port s n more) = host_of s n (codes "4803")
meaning (with_spread_port s m) = host_of s (codes "22") m
meaning (with_ports s n m) = host_of s n m

abbrev pub IsForm : Form → Type 0
IsForm (named s e) = IsName s
IsForm (with_ssh_port s n more) = IsName s × IsNumber n
IsForm (with_spread_port s m) = IsName s × IsNumber m
IsForm (with_ports s n m) = IsName s × IsNumber n × IsNumber m

after_number-end : (p : Bytes → Bool) (n : Bytes) → IsNumber n → after_number p n ≡ p []
after_number-end p n h = ap (after_number p) (sym (append-nil n)) ∙ after_number-append p n [] h tt

-- What is done with a line that an expression matches, and none before it does.
module _ (line : Bytes) where
  abbrev del1 : Option ℕ
  del1 = find colon line

  abbrev del2 : Option ℕ
  del2 = find_next del1 line

  parse-hostname :
      hostname_regex line ≡ true
      → parse_trimmed line ≡ some (host_of (before_delimiter del1 line) (codes "22") (codes "4803"))
  parse-hostname h = rw h refl

  parse-sshport :
      hostname_regex line ≡ false
      → hostname_sshport_regex line ≡ true
      → parse_trimmed line
        ≡ some (
            host_of (before_delimiter del1 line) (between_delimiters del1 del2 line) (codes "4803"))
  parse-sshport h1 h2 = rw (h1, h2) refl

  parse-spreadport :
      hostname_regex line ≡ false
      → hostname_sshport_regex line ≡ false
      → hostname_spreadport_regex line ≡ true
      → parse_trimmed line
        ≡ some (host_of (before_delimiter del1 line) (codes "22") (after_delimiter del2 line))
  parse-spreadport h1 h2 h3 = rw (h1, h2, h3) refl

  parse-ports :
      hostname_regex line ≡ false
      → hostname_sshport_regex line ≡ false
      → hostname_spreadport_regex line ≡ false
      → hostname_sshport_spreadport_regex line ≡ true
      → parse_trimmed line
        ≡ some (
            host_of
              (before_delimiter del1 line)
              (between_delimiters del1 del2 line)
              (after_delimiter del2 line))
  parse-ports h1 h2 h3 h4 = rw (h1, h2, h3, h4) refl

host_of-eq :
    (a b c x y z : Bytes) → a ≡ x → b ≡ y → c ≡ z → some (host_of a b c) ≡ some (host_of x y z)
host_of-eq a b c x y z p q r = rw (p, q, r) refl

at_end-number : (n : Bytes) → IsNumber n → at_end n ≡ false
at_end-number [] h = cc
at_end-number (c ∷ n) h = refl

optional_colon-only : (n : Bytes) → IsNumber n → optional_colon n ≡ false
optional_colon-only n h = ap optional_colon (sym (append-nil n)) ∙ optional_colon-number n [] h

-- Each form is matched by its own expression and by none before it.
pub parse_trimmed-written : (f : Form) → IsForm f → parse_trimmed (written f) ≡ some (meaning f)
parse_trimmed-written (named s no_colon) h =
    parse-hostname (s ++ []) (after_name-append optional_colons s [] h tt)
    ∙ host_of-eq _ _ _ _ _ _ (rw (append-nil s, find-Lacks s (name-Lacks s h.1)) refl) refl refl
parse_trimmed-written (named s one_colon) h =
    parse-hostname (s ++ colon ∷ []) (after_name-append optional_colons s (colon ∷ []) h refl)
    ∙ host_of-eq _ _ _ _ _ _ (before_delimiter-first s [] (name-Lacks s h.1)) refl refl
parse_trimmed-written (named s two_colons) h =
    parse-hostname (s ++ colon ∷ colon ∷ [])
      (after_name-append optional_colons s (colon ∷ colon ∷ []) h refl)
    ∙ host_of-eq _ _ _ _ _ _ (before_delimiter-first s (colon ∷ []) (name-Lacks s h.1)) refl refl
parse_trimmed-written (with_ssh_port s n false) (h, k) =
    parse-sshport (s ++ colon ∷ n)
      (after_name-append optional_colons s (colon ∷ n) h refl ∙ optional_colon-only n k)
      (after_name-append (after_colon (after_number optional_colon)) s (colon ∷ n) h refl
        ∙ after_number-end optional_colon n k)
    ∙ host_of-eq _ _ _ _ _ _ (before_delimiter-first s n (name-Lacks s h.1))
        (between_delimiters-last s n (name-Lacks s h.1) (number-Lacks n k)) refl
parse_trimmed-written (with_ssh_port s n true) (h, k) =
    parse-sshport (s ++ colon ∷ (n ++ colon ∷ []))
      (after_name-append optional_colons s (colon ∷ (n ++ colon ∷ [])) h refl
        ∙ optional_colon-number n (colon ∷ []) k)
      (after_name-append (after_colon (after_number optional_colon)) s (colon ∷ (n ++ colon ∷ [])) h
          refl
        ∙ after_number-append optional_colon n (colon ∷ []) k refl)
    ∙ host_of-eq _ _ _ _ _ _ (before_delimiter-first s (n ++ colon ∷ []) (name-Lacks s h.1))
        (between_delimiters-colons s n [] (name-Lacks s h.1) (number-Lacks n k)) refl
parse_trimmed-written (with_spread_port s m) (h, k) =
    parse-spreadport (s ++ colon ∷ colon ∷ m)
      (after_name-append optional_colons s (colon ∷ colon ∷ m) h refl ∙ at_end-number m k)
      (after_name-append (after_colon (after_number optional_colon)) s (colon ∷ colon ∷ m) h refl)
      (after_name-append (after_colon (after_colon (after_number at_end))) s (colon ∷ colon ∷ m) h
          refl
        ∙ after_number-end at_end m k)
    ∙ host_of-eq _ _ _ _ _ _ (before_delimiter-first s (colon ∷ m) (name-Lacks s h.1)) refl
        (after_delimiter-second s [] m (name-Lacks s h.1) tt)
parse_trimmed-written (with_ports s n m) (h, k, l) =
    parse-ports (s ++ colon ∷ (n ++ colon ∷ m))
      (after_name-append optional_colons s (colon ∷ (n ++ colon ∷ m)) h refl
        ∙ optional_colon-number n (colon ∷ m) k)
      (after_name-append (after_colon (after_number optional_colon)) s (colon ∷ (n ++ colon ∷ m)) h
          refl
        ∙ after_number-append optional_colon n (colon ∷ m) k refl
        ∙ at_end-number m l)
      (after_name-append (after_colon (after_colon (after_number at_end))) s
          (colon ∷ (n ++ colon ∷ m)) h refl
        ∙ after_colon-number (after_number at_end) n (colon ∷ m) k)
      (after_name-append (after_colon (after_number (after_colon (after_number at_end)))) s
          (colon ∷ (n ++ colon ∷ m)) h refl
        ∙ after_number-append (after_colon (after_number at_end)) n (colon ∷ m) k refl
        ∙ after_number-end at_end m l)
    ∙ host_of-eq _ _ _ _ _ _ (before_delimiter-first s (n ++ colon ∷ m) (name-Lacks s h.1))
        (between_delimiters-colons s n m (name-Lacks s h.1) (number-Lacks n k))
        (after_delimiter-second s n m (name-Lacks s h.1) (number-Lacks n k))
