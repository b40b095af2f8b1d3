-- ===== src/HostFile/Line.antt =====
-- One line of a host file: the four regular expressions and what is cut out of a match.
--
-- No byte of a name is a colon and no digit is one, so each `+` and `*` takes all it can.
use mathlib.Core.Option
use pla_co_r.Base.{
  ℕ, zero, suc, ◌-◌, Bool, true, false, not, ◌&&◌, ◌||◌, Option, none, some, [], ◌∷◌, leb, ◌==◌,
  if◌then◌else◌,
}
use pla_co_r.Text.Bytes.{Bytes, codes, find, drop}
use pla_co_r.Text.Decimal.{is_digit}
use pla_co_r.Text.Filename.{take}

pub record Host : Type 0 where
  pub hostname : Bytes
  pub ssh_port : Bytes
  pub spread_port : Bytes

abbrev pub host_of : Bytes → Bytes → Bytes → Host
host_of h p q = record { hostname = h; ssh_port = p; spread_port = q }

abbrev pub colon : ℕ
colon = b':'

-- `[a-zA-Z0-9\.\-]`.
abbrev pub is_name_byte : ℕ → Bool
is_name_byte c =
    (leb b'a' c && leb c b'z') || (leb b'A' c && leb c b'Z') || is_digit c || c == b'.' || c == b'-'

-- What a repeated class takes of a text, and what it leaves.
abbrev pub class_part : (ℕ → Bool) → Bytes → Bytes
class_part p [] = []
class_part p (c ∷ s) = if p c then c ∷ class_part p s else []

abbrev pub class_rest : (ℕ → Bool) → Bytes → Bytes
class_rest p [] = []
class_rest p (c ∷ s) = if p c then class_rest p s else c ∷ s

abbrev pub at_end : Bytes → Bool
at_end [] = true
at_end (c ∷ s) = false

abbrev pub all_digits : Bytes → Bool
all_digits [] = true
all_digits (c ∷ s) = is_digit c && all_digits s

-- `[1-9][0-9]*|0`.
abbrev pub is_number : Bytes → Bool
is_number [] = false
is_number (c ∷ s) = (leb b'1' c && leb c b'9' && all_digits s) || (c == b'0' && at_end s)

-- `:?` and `:?:?` up to the end.
abbrev pub optional_colon : Bytes → Bool
optional_colon [] = true
optional_colon (c ∷ s) = c == colon && at_end s

abbrev pub optional_colons : Bytes → Bool
optional_colons [] = true
optional_colons (c ∷ s) = c == colon && optional_colon s

-- A colon, and then a text that matches.
abbrev pub after_colon : (Bytes → Bool) → Bytes → Bool
after_colon p [] = false
after_colon p (c ∷ s) = c == colon && p s

-- A number, and then a text that matches.
abbrev pub after_number : (Bytes → Bool) → Bytes → Bool
after_number p s = is_number (class_part is_digit s) && p (class_rest is_digit s)

-- A name, and then a text that matches.
abbrev pub after_name : (Bytes → Bool) → Bytes → Bool
after_name p s = not (at_end (class_part is_name_byte s)) && p (class_rest is_name_byte s)

abbrev pub hostname_regex : Bytes → Bool
hostname_regex = after_name optional_colons

abbrev pub hostname_sshport_regex : Bytes → Bool
hostname_sshport_regex = after_name (after_colon (after_number optional_colon))

abbrev pub hostname_spreadport_regex : Bytes → Bool
hostname_spreadport_regex = after_name (after_colon (after_colon (after_number at_end)))

abbrev pub hostname_sshport_spreadport_regex : Bytes → Bool
hostname_sshport_spreadport_regex =
    after_name (after_colon (after_number (after_colon (after_number at_end))))

-- `line.find(c, pos)`.
abbrev pub find_from : ℕ → ℕ → Bytes → Option ℕ
find_from c zero s = find c s
find_from c (suc pos) [] = none
find_from c (suc pos) (x ∷ s) = Option.map suc (find_from c pos s)

-- `line.find(":", del1 + 1)`; `npos + 1` is 0.
abbrev pub find_next : Option ℕ → Bytes → Option ℕ
find_next none s = find colon s
find_next (some k) s = find_from colon (suc k) s

-- `line.substr(0, del)`, `line.substr(del + 1)` and `line.substr(del1 + 1, del2 - del1 - 1)`.
abbrev pub before_delimiter : Option ℕ → Bytes → Bytes
before_delimiter none s = s
before_delimiter (some k) s = take k s

abbrev pub after_delimiter : Option ℕ → Bytes → Bytes
after_delimiter none s = s
after_delimiter (some k) s = drop (suc k) s

abbrev pub between_delimiters : Option ℕ → Option ℕ → Bytes → Bytes
between_delimiters del1 none s = after_delimiter del1 s
between_delimiters none (some l) s = take l s
between_delimiters (some k) (some l) s = take (l - k - 1) (drop (suc k) s)

-- `std::regex_replace(line, std::regex("^ +| +$| +"), "")`: every space goes.
abbrev pub remove_spaces : Bytes → Bytes
remove_spaces [] = []
remove_spaces (c ∷ s) = let rest = remove_spaces s in if c == b' ' then rest else c ∷ rest

abbrev pub parse_trimmed : Bytes → Option Host
parse_trimmed line =
    let del1 = find colon line in
    let del2 = find_next del1 line in
    if hostname_regex line
    then some (host_of (before_delimiter del1 line) (codes "22") (codes "4803"))
    else if hostname_sshport_regex line
    then some
        (host_of (before_delimiter del1 line) (between_delimiters del1 del2 line) (codes "4803"))
    else if hostname_spreadport_regex line
    then some (host_of (before_delimiter del1 line) (codes "22") (after_delimiter del2 line))
    else if hostname_sshport_spreadport_regex line
    then some (
        host_of (before_delimiter del1 line) (between_delimiters del1 del2 line)
          (after_delimiter del2 line))
    else none

-- `none` is the exception for the line.
unfoldable pub parse_line : Bytes → Option Host
parse_line line = parse_trimmed (remove_spaces line)
