-- ===== src/HostFile/Lines.antt =====
-- What `parse` does with the lines of a file.
use pla_co_r.Base.{
  ℕ, suc, ◌+◌, ◌≡◌, sym, ap, ◌∙◌, none, some, List, [], ◌∷◌, ◌++◌, length, inl, inr, Option-cases,
  arith,
}
use mathlib.Core.List.{append-nil, append_assoc}
use pla_co_r.Text.Bytes.{Bytes}
use pla_co_r.HostFile.Line.{Host, parse_line}
use pla_co_r.HostFile.File.{parsed, failed_at, parsed_of, parse_lines, parse}
use pla_co_r.HostFile.Accepted.{Says, parse_line-Says}

-- The lines say the hosts, one by one.
abbrev pub AllSay : List Bytes → List Host → Type 0
AllSay [] [] = Unit
AllSay (l ∷ ls) (h ∷ hs) = Says l h × AllSay ls hs
AllSay _ _ = ⊥

parse_lines-append :
    (ls : List Bytes) (hs : List Host) (rest : List Bytes) (k : ℕ) (list : List Host)
    → AllSay ls hs
    → parse_lines (ls ++ rest) k list ≡ parse_lines rest (k + length ls) (list ++ hs)
unfolding parse_lines
parse_lines-append [] [] rest k list a =
    rw (append-nil list) (ap (λ n. parse_lines rest n list) (omega arith))
parse_lines-append [] (h ∷ hs) rest k list a = absurd a
parse_lines-append (l ∷ ls) [] rest k list a = absurd a
parse_lines-append (l ∷ ls) (h ∷ hs) rest k list a =
    rw (parse_lines, (parse_line-Says l h).1 a.0)
      (parse_lines-append ls hs rest (suc k) (list ++ h ∷ []) a.1
        ∙ rw (append_assoc list (h ∷ []) hs)
            (ap (λ n. parse_lines rest n (list ++ h ∷ hs)) {x = suc k + length ls} (omega arith)))

not_said : (line : Bytes) → ¬ ((h : Host) × Says line h) → parse_line line ≡ none
not_said line n = elim (Option-cases (parse_line line)) [
  | inl e ↦ e
  | inr s ↦ absurd (n (s.0, (parse_line-Says line s.0).0 s.1))
]

-- If every line says a host, `parse` returns, with the hosts behind those of the list, in order.
pub parse-AllSay :
    (ls : List Bytes) (hs list : List Host)
    → AllSay ls hs
    → parse (some ls) list ≡ parsed_of (list ++ hs) parsed
unfolding parse parse_lines
parse-AllSay ls hs list a =
    ap (λ l. parse_lines l 0 list) (sym (append-nil ls)) ∙ parse_lines-append ls hs [] 0 list a

-- At the first line that says no host, `parse` throws with the number of the line, counted from 1;
-- the hosts of the lines before it are in the list by then, whatever the lines behind it are.
pub parse-first_bad :
    (ls : List Bytes) (hs list : List Host) (bad : Bytes) (rest : List Bytes)
    → AllSay ls hs
    → ¬ ((h : Host) × Says bad h)
    → parse (some (ls ++ bad ∷ rest)) list ≡ parsed_of (list ++ hs) (failed_at (suc (length ls)))
unfolding parse parse_lines
parse-first_bad ls hs list bad rest a n =
    parse_lines-append ls hs (bad ∷ rest) 0 list a
    ∙ rw (parse_lines, not_said bad n)
        (ap (λ k. parsed_of (list ++ hs) (failed_at (suc k))) (omega arith))
