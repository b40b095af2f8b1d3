-- ===== src/HostFile/File.antt =====
-- All lines of a host file, with the list of hosts that the caller passes.
use pla_co_r.Base.{ℕ, suc, Option, none, some, List, [], ◌∷◌, ◌++◌}
use pla_co_r.Text.Bytes.{Bytes}
use pla_co_r.HostFile.Line.{Host, parse_line}

-- How `parse` ends: it returns, or throws for the file or for a line.
pub data ParseResult : Type 0 where
  parsed : ParseResult
  not_opened : ParseResult
  failed_at : ℕ → ParseResult

pub record Parsed : Type 0 where
  pub list : List Host
  pub outcome : ParseResult

abbrev pub parsed_of : List Host → ParseResult → Parsed
parsed_of l o = record { list = l; outcome = o }

-- The loop over the lines. The hosts before a line that fails are in the list.
unfoldable pub parse_lines : List Bytes → ℕ → List Host → Parsed
unfolding parse_line
parse_lines [] lineno list = parsed_of list parsed
parse_lines (line ∷ lines) lineno list = elim (parse_line line) [
  | some host ↦ parse_lines lines (suc lineno) (list ++ host ∷ [])
  | none ↦ parsed_of list (failed_at (suc lineno))
]

-- `none` is a file that cannot be opened.
unfoldable pub parse : Option (List Bytes) → List Host → Parsed
unfolding parse_lines
parse none list = parsed_of list not_opened
parse (some lines) list = parse_lines lines 0 list
