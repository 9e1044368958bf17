-- ===== src/Csv/Print.antt =====
-- RFC 4180 texts: each cell is written plain or in quotes, each row ends with LF or CRLF.
use pier_s3_gateway.Prelude.{
  ℕ, Bool, true, false, List, [], ◌∷◌, ◌≢◌, map, if◌then◌else◌, ◌==◌, Text, All,
}
use pier_s3_gateway.Csv.{Delimiter, delimiter_code}

pub data Cell : Type 0 where
  plain quoted : Text → Cell

abbrev pub cell_text : Cell → Text
cell_text (plain t) = t
cell_text (quoted t) = t

pub record Line : Type 0 where
  pub first : Cell
  pub others : List Cell
  pub crlf : Bool

abbrev pub line_cells : Line → List Text
line_cells l = cell_text l.first ∷ map cell_text l.others

-- A quote inside quotes is doubled.
abbrev pub escape : Text → Text → Text
escape [] rest = rest
escape (c ∷ t) rest = if c == b'"' then b'"' ∷ b'"' ∷ escape t rest else c ∷ escape t rest

abbrev pub print_plain : Text → Text → Text
print_plain [] rest = rest
print_plain (c ∷ t) rest = c ∷ print_plain t rest

abbrev pub print_cell : Cell → Text → Text
print_cell (plain t) rest = print_plain t rest
print_cell (quoted t) rest = b'"' ∷ escape t (b'"' ∷ rest)

abbrev pub print_break : Bool → Text → Text
print_break true rest = b'\r' ∷ b'\n' ∷ rest
print_break false rest = b'\n' ∷ rest

abbrev pub print_others : Delimiter → List Cell → Bool → Text → Text
print_others d [] crlf rest = print_break crlf rest
print_others d (c ∷ cs) crlf rest = delimiter_code d ∷ print_cell c (print_others d cs crlf rest)

abbrev pub print_lines : Delimiter → List Line → Text
print_lines d [] = []
print_lines d (l ∷ ls) = print_cell l.first (print_others d l.others l.crlf (print_lines d ls))

-- A plain cell holds no delimiter and no break, and does not begin with a quote.
abbrev pub IsPlainCode : Delimiter → ℕ → Type 0
IsPlainCode d c = (c ≢ delimiter_code d) × (c ≢ b'\n') × (c ≢ b'\r')

abbrev pub IsWritable : Delimiter → Cell → Type 0
IsWritable d (plain []) = Unit
IsWritable d (plain (c ∷ t)) = (c ≢ b'"') × All (IsPlainCode d) (c ∷ t)
IsWritable d (quoted t) = Unit

abbrev pub IsWritableLine : Delimiter → Line → Type 0
IsWritableLine d l = IsWritable d l.first × All (IsWritable d) l.others
