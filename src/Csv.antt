-- ===== src/Csv.antt =====
-- web/src/components/csv.ts: the delimiter-separated parser of the file preview. One round of the
-- `for` loop is split into the decision about the character (`classify`) and what it does to the
-- variables of the loop (`act`). The caps are parameters of the loop; `parse_csv` sets them.
pub mod Bounds
pub mod Caps
pub mod Print
pub mod RoundTrip
pub mod Rows
use pier_s3_gateway.Prelude.{
  ℕ, ◌+◌, ◌<◌, Bool, true, false, not, ◌&&◌, ◌||◌, List, [], ◌∷◌, ◌++◌, Option, none, some, ltb,
  ◌==◌, if◌then◌else◌, length, take, head?, Text, is_empty, strip_slashes,
}

abbrev pub max_csv_rows : ℕ
max_csv_rows = 500

abbrev pub max_csv_cols : ℕ
max_csv_cols = 50

pub record CsvTable : Type 0 where
  pub header : List Text
  pub rows : List (List Text)
  pub truncated : Bool

pub data Delimiter : Type 0 where
  comma tab : Delimiter

abbrev pub delimiter_code : Delimiter → ℕ
delimiter_code comma = b','
delimiter_code tab = b'\t'

-- A letter up to its ASCII case: the flag `i` of the pattern.
abbrev same_letter : ℕ → ℕ → Bool
same_letter lower c = c == lower || c + 32 == lower

-- `/\.tsv$/i`, tried at each position.
pub ends_with_tsv : Text → Bool
ends_with_tsv (a ∷ b ∷ c ∷ d ∷ []) =
    a == b'.' && same_letter b't' b && same_letter b's' c && same_letter b'v' d
ends_with_tsv (a ∷ s) = ends_with_tsv s
ends_with_tsv [] = false

unfoldable pub delimiter_for : Text → Delimiter
unfolding ends_with_tsv strip_slashes
delimiter_for key = if ends_with_tsv (strip_slashes key) then tab else comma

-- What the loop does with a character, and whether it also skips the next one (`i++`).
pub data Action : Type 0 where
  append : ℕ → Action
  open_quote close_quote end_field end_row : Action

pub record Event : Type 0 where
  pub action : Action
  pub skip : Bool

abbrev pub only : Action → Event
only a = record { action = a; skip = false }

abbrev pub is_char : ℕ → Option ℕ → Bool
is_char c none = false
is_char c (some x) = x == c

unfoldable pub classify : Delimiter → Bool → Bool → ℕ → Option ℕ → Event
classify d in_quotes field_empty ch next =
    if in_quotes
    then if ch == b'"'
      then if is_char b'"' next
        then record { action = append b'"'; skip = true }
        else only close_quote
      else only (append ch)
    else if ch == b'"' && field_empty
    then only open_quote
    else if ch == delimiter_code d
    then only end_field
    else if ch == b'\n' || ch == b'\r'
    then record { action = end_row; skip = ch == b'\r' && is_char b'\n' next }
    else only (append ch)

-- The variables of the loop.
pub record Scan : Type 0 where
  pub rows : List (List Text)
  pub row : List Text
  pub field : Text
  pub in_quotes : Bool
  pub truncated : Bool

abbrev pub initial : Scan
initial = record { rows = []; row = []; field = []; in_quotes = false; truncated = false }

-- `pushRow` returns false to stop the loop.
pub data Step : Type 0 where
  go stop : Scan → Step

unfoldable pub finish : List (List Text) → Bool → CsvTable
finish [] truncated = record { header = []; rows = []; truncated = truncated }
finish (header ∷ body) truncated = record { header = header; rows = body; truncated = truncated }

abbrev pub some_row : List Text → Bool
some_row [] = false
some_row (_ ∷ _) = true

module _ (max_rows max_cols : ℕ) where
  pub push_field : Scan → Scan
  push_field s =
      if ltb (length s.row) max_cols
      then record s { row = s.row ++ s.field ∷ []; field = [] }
      else record s { truncated = true; field = [] }

  pub push_row : Scan → Step
  unfolding push_field
  push_row s =
      let s' = push_field s in
      let rows' = s'.rows ++ s'.row ∷ [] in
      if ltb max_rows (length rows')
      then stop (record s' { rows = take max_rows rows'; row = []; truncated = true })
      else go (record s' { rows = rows'; row = [] })

  pub act : Scan → Action → Step
  unfolding push_field push_row
  act s (append c) = go (record s { field = s.field ++ c ∷ [] })
  act s open_quote = go (record s { in_quotes = true })
  act s close_quote = go (record s { in_quotes = false })
  act s end_field = go (push_field s)
  act s end_row = push_row s

  abbrev pub step_table : Step → CsvTable
  step_table (go s) = finish s.rows s.truncated
  step_table (stop s) = finish s.rows s.truncated

  -- The last row is flushed unless the text ended exactly on a row break.
  pub flush : Scan → CsvTable
  unfolding push_row finish
  flush s =
      if not (is_empty s.field) || some_row s.row
      then step_table (push_row s)
      else finish s.rows s.truncated

  -- The loop; the flag says that the next character is to be skipped.
  pub scan : Delimiter → Scan → Bool → Text → CsvTable
  unfolding flush classify act
  scan d s skip [] = flush s
  scan d s true (ch ∷ rest) = scan d s false rest
  scan d s false (ch ∷ rest) =
      let e = classify d s.in_quotes (is_empty s.field) ch (head? rest) in
      elim (act s e.action) [
        | go s' ↦ scan d s' e.skip rest
        | stop s' ↦ finish s'.rows s'.truncated
      ]

unfoldable pub parse_csv : Text → Delimiter → CsvTable
unfolding scan
parse_csv text d = scan max_csv_rows max_csv_cols d initial false text
