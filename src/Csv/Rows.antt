-- ===== src/Csv/Rows.antt =====
-- The rows of a text with no caps: what the preview of web/src/components/csv.ts cuts down.
use pier_s3_gateway.Prelude.{
  ℕ, Bool, true, false, not, ◌||◌, List, [], ◌∷◌, ◌++◌, ◌≡◌, sym, refl, ap, append-nil,
  append_assoc, ◌∙◌, if◌then◌else◌, head?, Text, is_empty, ltb, length, any, map, take,
}
use pier_s3_gateway.Csv.{
  Delimiter, Action, append, open_quote, close_quote, end_field, end_row, classify, some_row,
  CsvTable, finish,
}

pub record Reading : Type 0 where
  pub rows : List (List Text)
  pub row : List Text
  pub field : Text
  pub in_quotes : Bool

abbrev pub fresh : List (List Text) → Reading
fresh rows = record { rows = rows; row = []; field = []; in_quotes = false }

abbrev close_field : Reading → Reading
close_field r = record r { row = r.row ++ r.field ∷ []; field = [] }

abbrev pub close_row : Reading → Reading
close_row r = record r { rows = r.rows ++ (r.row ++ r.field ∷ []) ∷ []; row = []; field = [] }

unfoldable pub read_act : Reading → Action → Reading
read_act r (append c) = record r { field = r.field ++ c ∷ [] }
read_act r open_quote = record r { in_quotes = true }
read_act r close_quote = record r { in_quotes = false }
read_act r end_field = close_field r
read_act r end_row = close_row r

unfoldable pub read_end : Reading → List (List Text)
read_end r = if not (is_empty r.field) || some_row r.row then (close_row r).rows else r.rows

-- Every row of the text, of any length and number.
unfoldable pub read : Delimiter → Reading → Bool → Text → List (List Text)
read d r skip [] = read_end r
read d r true (ch ∷ rest) = read d r false rest
read d r false (ch ∷ rest) =
    let e = classify d r.in_quotes (is_empty r.field) ch (head? rest) in
    read d (read_act r e.action) e.skip rest

unfoldable pub csv_rows : Text → Delimiter → List (List Text)
csv_rows text d = read d (fresh []) false text

-- Some row of the list has more cells than the cap.
abbrev pub wide : ℕ → List Text → Bool
wide max_cols row = ltb max_cols (length row)

-- What the caps leave of all rows.
abbrev pub capped : ℕ → ℕ → List (List Text) → CsvTable
capped max_rows max_cols all =
    finish (take max_rows (map (take max_cols) all))
      (ltb max_rows (length all) || any (wide max_cols) all)

-- Rows that were read stay in front.
read_act-rows :
    (r : Reading) (a : Action) → (more : List (List Text)) × ((read_act r a).rows ≡ r.rows ++ more)
unfolding read_act
read_act-rows r (append c) = ([], sym (append-nil _))
read_act-rows r open_quote = ([], sym (append-nil _))
read_act-rows r close_quote = ([], sym (append-nil _))
read_act-rows r end_field = ([], sym (append-nil _))
read_act-rows r end_row = ((r.row ++ r.field ∷ []) ∷ [], refl)

read_end-rows : (r : Reading) → (more : List (List Text)) × (read_end r ≡ r.rows ++ more)
unfolding read_end
read_end-rows r =
    elim (not (is_empty r.field) || some_row r.row)
      as (λ b.
        (more : List (List Text)) × ((if b then (close_row r).rows else r.rows) ≡ r.rows ++ more)) [
          | true ↦ ((r.row ++ r.field ∷ []) ∷ [], refl)
          | false ↦ ([], sym (append-nil _))
        ]

pub read-rows :
    (d : Delimiter) (r : Reading) (skip : Bool) (text : Text)
    → (more : List (List Text)) × (read d r skip text ≡ r.rows ++ more)
unfolding read
read-rows d r skip [] = read_end-rows r
read-rows d r true (ch ∷ rest) = read-rows d r false rest
read-rows d r false (ch ∷ rest) =
    let e = classify d r.in_quotes (is_empty r.field) ch (head? rest) in
    let (m, p) = read_act-rows r e.action in
    let (n, q) = read-rows d (read_act r e.action) e.skip rest in
    (m ++ n, q ∙ ap (λ z. z ++ n) p ∙ append_assoc r.rows m n)
