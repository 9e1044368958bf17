-- ===== src/Preview/Table/Shown.antt =====
-- web/src/components/FilePreview.tsx: which cells of a CSV file are on screen.
use pier_s3_gateway.Prelude.{
  ℕ, zero, suc, List, [], ◌∷◌, ◌≡◌, refl, sym, ap, ◌∙◌, Option, none, some, Text, length, map,
}
use pier_s3_gateway.Csv.{CsvTable, parse_csv, delimiter_for}
use pier_s3_gateway.Preview.Table.{columns, columns_from, cell_at, shown_cells, render_csv}

-- The first `n` cells, and blanks for those that are missing.
abbrev pub fitted : ℕ → List Text → List (Option Text)
fitted zero cells = []
fitted (suc n) [] = none ∷ fitted n []
fitted (suc n) (c ∷ cells) = some c ∷ fitted n cells

abbrev drop_cells : ℕ → List Text → List Text
drop_cells zero cells = cells
drop_cells (suc i) [] = []
drop_cells (suc i) (c ∷ cells) = drop_cells i cells

cell_at-drop :
    (i : ℕ) (cells : List Text) (n : ℕ)
    → fitted (suc n) (drop_cells i cells) ≡ cell_at cells i ∷ fitted n (drop_cells (suc i) cells)
unfolding cell_at
cell_at-drop zero [] n = refl
cell_at-drop zero (c ∷ cells) n = refl
cell_at-drop (suc i) [] n = refl
cell_at-drop (suc i) (c ∷ cells) n = cell_at-drop i cells n

shown_cells-from :
    (i : ℕ) (titles cells : List Text)
    → shown_cells (columns_from i titles) cells ≡ fitted (length titles) (drop_cells i cells)
unfolding shown_cells
shown_cells-from i [] cells = refl
shown_cells-from i (t ∷ titles) cells =
    ap (λ rest. cell_at cells i ∷ rest) (shown_cells-from (suc i) titles cells)
    ∙ sym (cell_at-drop i cells (length titles))

-- Each row of the table is shown as its first cells, as many as the header has, with blanks for those
-- that are missing: what a row has beyond the header is not shown.
pub shown_cells-fitted :
    (table : CsvTable) (cells : List Text)
    → shown_cells (columns table) cells ≡ fitted (length table.header) cells
unfolding columns
shown_cells-fitted table cells = shown_cells-from 0 table.header cells

map-shown_cells :
    (table : CsvTable) (rows : List (List Text))
    → map (shown_cells (columns table)) rows ≡ map (fitted (length table.header)) rows
map-shown_cells table [] = refl
map-shown_cells table (r ∷ rows) = cc (shown_cells-fitted table r, map-shown_cells table rows)

titles-of : (i : ℕ) (titles : List Text) → map (λ c. c.title) (columns_from i titles) ≡ titles
titles-of i [] = refl
titles-of i (t ∷ titles) = ap (λ ts. t ∷ ts) (titles-of (suc i) titles)

-- The preview of a CSV file has the cells of the parsed header as its titles, and shows each parsed row as its first
-- cells, as many as there are titles, with blanks for those that are missing: the cells of a row beyond the
-- header are not on screen, and the notice of a cut table is that of the parser alone.
pub render_csv-fitted :
    (key text : Text)
    → let table = parse_csv text (delimiter_for key) in
      let grid = render_csv key text in
      (map (λ c. c.title) grid.titles ≡ table.header)
      × (grid.lines ≡ map (fitted (length table.header)) table.rows)
      × (grid.notice ≡ table.truncated)
unfolding render_csv columns
render_csv-fitted key text =
    let table = parse_csv text (delimiter_for key) in
    (titles-of 0 table.header, map-shown_cells table table.rows, refl)
