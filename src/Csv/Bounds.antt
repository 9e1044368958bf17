-- ===== src/Csv/Bounds.antt =====
-- The size of what the parser of web/src/components/csv.ts returns.
use pier_s3_gateway.Prelude.{
  ℕ, zero, suc, ◌≤◌, ◌+◌, Bool, List, [], ◌∷◌, arith, Text, length, take, map, All, length-take,
}
use pier_s3_gateway.Csv.{Delimiter, CsvTable, finish, parse_csv, max_csv_rows, max_csv_cols}
use pier_s3_gateway.Csv.Rows.{csv_rows}
use pier_s3_gateway.Csv.Caps.{parse_csv-capped}

-- A table of at most `m` rows, the header among them, and `n` columns.
pub record IsBounded (m n : ℕ) (t : CsvTable) : Type 0 where
  pub header : length t.header ≤ n
  pub rows : length t.rows + 1 ≤ m
  pub cells : All (λ row. length row ≤ n) t.rows

All-map-take :
    (m n : ℕ) (rows : List (List Text)) → All (λ row. length row ≤ n) (take m (map (take n) rows))
All-map-take zero n rows = tt
All-map-take (suc m) n [] = tt
All-map-take (suc m) n (row ∷ rows) = (omega (arith, length-take n row), All-map-take m n rows)

finish-IsBounded :
    (m n : ℕ) (rows : List (List Text)) (truncated : Bool)
    → 1 ≤ m
    → length rows ≤ m
    → All (λ row. length row ≤ n) rows
    → IsBounded m n (finish rows truncated)
unfolding finish
finish-IsBounded m n [] truncated pos h k = record {
  header = omega arith;
  rows = omega arith;
  cells = tt;
}
finish-IsBounded m n (row ∷ rows) truncated pos h (k, ks) = record {
  header = k;
  rows = omega arith;
  cells = ks;
}

-- Whatever the text, the table has at most 500 rows, the header among them, and no row, the header
-- included, has more than 50 cells.
pub parse_csv-IsBounded :
    (text : Text) (d : Delimiter) → IsBounded max_csv_rows max_csv_cols (parse_csv text d)
parse_csv-IsBounded text d = rw parse_csv-capped (
    finish-IsBounded max_csv_rows max_csv_cols _ _ (omega arith)
      (omega (arith, length-take max_csv_rows (map (take max_csv_cols) (csv_rows text d))))
      (All-map-take max_csv_rows max_csv_cols (csv_rows text d)))
