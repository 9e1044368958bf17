-- ===== src/Tests/Witnesses/CsvCases.antt =====
-- web/src/components/csv.ts: the theorems at concrete texts.
use pier_s3_gateway.Prelude.{false, true, [], ◌∷◌, ◌≡◌, arith, codes, map}
use pier_s3_gateway.Csv.{comma, tab, parse_csv, max_csv_rows, max_csv_cols}
use pier_s3_gateway.Csv.Rows.{csv_rows, capped}
use pier_s3_gateway.Csv.Caps.{parse_csv-capped}
use pier_s3_gateway.Csv.Print.{plain, quoted, Line, line_cells, print_lines, IsWritableLine}
use pier_s3_gateway.Csv.RoundTrip.{parse_csv-print_lines}

parse_csv-capped_example :
    parse_csv (codes "a\tb\n\"c\nd\"") tab
    ≡ capped max_csv_rows max_csv_cols (csv_rows (codes "a\tb\n\"c\nd\"") tab)
parse_csv-capped_example = parse_csv-capped (codes "a\tb\n\"c\nd\"") tab

abbrev first_line : Line
first_line = record {
  first = plain (codes "a b");
  others = quoted (codes "x,\"y\"\n") ∷ [];
  crlf = true;
}

abbrev second_line : Line
second_line = record { first = plain []; others = plain (codes "c\"d") ∷ []; crlf = false }

first_line-IsWritableLine : IsWritableLine comma first_line
first_line-IsWritableLine = ground arith

second_line-IsWritableLine : IsWritableLine comma second_line
second_line-IsWritableLine = ground arith

parse_csv-print_lines_example :
    parse_csv (print_lines comma (first_line ∷ second_line ∷ [])) comma
    ≡ capped max_csv_rows max_csv_cols (map line_cells (first_line ∷ second_line ∷ []))
parse_csv-print_lines_example =
    parse_csv-print_lines comma (first_line ∷ second_line ∷ [])
      (first_line-IsWritableLine, (second_line-IsWritableLine, tt))
