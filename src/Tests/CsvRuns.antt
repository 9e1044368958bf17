-- ===== src/Tests/CsvRuns.antt =====
-- web/src/components/csv.ts on the inputs of csv.test.ts.
use pier_s3_gateway.Prelude.{false, [], ◌∷◌, ◌≡◌, refl, codes}
use pier_s3_gateway.Csv.{comma, tab, delimiter_for, parse_csv}

delimiter_tsv : delimiter_for (codes "data/report.TSV//") ≡ tab
unfolding delimiter_for
delimiter_tsv = refl

delimiter_csv : delimiter_for (codes "data/report.csv") ≡ comma
unfolding delimiter_for
delimiter_csv = refl

quoted :
    parse_csv (codes "name,note\n\"Smith, John\",\"line1\nline2\"\r\n\"say \"\"hi\"\"\",x") comma
    ≡ record {
      header = codes "name" ∷ codes "note" ∷ [];
      rows =
          (codes "Smith, John" ∷ codes "line1\nline2" ∷ [])
          ∷ (codes "say \"hi\"" ∷ codes "x" ∷ [])
          ∷ [];
      truncated = false;
    }
unfolding parse_csv
quoted = refl

-- A file that holds one empty quoted field yields no row at all.
lone_empty_quotes :
    parse_csv (codes "\"\"") comma ≡ record { header = []; rows = []; truncated = false }
unfolding parse_csv
lone_empty_quotes = refl
