-- ===== src/Csv/RoundTrip.antt =====
-- The parser of web/src/components/csv.ts reads RFC 4180 texts back.
use pier_s3_gateway.Prelude.{
  ℕ, Bool, true, false, List, [], ◌∷◌, ◌++◌, ◌≡◌, ◌≢◌, refl, sym, ap, ◌∙◌, map, append_assoc,
  append-nil, arith, ◌==◌, Text, All, head?, Bool-cases, inl, inr, is_empty, ==_iff,
}
use pier_s3_gateway.Csv.{
  Delimiter, comma, tab, delimiter_code, classify, is_char, parse_csv, max_csv_rows, max_csv_cols,
}
use pier_s3_gateway.Csv.Rows.{Reading, fresh, read_act, read_end, read, csv_rows, capped}
use pier_s3_gateway.Csv.Caps.{parse_csv-capped}
use pier_s3_gateway.Csv.Print.{
  Cell, plain, quoted, cell_text, Line, line_cells, escape, print_plain, print_cell, print_break,
  print_others, print_lines, IsPlainCode, IsWritable, IsWritableLine,
}

abbrev reading : List (List Text) → List Text → Text → Bool → Reading
reading rows row field q = record { rows = rows; row = row; field = field; in_quotes = q }

is_empty-concat : (t : Text) (c : ℕ) → is_empty (t ++ c ∷ []) ≡ false
is_empty-concat [] c = refl
is_empty-concat (x ∷ t) c = refl

module _ (d : Delimiter) (rows : List (List Text)) (row : List Text) where
  read_code :
      (field : Text) (c : ℕ) (rest : Text)
      → IsPlainCode d c
      → (is_empty field ≡ true → c ≢ b'"')
      → read d (reading rows row field false) false (c ∷ rest)
        ≡ read d (reading rows row (field ++ c ∷ []) false) false rest
  unfolding read classify read_act
  read_code field c rest h k = ground arith

  read_plain :
      (field t rest : Text)
      → is_empty field ≡ false
      → All (IsPlainCode d) t
      → read d (reading rows row field false) false (print_plain t rest)
        ≡ read d (reading rows row (field ++ t) false) false rest
  read_plain field [] rest e h = rw append-nil
  read_plain field (c ∷ t) rest e (h, hs) =
      read_code field c (print_plain t rest) h (λ x. cc)
      ∙ read_plain (field ++ c ∷ []) t rest (is_empty-concat field c) hs
      ∙ rw append_assoc

  read_open :
      (rest : Text)
      → read d (reading rows row [] false) false (b'"' ∷ rest)
        ≡ read d (reading rows row [] true) false rest
  unfolding read classify read_act
  read_open rest = refl

  read_close :
      (field rest : Text)
      → is_char b'"' (head? rest) ≡ false
      → read d (reading rows row field true) false (b'"' ∷ rest)
        ≡ read d (reading rows row field false) false rest
  unfolding read classify read_act
  read_close field rest e = ground arith

  read_double :
      (field rest : Text)
      → read d (reading rows row field true) false (b'"' ∷ b'"' ∷ rest)
        ≡ read d (reading rows row (field ++ b'"' ∷ []) true) false rest
  unfolding read classify read_act
  read_double field rest = refl

  read_quoted :
      (field : Text) (c : ℕ) (rest : Text)
      → (c == b'"') ≡ false
      → read d (reading rows row field true) false (c ∷ rest)
        ≡ read d (reading rows row (field ++ c ∷ []) true) false rest
  unfolding read classify read_act
  read_quoted field c rest e = ground arith

  read_escape :
      (field t rest : Text)
      → is_char b'"' (head? rest) ≡ false
      → read d (reading rows row field true) false (escape t (b'"' ∷ rest))
        ≡ read d (reading rows row (field ++ t) false) false rest
  read_escape field [] rest e = rw append-nil (read_close field rest e)
  read_escape field (c ∷ t) rest e = elim (Bool-cases (c == b'"')) [
    | inl quote ↦ rw (quote) (
        read_double field (escape t (b'"' ∷ rest))
        ∙ read_escape (field ++ b'"' ∷ []) t rest e
        ∙ rw (append_assoc, (==_iff c b'"').0 quote))
    | inr other ↦ rw (other) (
        read_quoted field c (escape t (b'"' ∷ rest)) other
        ∙ read_escape (field ++ c ∷ []) t rest e
        ∙ rw append_assoc)
  ]

  read_cell :
      (c : Cell) (rest : Text)
      → IsWritable d c
      → is_char b'"' (head? rest) ≡ false
      → read d (reading rows row [] false) false (print_cell c rest)
        ≡ read d (reading rows row (cell_text c) false) false rest
  read_cell (plain []) rest h e = refl
  read_cell (plain (c ∷ t)) rest (q, (h, hs)) e =
      read_code [] c (print_plain t rest) h (λ _. q) ∙ read_plain (c ∷ []) t rest refl hs
  read_cell (quoted t) rest h e = read_open (escape t (b'"' ∷ rest)) ∙ read_escape [] t rest e

module _ (rows : List (List Text)) (row : List Text) (field : Text) where
  read_break :
      (d : Delimiter) (crlf : Bool) (rest : Text)
      → read d (reading rows row field false) false (print_break crlf rest)
        ≡ read d (fresh (rows ++ (row ++ field ∷ []) ∷ [])) false rest
  unfolding read classify read_act
  read_break comma true rest = refl
  read_break comma false rest = refl
  read_break tab true rest = refl
  read_break tab false rest = refl

  read_delimiter :
      (d : Delimiter) (rest : Text)
      → read d (reading rows row field false) false (delimiter_code d ∷ rest)
        ≡ read d (reading rows (row ++ field ∷ []) [] false) false rest
  unfolding read classify read_act
  read_delimiter comma rest = refl
  read_delimiter tab rest = refl

head-print_others :
    (d : Delimiter) (cs : List Cell) (crlf : Bool) (rest : Text)
    → is_char b'"' (head? (print_others d cs crlf rest)) ≡ false
head-print_others d [] true rest = refl
head-print_others d [] false rest = refl
head-print_others comma (c ∷ cs) crlf rest = refl
head-print_others tab (c ∷ cs) crlf rest = refl

module _ (d : Delimiter) where
  read_others :
      (rows : List (List Text)) (row : List Text) (field : Text) (cs : List Cell) (crlf : Bool)
      (rest : Text)
      → All (IsWritable d) cs
      → read d (reading rows row field false) false (print_others d cs crlf rest)
        ≡ read d (fresh (rows ++ (row ++ field ∷ map cell_text cs) ∷ [])) false rest
  read_others rows row field [] crlf rest h = read_break rows row field d crlf rest
  read_others rows row field (c ∷ cs) crlf rest (h, hs) =
      read_delimiter rows row field d _
      ∙ read_cell d rows (row ++ field ∷ []) c _ h (head-print_others d cs crlf rest)
      ∙ read_others rows (row ++ field ∷ []) (cell_text c) cs crlf rest hs
      ∙ ap (λ (cells : List Text). read d (fresh (rows ++ cells ∷ [])) false rest)
          (append_assoc row (field ∷ []) (cell_text c ∷ map cell_text cs))

  read_lines :
      (rows : List (List Text)) (ls : List Line)
      → All (IsWritableLine d) ls
      → read d (fresh rows) false (print_lines d ls) ≡ rows ++ map line_cells ls
  read_lines rows [] h = unfold read read_end in sym (append-nil rows)
  read_lines rows (l ∷ ls) (h, hs) =
      read_cell d rows [] l.first _ h.0 (head-print_others d l.others l.crlf _)
      ∙ read_others rows [] (cell_text l.first) l.others l.crlf (print_lines d ls) h.1
      ∙ read_lines (rows ++ line_cells l ∷ []) ls hs
      ∙ append_assoc rows (line_cells l ∷ []) (map line_cells ls)

-- A text of delimited lines, each cell of which is in quotes (then it may hold anything, a quote
-- doubled) or plain with no delimiter, no break and no quote at its start, and each line of which ends with LF or
-- CRLF, is read back as exactly the cells that were written, up to the caps.
pub parse_csv-print_lines :
    (d : Delimiter) (ls : List Line)
    → All (IsWritableLine d) ls
    → parse_csv (print_lines d ls) d ≡ capped max_csv_rows max_csv_cols (map line_cells ls)
unfolding csv_rows
parse_csv-print_lines d ls h =
    parse_csv-capped (print_lines d ls) d
    ∙ ap (capped max_csv_rows max_csv_cols) (read_lines d [] ls h)
