-- ===== src/Csv/Caps.antt =====
-- The caps of web/src/components/csv.ts: the loop that stops early against the rows of the text.
use mathlib.Core.List.{map-append}
use pier_s3_gateway.Prelude.{
  suc, ◌-◌, ℕ, ◌≤◌, ◌<◌, ◌+◌, Bool, true, false, not, ◌||◌, List, [], ◌∷◌, ◌++◌, ◌≡◌, sym, refl, ap,
  ◌∙◌, arith, head?, Text, is_empty, ltb, length, any, map, take, Bool-cases, inl, inr,
  length-append, any-append, take-append_full, length-map, length-take, take_of_le, append-nil,
  take-concat, take-nil,
}
use pier_s3_gateway.Csv.{
  Delimiter, Action, Event, append, open_quote, close_quote, end_field, end_row, classify, some_row,
  finish, Scan, Step, go, stop, push_field, push_row, act, flush, scan, step_table, initial,
  parse_csv, max_csv_rows, max_csv_cols,
}
use pier_s3_gateway.Csv.Rows.{
  Reading, fresh, close_row, read_act, read_end, read, csv_rows, wide, capped, read-rows,
}

module _ (max_rows max_cols : ℕ) (pos : 0 < max_cols) where
  -- The loop holds what the caps leave of the rows read so far, and has not met the row cap.
  record Sees (s : Scan) (r : Reading) : Type 0 where
    rows : s.rows ≡ map (take max_cols) r.rows
    row : s.row ≡ take max_cols r.row
    field : s.field ≡ r.field
    in_quotes : s.in_quotes ≡ r.in_quotes
    fits : length r.rows ≤ max_rows
    truncated : s.truncated ≡ any (wide max_cols) r.rows || wide max_cols r.row

  abbrev StepSees : Step → Reading → Type 0
  StepSees (go s) r = Sees s r
  StepSees (stop s) r =
      (max_rows < length r.rows)
      × (s.rows ≡ take max_rows (map (take max_cols) r.rows))
      × (s.truncated ≡ true)

  push_field-row :
      (s : Scan) (r : Reading)
      → Sees s r
      → (push_field max_rows max_cols s).row ≡ take max_cols (r.row ++ r.field ∷ [])
  unfolding push_field
  push_field-row s r v = ground (arith, v.row, v.field, take-concat max_cols r.row r.field)

  push_field-truncated :
      (s : Scan) (r : Reading)
      → Sees s r
      → (push_field max_rows max_cols s).truncated
        ≡ any (wide max_cols) r.rows || wide max_cols (r.row ++ r.field ∷ [])
  unfolding push_field
  push_field-truncated s r v =
      ground
        (arith, v.row, v.truncated, length-take max_cols r.row, length-append r.row (r.field ∷ []))

  push_field-rows :
      (s : Scan) (r : Reading)
      → Sees s r
      → (push_field max_rows max_cols s).rows ≡ map (take max_cols) r.rows
  unfolding push_field
  push_field-rows s r v = ground (arith, v.rows)

  push_field-in_quotes :
      (s : Scan) (r : Reading) → Sees s r → (push_field max_rows max_cols s).in_quotes ≡ r.in_quotes
  unfolding push_field
  push_field-in_quotes s r v = ground (arith, v.in_quotes)

  push_field-field : (s : Scan) → (push_field max_rows max_cols s).field ≡ []
  unfolding push_field
  push_field-field s = ground arith

  rows-concat :
      (s : Scan) (r : Reading)
      → Sees s r
      → (push_field max_rows max_cols s).rows ++ (push_field max_rows max_cols s).row ∷ []
        ≡ map (take max_cols) (close_row r).rows
  rows-concat s r v = rw (push_field-rows s r v, push_field-row s r v, map-append)

  length-rows-concat :
      (s : Scan) (r : Reading)
      → Sees s r
      → length ((push_field max_rows max_cols s).rows ++ (push_field max_rows max_cols s).row ∷ [])
        ≡ length r.rows + 1
  length-rows-concat s r v = rw (rows-concat s r v, length-map, length-append)

  push_row-Sees :
      (s : Scan) (r : Reading) → Sees s r → StepSees (push_row max_rows max_cols s) (close_row r)
  unfolding push_row
  push_row-Sees s r v =
      elim (Bool-cases (
        ltb max_rows (
          length (
            (push_field max_rows max_cols s).rows ++ (push_field max_rows max_cols s).row ∷ [])))) [
              | inl full ↦ rw full (
                ground (
                  arith,
                  length-rows-concat s r v,
                  length-append r.rows ((r.row ++ r.field ∷ []) ∷ []),
                ),
                ap (take max_rows) (rows-concat s r v),
                refl,
              )
              | inr room ↦ rw room (record {
                rows = rows-concat s r v;
                row = sym (take-nil max_cols);
                field = push_field-field s;
                in_quotes = push_field-in_quotes s r v;
                fits = ground (
                  arith,
                  length-rows-concat s r v,
                  length-append r.rows ((r.row ++ r.field ∷ []) ∷ []),
                );
                truncated = ground (
                  arith,
                  push_field-truncated s r v,
                  any-append (wide max_cols) r.rows ((r.row ++ r.field ∷ []) ∷ []),
                );
              })
            ]

  act-Sees :
      (s : Scan) (r : Reading) (a : Action)
      → Sees s r
      → StepSees (act max_rows max_cols s a) (read_act r a)
  unfolding act read_act
  act-Sees s r (append c) v = record {
    rows = v.rows;
    row = v.row;
    field = ap (λ f. f ++ c ∷ []) v.field;
    in_quotes = v.in_quotes;
    fits = v.fits;
    truncated = v.truncated;
  }
  act-Sees s r open_quote v = record {
    rows = v.rows;
    row = v.row;
    field = v.field;
    in_quotes = refl;
    fits = v.fits;
    truncated = v.truncated;
  }
  act-Sees s r close_quote v = record {
    rows = v.rows;
    row = v.row;
    field = v.field;
    in_quotes = refl;
    fits = v.fits;
    truncated = v.truncated;
  }
  act-Sees s r end_field v = record {
    rows = push_field-rows s r v;
    row = push_field-row s r v;
    field = push_field-field s;
    in_quotes = push_field-in_quotes s r v;
    fits = v.fits;
    truncated = push_field-truncated s r v;
  }
  act-Sees s r end_row v = push_row-Sees s r v

  -- The caps change nothing at a stop: what follows is cut.
  stop-capped :
      (s : Scan) (r : Reading) (more : List (List Text))
      → StepSees (stop s) r
      → finish s.rows s.truncated ≡ capped max_rows max_cols (r.rows ++ more)
  stop-capped s r more (full, rows, cut) =
      let kept : take max_rows (map (take max_cols) (r.rows ++ more))
          ≡ take max_rows (map (take max_cols) r.rows) =
        rw map-append (take-append_full max_rows _ _ (rw length-map (omega arith))) in
      let over : (ltb max_rows (length (r.rows ++ more)) || any (wide max_cols) (r.rows ++ more))
          ≡ true =
        ground (arith, length-append r.rows more) in
      cc

  Sees-capped :
      (s : Scan) (r : Reading)
      → Sees s r
      → r.row ≡ []
      → finish s.rows s.truncated ≡ capped max_rows max_cols r.rows
  Sees-capped s r v e =
      let kept : take max_rows (map (take max_cols) r.rows) ≡ map (take max_cols) r.rows =
        take_of_le max_rows _ (rw length-map v.fits) in
      let same : s.truncated ≡ (ltb max_rows (length r.rows) || any (wide max_cols) r.rows) =
        ground arith in
      cc (v.rows)

  step_table-capped :
      (st : Step) (r : Reading)
      → r.row ≡ []
      → StepSees st r
      → step_table max_rows max_cols st ≡ capped max_rows max_cols r.rows
  step_table-capped (go s) r e v = Sees-capped s r v e
  step_table-capped (stop s) r e v = rw append-nil at (stop-capped s r [] v)

  some_row-take : (row : List Text) → some_row (take max_cols row) ≡ some_row row
  some_row-take [] = rw take-nil
  some_row-take (x ∷ row) = let e : max_cols ≡ suc (max_cols - 1) = omega arith in rw e

  flush-capped :
      (s : Scan) (r : Reading)
      → Sees s r
      → flush max_rows max_cols s ≡ capped max_rows max_cols (read_end r)
  unfolding flush read_end
  flush-capped s r v =
      let same : (not (is_empty s.field) || some_row s.row)
          ≡ (not (is_empty r.field) || some_row r.row) =
        rw (v.field, v.row, some_row-take r.row) in
      elim (Bool-cases (not (is_empty r.field) || some_row r.row)) [
        | inl rest ↦
            rw (same, rest)
              (step_table-capped (push_row max_rows max_cols s) (close_row r) refl
                (push_row-Sees s r v))
        | inr done ↦ rw (same, done) (Sees-capped s r v (ground arith))
      ]

  scan_step-capped :
      (d : Delimiter) (st : Step) (r : Reading) (skip : Bool) (rest : Text)
      → StepSees st r
      → ((s : Scan)
          → Sees s r
          → scan max_rows max_cols d s skip rest ≡ capped max_rows max_cols (read d r skip rest))
      → (elim st [
        | go s ↦ scan max_rows max_cols d s skip rest
        | stop s ↦ finish s.rows s.truncated
      ])
        ≡ capped max_rows max_cols (read d r skip rest)
  scan_step-capped d (go s) r skip rest v ih = ih s v
  scan_step-capped d (stop s) r skip rest v ih =
      let (more, split) = read-rows d r skip rest in
      stop-capped s r more v ∙ ap (capped max_rows max_cols) (sym split)

  scan-capped :
      (d : Delimiter) (s : Scan) (r : Reading) (skip : Bool) (text : Text)
      → Sees s r
      → scan max_rows max_cols d s skip text ≡ capped max_rows max_cols (read d r skip text)
  unfolding scan read
  scan-capped d s r skip [] v = flush-capped s r v
  scan-capped d s r true (ch ∷ rest) v = scan-capped d s r false rest v
  scan-capped d s r false (ch ∷ rest) v =
      let seen = classify d s.in_quotes (is_empty s.field) ch (head? rest) in
      let same : seen ≡ classify d r.in_quotes (is_empty r.field) ch (head? rest) =
        cc (v.in_quotes, v.field) in
      scan_step-capped d (act max_rows max_cols s seen.action) (read_act r seen.action) seen.skip
        rest (act-Sees s r seen.action v)
        (λ s' v'. scan-capped d s' (read_act r seen.action) seen.skip rest v')
      ∙ ap (λ (e : Event). capped max_rows max_cols (read d (read_act r e.action) e.skip rest)) same

-- The parser keeps exactly the first 500 rows of the text and the first 50 cells of each, and sets
-- `truncated` exactly when the text has more rows than that or a row with more cells.
pub parse_csv-capped :
    (text : Text) (d : Delimiter)
    → parse_csv text d ≡ capped max_csv_rows max_csv_cols (csv_rows text d)
unfolding parse_csv csv_rows
parse_csv-capped text d =
    scan-capped max_csv_rows max_csv_cols (omega arith) d initial (fresh []) false text (record {
      rows = refl;
      row = refl;
      field = refl;
      in_quotes = refl;
      fits = omega arith;
      truncated = refl;
    })
