-- ===== src/Preview/Table.antt =====
-- `renderCsv`, `renderJson` and the texts around the body of web/src/components/FilePreview.tsx.
pub mod Shown
use pier_s3_gateway.Prelude.{
  ℕ, zero, suc, ◌+◌, Bool, true, false, List, [], ◌∷◌, ◌++◌, ◌≡◌, Option, none, some, if◌then◌else◌,
  Text, split, strip_slashes, is_empty, length, map,
}
use pier_s3_gateway.Csv.{CsvTable, parse_csv, delimiter_for}
use pier_s3_gateway.Preview.Kind.{Found, kind, csv, json}

-- A column shows the property of its index.
pub record Column : Type 0 where
  pub title : Text
  pub data_index : ℕ

abbrev columns_from : ℕ → List Text → List Column
columns_from i [] = []
columns_from i (title ∷ titles) =
    record { title = title; data_index = i } ∷ columns_from (suc i) titles

unfoldable pub columns : CsvTable → List Column
columns table = columns_from 0 table.header

-- `row[i]` of `{ key, ...cells }`: the cell, undefined where there is none.
unfoldable pub cell_at : List Text → ℕ → Option Text
cell_at [] i = none
cell_at (c ∷ cells) zero = some c
cell_at (c ∷ cells) (suc i) = cell_at cells i

-- What the table shows of a row.
unfoldable pub shown_cells : List Column → List Text → List (Option Text)
unfolding cell_at
shown_cells [] cells = []
shown_cells (c ∷ cs) cells = cell_at cells c.data_index ∷ shown_cells cs cells

pub record Grid : Type 0 where
  pub titles : List Column
  pub lines : List (List (Option Text))
  pub notice : Bool

unfoldable pub render_csv : Text → Text → Grid
unfolding parse_csv delimiter_for columns shown_cells
render_csv key text =
    let table = parse_csv text (delimiter_for key) in
    record {
      titles = columns table;
      lines = map (shown_cells (columns table)) table.rows;
      notice = table.truncated;
    }

-- `JSON.stringify(JSON.parse(text), null, 2)` is the engine's; it throws on a text that is no JSON.
unfoldable pub render_json : (Text → Option Text) → Text → Text
render_json pretty text = elim (pretty text) [ none ↦ text | some t ↦ t ]

abbrev last_or_empty : List Text → Text
last_or_empty [] = []
last_or_empty (s ∷ []) = s
last_or_empty (s ∷ t ∷ ss) = last_or_empty (t ∷ ss)

abbrev or_key : Text → Text → Text
or_key t key = if is_empty t then key else t

-- The name in the title, and of the file that is downloaded.
unfoldable pub base_name : Text → Text
base_name key = or_key (last_or_empty (split b'/' (strip_slashes key))) key

pub data ModeLabel : Type 0 where
  mode_table mode_formatted mode_rendered : ModeLabel

unfoldable pub rendered_label : Found → ModeLabel
rendered_label (kind csv) = mode_table
rendered_label (kind json) = mode_formatted
rendered_label _ = mode_rendered
