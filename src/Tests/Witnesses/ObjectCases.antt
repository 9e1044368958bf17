-- ===== src/Tests/Witnesses/ObjectCases.antt =====
-- web/src/components/ObjectBrowser.tsx and what it opens: the theorems at concrete objects.
use Prim.Native.Nat.{compare}
use pier_s3_gateway.Prelude.{
  ℕ, ◌↔◌, split, ℕ, Ordering, pos, negsuc, true, false, List, [], ◌∷◌, ◌++◌, ◌≡◌, refl, none, some,
  arith, Text, codes, Perm, sort_by, IsOrder, length, map,
}
use pier_s3_gateway.Client.{axios, Answer, success, failure}
use pier_s3_gateway.Client.Paths.Segments.{IsText}
use pier_s3_gateway.Client.Paths.Clean.{is_addressable, are_clean, mark}
use pier_s3_gateway.Csv.{parse_csv, delimiter_for}
use pier_s3_gateway.Preview.Lifecycle.{got_blob}
use pier_s3_gateway.Preview.Table.{render_csv}
use pier_s3_gateway.Preview.Table.Shown.{fitted, render_csv-fitted}
use pier_s3_gateway.View.Cards.{QuotaBar, quota_bar, exponent, double, percent_used}
use pier_s3_gateway.View.Cards.Quota.{IsFaithful, quota_bar-IsFaithful}
use pier_s3_gateway.View.Meta.{MetaData}
use pier_s3_gateway.View.Objects.{handle_delete, activate, act, close_preview}
use pier_s3_gateway.View.Objects.Deletion.{IsDeletion, handle_delete-IsDeletion}
use pier_s3_gateway.View.Objects.Screen.{
  file_of, clicked_from, Input, event, answer, late_answer, rerun, opened, screen_steps, IsInStep,
  screen_steps-IsInStep,
}
use pier_s3_gateway.View.Rows.{Row, info, sort_names}
use pier_s3_gateway.View.Rows.Sorted.{Collation, AllPrecede, sort_names-AllPrecede}
use pier_s3_gateway.Tests.PreviewRuns.{ascii_only}

abbrev row : Text → Row
row key = record { key = key; name = key; size = pos 3; last_modified = []; is_prefix = false }

abbrev folder : Text → Row
folder key = record { key = key; name = key; size = negsuc 0; last_modified = []; is_prefix = true }

-- An order by the first code unit.
abbrev first_unit : Text → ℕ
first_unit [] = 0
first_unit (c ∷ _) = c

abbrev by_first : Text → Text → Ordering
by_first a b = compare (first_unit a) (first_unit b)

by_first-IsOrder : IsOrder by_first
by_first-IsOrder = record { total = λ a b h. ground arith; trans = λ a b c h k. ground arith }

abbrev first_units : Collation
first_units = record { locale_compare = by_first; is_order = by_first-IsOrder }

abbrev three_rows : List Row
three_rows = row (codes "b") ∷ folder (codes "c/") ∷ row (codes "a") ∷ []

sort_names-AllPrecede_example :
    Perm (sort_by (sort_names by_first) three_rows) three_rows
    × AllPrecede first_units (sort_by (sort_names by_first) three_rows)
sort_names-AllPrecede_example = sort_names-AllPrecede first_units three_rows

-- The folder comes first, then the files by name.
folder_first :
    sort_by (sort_names by_first) three_rows
    ≡ folder (codes "c/") ∷ row (codes "a") ∷ row (codes "b") ∷ []
unfolding sort_by sort_names
folder_first = refl

abbrev clicks : List Input
clicks =
    event (activate (row (codes "a.png")))
    ∷ answer (got_blob 7)
    ∷ event (act info (row (codes "b")))
    ∷ event close_preview
    ∷ rerun
    ∷ late_answer (got_blob 9)
    ∷ event (activate (row (codes "b")))
    ∷ []

screen_steps-IsInStep_example :
    let s = screen_steps ascii_only clicks opened in
    (s.panels.preview ≡ file_of (clicked_from none clicks))
    × IsInStep ascii_only s
    × (s.panels.preview ≡ none → s.file.live ≡ [])
screen_steps-IsInStep_example = screen_steps-IsInStep ascii_only clicks

bucket_name-IsText : IsText (codes "data")
bucket_name-IsText = (ground arith, refl)

file_key-IsText : IsText (codes "d/a b")
file_key-IsText = (ground arith, refl)

key_addressable : is_addressable (codes "data") (codes "d/a b") ≡ true
unfolding mark are_clean split
key_addressable = refl

-- A server that has no right to delete.
abbrev refusing : Text → Answer Text
refusing path = failure (axios (some (record { status = 403; message = none })))

handle_delete-IsDeletion_example :
    (path : Text) × IsDeletion refusing
      (codes "data")
      (codes "d/a b")
      path
      (handle_delete refusing (codes "failed") (codes "data") (codes "d/a b"))
handle_delete-IsDeletion_example =
    handle_delete-IsDeletion refusing (codes "failed") (codes "data") (codes "d/a b")
      bucket_name-IsText file_key-IsText key_addressable

abbrev one_object : Text → Answer MetaData
one_object path = success (record {
  key = codes "d/a b";
  content_type = codes "text/plain";
  content_length = 1536;
  etag = codes "e";
  last_modified = [];
})

abbrev wide_row : Text
wide_row = codes "a" ++ 10 ∷ codes "1,2" ++ 10 ∷ []

render_csv-fitted_example :
    let table = parse_csv wide_row (delimiter_for (codes "t.csv")) in
    let grid = render_csv (codes "t.csv") wide_row in
    (map (λ c. c.title) grid.titles ≡ table.header)
    × (grid.lines ≡ map (fitted (length table.header)) table.rows)
    × (grid.notice ≡ table.truncated)
render_csv-fitted_example = render_csv-fitted (codes "t.csv") wide_row

-- The second cell of the row is not on screen.
cell_lost : (render_csv (codes "t.csv") wide_row).lines ≡ (some (codes "1") ∷ []) ∷ []
unfolding render_csv
cell_lost = refl

-- The double of 29 / 200, times a hundred, is below 14.5.
percent_rounded :
    (percent_used 29 200 ≡ 14)
    × (percent_used 57 200 ≡ 28)
    × (percent_used 115 200 ≡ 57)
    × (percent_used 1 2 ≡ 50)
    × (percent_used 2 3 ≡ 67)
    × (percent_used 0 7 ≡ 0)
unfolding percent_used double exponent
percent_rounded = (refl, refl, refl, refl, refl, refl)

quota_bar-IsFaithful_example :
    ((quota_bar (some 1000) (some 900) ≡ none) ↔ (◌≡◌ {A = ℕ} 1000 0))
    × ((bar : QuotaBar) → quota_bar (some 1000) (some 900) ≡ some bar → IsFaithful 900 1000 bar)
quota_bar-IsFaithful_example = quota_bar-IsFaithful 1000 900
