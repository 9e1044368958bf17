-- ===== src/Tests/Witnesses/PreviewCases.antt =====
-- web/src/components/previewKind.ts and FilePreview.tsx: the theorems at concrete files.
use pier_s3_gateway.Prelude.{map, text_eq, inr, arith, true, [], ◌∷◌, ◌≡◌, refl, none, some, codes}
use pier_s3_gateway.Preview.Kind.{
  to_lower, own_entry, ext_kind, is_textual_kind, kind, text, image, csv, preview_kind_for,
}
use pier_s3_gateway.Preview.Kind.Extension.{preview_kind_for-own_entry}
use pier_s3_gateway.Preview.Lifecycle.{
  show, hide, reply, late_reply, got_blob, failed, steps, mounted, Preview, loading, awaiting_blob,
}
use pier_s3_gateway.Preview.Lifecycle.Urls.{IsTidy, steps-IsTidy}
use pier_s3_gateway.Preview.Body.{render_body}
use pier_s3_gateway.Preview.Body.Sources.{IsLoaded, render_body-IsLoaded}
use pier_s3_gateway.Tests.PreviewRuns.{ascii_only}

folded : map to_lower (codes "D/A.CSV/") ≡ codes "d/a.csv/"
unfolding to_lower
folded = refl

csv_own : own_entry (codes "csv") ext_kind ≡ some csv
unfolding own_entry text_eq ext_kind
csv_own = refl

preview_kind_for-own_entry_example : preview_kind_for ascii_only (codes "D/A.CSV/") none ≡ kind csv
preview_kind_for-own_entry_example =
    preview_kind_for-own_entry ascii_only (codes "D/A.CSV/") (codes "d/") (codes "a") (codes "csv")
      1 none csv (ground arith) folded (inr (codes "d", refl)) (omega arith) csv_own

steps-IsTidy_example : IsTidy (
    steps
      (show (kind image) none
        ∷ hide
        ∷ late_reply (got_blob 7)
        ∷ show (kind text) (some 9)
        ∷ reply failed
        ∷ [])
      mounted)
steps-IsTidy_example = steps-IsTidy (
    show (kind image) none
    ∷ hide
    ∷ late_reply (got_blob 7)
    ∷ show (kind text) (some 9)
    ∷ reply failed
    ∷ [])

abbrev waiting : Preview
waiting = record mounted {
  file_kind = kind text;
  status = loading;
  active = true;
  run = some awaiting_blob;
}

render_body-IsLoaded_example :
    IsLoaded (steps (show (kind image) none ∷ reply (got_blob 7) ∷ []) mounted).live (
      render_body
        (codes "a.png")
        (steps (show (kind image) none ∷ reply (got_blob 7) ∷ []) mounted))
unfolding steps is_textual_kind
render_body-IsLoaded_example =
    render_body-IsLoaded (codes "a.png") (show (kind image) none ∷ reply (got_blob 7) ∷ []) refl
