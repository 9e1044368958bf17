-- ===== src/Tests/PreviewRuns.antt =====
-- web/src/components/previewKind.ts on the inputs of previewKind.test.ts.
use pier_s3_gateway.Prelude.{none, some, ◌≡◌, refl, map, codes}
use pier_s3_gateway.Preview.Kind.{
  LowerCase, to_lower, ext_kind, prototype_names, preview_kind_for, kind, inherited, image, svg,
  text, unsupported,
}

-- An engine that knows the ASCII letters only.
abbrev pub ascii_only : LowerCase
ascii_only = record { lower = map to_lower; lower_ascii = λ s h. refl }

photo : preview_kind_for ascii_only (codes "a/b/photo.PNG/") none ≡ kind image
unfolding preview_kind_for ext_kind prototype_names to_lower
photo = refl

dockerfile : preview_kind_for ascii_only (codes "app/Dockerfile") none ≡ kind text
unfolding preview_kind_for ext_kind prototype_names to_lower
dockerfile = refl

svg_type :
    preview_kind_for ascii_only (codes "x") (some (codes " Image/SVG+xml ; charset=utf-8"))
    ≡ kind svg
unfolding preview_kind_for ext_kind prototype_names to_lower
svg_type = refl

no_kind : preview_kind_for ascii_only (codes "a.bin") none ≡ kind unsupported
unfolding preview_kind_for ext_kind prototype_names to_lower
no_kind = refl

-- A file whose extension is a member of every object.
not_a_kind :
    preview_kind_for ascii_only (codes "a/x.constructor") none ≡ inherited (codes "constructor")
unfolding preview_kind_for ext_kind prototype_names to_lower
not_a_kind = refl
