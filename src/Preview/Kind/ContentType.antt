-- ===== src/Preview/Kind/ContentType.antt =====
-- web/src/components/previewKind.ts: what the content type can select, and what a name that every
-- object inherits does to the table.
use pier_s3_gateway.Prelude.{
  true, false, ◌⊎◌, inl, inr, ◌↔◌, [], ◌∷◌, ◌++◌, ◌≡◌, ◌≢◌, refl, sym, ap, ◌∙◌, map, Bool-cases,
  Option, none, some, Text, codes, text_eq, text_eq_iff, arith, Lacks,
}
use mathlib.Core.List.{map-append}
use pier_s3_gateway.Preview.Kind.{
  PreviewKind, svg, kind, inherited, Found, ext_kind, own_entry, by_ext, to_lower, IsAscii,
  LowerCase, ext_of, before_semicolon, bare_type, trim_start, trim_end, kind_of_type, or_kind,
  preview_kind_for, starts_with, is_textual_kind, is_member, prototype_names,
}
use pier_s3_gateway.Preview.Kind.Extension.{preview_kind_for_lem}

before_semicolon-to_lower :
    (ct rest : Text)
    → Lacks b';' ct
    → before_semicolon (map to_lower ct ++ b';' ∷ rest) ≡ map to_lower ct
unfolding before_semicolon to_lower
before_semicolon-to_lower [] rest h = refl
before_semicolon-to_lower (c ∷ ct) rest (h, hs) =
    ground (arith, before_semicolon-to_lower ct rest hs)

before_semicolon_none :
    (ct : Text) → Lacks b';' ct → before_semicolon (map to_lower ct) ≡ map to_lower ct
unfolding before_semicolon to_lower
before_semicolon_none [] h = refl
before_semicolon_none (c ∷ ct) (h, hs) = ground (arith, before_semicolon_none ct hs)

constructor-own_entry : own_entry (codes "constructor") ext_kind ≡ none
unfolding own_entry ext_kind
constructor-own_entry = refl

proto-own_entry : own_entry (codes "__proto__") ext_kind ≡ none
unfolding own_entry ext_kind
proto-own_entry = refl

own_entry-prototype_names :
    (ext : Text) → is_member ext prototype_names ≡ true → own_entry ext ext_kind ≡ none
unfolding is_member prototype_names
own_entry-prototype_names ext h = elim (Bool-cases (text_eq (codes "constructor") ext)) [
  | inl e ↦ rw ((text_eq_iff (codes "constructor") ext).0 e) at constructor-own_entry
  | inr n ↦
      let e : text_eq (codes "__proto__") ext ≡ true = ground arith in
      rw ((text_eq_iff (codes "__proto__") ext).0 e) at proto-own_entry
]

no_other : (ct : Text) → text_eq ct (codes "image/svg+xml") ≡ false → kind_of_type ct ≢ svg
unfolding kind_of_type
no_other ct other = rw other (ground arith)

kind_of_type-svg_iff : (ct : Text) → (kind_of_type ct ≡ svg) ↔ (ct ≡ codes "image/svg+xml")
unfolding kind_of_type
kind_of_type-svg_iff ct = elim (Bool-cases (text_eq ct (codes "image/svg+xml"))) [
  | inl same ↦ (λ _. (text_eq_iff _ _).0 same, λ _. rw same)
  | inr other ↦ (λ h. absurd (no_other ct other h), λ e. rw ((text_eq_iff _ _).1 e))
]

starts_with_sound : (p t : Text) → starts_with p t ≡ true → (rest : Text) × (t ≡ p ++ rest)
unfolding starts_with
starts_with_sound [] t h = (t, refl)
starts_with_sound (c ∷ p) [] h = cc
starts_with_sound (c ∷ p) (x ∷ t) h =
    let (rest, e) = starts_with_sound p t (ground arith) in (rest, ground arith)

kind_of_type-text :
    (rest : Text) → is_textual_kind (kind (kind_of_type (codes "text/" ++ rest))) ≡ true
unfolding kind_of_type is_textual_kind text_eq starts_with
kind_of_type-text rest = ground arith

or_kind-svg_iff :
    (found : Option Found) (k : PreviewKind)
    → (or_kind found k ≡ kind svg) ↔ ((found ≡ some (kind svg)) ⊎ ((found ≡ none) × (k ≡ svg)))
or_kind-svg_iff none k = ground arith
or_kind-svg_iff (some f) k = ground arith

or_kind-inherited :
    (found : Option Found) (k : PreviewKind) (v : Text)
    → (or_kind found k ≡ inherited v) ↔ (found ≡ some (inherited v))
or_kind-inherited none k v = ground arith
or_kind-inherited (some f) k v = ground arith

by_ext-inherited_iff :
    (ext v : Text)
    → (by_ext ext ≡ some (inherited v)) ↔ ((v ≡ ext) × (is_member ext prototype_names ≡ true))
unfolding by_ext
by_ext-inherited_iff ext v = ground (arith, own_entry-prototype_names ext)

module _ (locale : LowerCase) where
  -- Parameters behind a semicolon change nothing.
  pub preview_kind_for-parameters :
      (key ct parameters : Text)
      → IsAscii (ct ++ b';' ∷ parameters)
      → IsAscii ct
      → Lacks b';' ct
      → preview_kind_for locale key (some (ct ++ b';' ∷ parameters))
        ≡ preview_kind_for locale key (some ct)
  unfolding bare_type to_lower
  preview_kind_for-parameters key ct ps all ascii h =
      let same : bare_type locale (some (ct ++ b';' ∷ ps)) ≡ bare_type locale (some ct) =
        ap (λ t. trim_end (trim_start t))
          (ap before_semicolon (locale.lower_ascii _ all ∙ map-append to_lower ct (b';' ∷ ps))
            ∙ before_semicolon-to_lower ct (map to_lower ps) h
            ∙ sym (before_semicolon_none ct h)
            ∙ ap before_semicolon (sym (locale.lower_ascii ct ascii))) in
      rw (preview_kind_for_lem, same) (sym (preview_kind_for_lem locale key (some ct)))

  -- Only two ways lead to the renderer of SVG files: the extension, or the exact media type of a
  -- file whose extension is unknown.
  pub preview_kind_for-svg_iff :
      (key : Text) (content_type : Option Text)
      → (preview_kind_for locale key content_type ≡ kind svg) ↔ (
          (by_ext (ext_of locale key) ≡ some (kind svg))
          ⊎ ((by_ext (ext_of locale key) ≡ none)
              × (bare_type locale content_type ≡ codes "image/svg+xml")))
  preview_kind_for-svg_iff key ct = ground (
    arith,
    preview_kind_for_lem locale key ct,
    kind_of_type-svg_iff (bare_type locale ct),
    or_kind-svg_iff (by_ext (ext_of locale key)) (kind_of_type (bare_type locale ct)),
  )

  -- A file of unknown extension and of a media type under `text/`, HTML included, is shown by one
  -- of the renderers of text.
  pub preview_kind_for-text :
      (key : Text) (content_type : Option Text)
      → by_ext (ext_of locale key) ≡ none
      → starts_with (codes "text/") (bare_type locale content_type) ≡ true
      → is_textual_kind (preview_kind_for locale key content_type) ≡ true
  preview_kind_for-text key ct unknown h =
      let (rest, e) = starts_with_sound _ _ h in
      rw (preview_kind_for_lem, unknown, e) (kind_of_type-text rest)

  -- The result is no preview kind exactly when the extension is the name of a member that every
  -- object has, and then it is that member.
  pub preview_kind_for-inherited_iff :
      (key : Text) (content_type : Option Text) (v : Text)
      → (preview_kind_for locale key content_type ≡ inherited v)
        ↔ ((v ≡ ext_of locale key) × (is_member (ext_of locale key) prototype_names ≡ true))
  preview_kind_for-inherited_iff key ct v = ground (
    arith,
    preview_kind_for_lem locale key ct,
    by_ext-inherited_iff (ext_of locale key) v,
    or_kind-inherited (by_ext (ext_of locale key)) (kind_of_type (bare_type locale ct)) v,
  )
