-- ===== src/Preview/Kind/Extension.antt =====
-- web/src/components/previewKind.ts: the extension decides before the content type.
use Prim.Native.String.{String}
use pier_s3_gateway.Prelude.{
  ℕ, zero, suc, Bool, true, false, not, ◌&&◌, ◌⊎◌, inl, inr, List, [], ◌∷◌, ◌++◌, ◌≡◌, ◌≢◌, refl,
  sym, ap, ◌∙◌, map, Option, none, some, ◌==◌, Text, codes, text_eq_iff, is_empty, strip_slashes,
  Lacks, All-append, arith, append_assoc,
}
use pier_s3_gateway.Preview.Kind.{
  PreviewKind, kind, ext_kind, own_entry, by_ext, after_last, or_else, to_lower, IsAscii, LowerCase,
  ext_of, or_kind, kind_of_type, bare_type, preview_kind_for,
}

abbrev pub slashes : ℕ → Text
slashes zero = []
slashes (suc n) = b'/' ∷ slashes n

-- Empty, or with a slash at its end.
abbrev pub IsFolder : Text → Type 0
IsFolder folder = (folder ≡ []) ⊎ ((p : Text) × (folder ≡ p ++ b'/' ∷ []))

after_last-Lacks : (c : ℕ) (t : Text) → Lacks c t → after_last c t ≡ none
unfolding after_last
after_last-Lacks c [] h = refl
after_last-Lacks c (x ∷ t) (h, hs) = rw (after_last-Lacks c t hs) (ground arith)

after_last-append : (c : ℕ) (s t : Text) → Lacks c t → after_last c (s ++ c ∷ t) ≡ some t
unfolding after_last
after_last-append c [] t h = rw (after_last-Lacks c t h) (ground arith)
after_last-append c (x ∷ s) t h = rw (after_last-append c s t h)

strip_slashes-slashes : (n : ℕ) → strip_slashes (slashes n) ≡ []
unfolding strip_slashes
strip_slashes-slashes zero = refl
strip_slashes-slashes (suc n) = rw (strip_slashes-slashes n)

strip_slashes-Lacks : (t : Text) (n : ℕ) → Lacks b'/' t → strip_slashes (t ++ slashes n) ≡ t
unfolding strip_slashes
strip_slashes-Lacks [] n h = strip_slashes-slashes n
strip_slashes-Lacks (c ∷ t) n (h, hs) = rw (strip_slashes-Lacks t n hs) (ground arith)

is_empty-append : (s t : Text) → is_empty t ≡ false → is_empty (s ++ t) ≡ false
is_empty-append [] t h = h
is_empty-append (x ∷ s) t h = refl

strip_slashes-append :
    (s t : Text)
    → is_empty (strip_slashes t) ≡ false
    → strip_slashes (s ++ t) ≡ s ++ strip_slashes t
unfolding strip_slashes
strip_slashes-append [] t h = refl
strip_slashes-append (c ∷ s) t h =
    rw (strip_slashes-append s t h, is_empty-append s (strip_slashes t) h) (ground arith)

-- Every name of the table is a plain extension.
abbrev lacks : ℕ → Text → Bool
lacks c [] = true
lacks c (x ∷ t) = not (x == c) && lacks c t

lacks_sound : (c : ℕ) (t : Text) → lacks c t ≡ true → Lacks c t
lacks_sound c [] h = tt
lacks_sound c (x ∷ t) h = (ground arith, lacks_sound c t (ground arith))

abbrev is_plain : Text → Bool
is_plain t = lacks b'/' t && lacks b'.' t && not (is_empty t)

is_plain_sound : (t : Text) → is_plain t ≡ true → Lacks b'/' t × Lacks b'.' t
is_plain_sound t h = (lacks_sound b'/' t (ground arith), lacks_sound b'.' t (ground arith))

abbrev all_plain : List (String × PreviewKind) → Bool
all_plain [] = true
all_plain ((name, k) ∷ table) = is_plain (codes name) && all_plain table

own_entry-is_plain :
    (table : List (String × PreviewKind)) (ext : Text) (k : PreviewKind)
    → all_plain table ≡ true
    → own_entry ext table ≡ some k
    → is_plain ext ≡ true
unfolding own_entry
own_entry-is_plain [] ext k h e = cc
own_entry-is_plain ((name, j) ∷ table) ext k h e =
    ground (arith, text_eq_iff (codes name) ext, own_entry-is_plain table ext k)

strip_slashes-file :
    (folder stem t : Text) (n : ℕ)
    → Lacks b'/' t
    → is_empty t ≡ false
    → strip_slashes (folder ++ ((stem ++ t) ++ slashes n)) ≡ folder ++ (stem ++ t)
strip_slashes-file folder stem t n h ne =
    let kept = strip_slashes-Lacks t n h in
    ap strip_slashes (
      ap (λ z. folder ++ z) (append_assoc stem t (slashes n))
      ∙ sym (append_assoc folder stem (t ++ slashes n)))
    ∙ strip_slashes-append (folder ++ stem) (t ++ slashes n) (rw kept ne)
    ∙ rw kept (append_assoc folder stem t)

-- What `split('/').pop()` takes.
base_of :
    (folder base : Text)
    → IsFolder folder
    → Lacks b'/' base
    → or_else (after_last b'/' (folder ++ base)) (folder ++ base) ≡ base
base_of folder base (inl e) h = rw e (rw (after_last-Lacks b'/' base h))
base_of folder base (inr (p, e)) h = rw e (rw append_assoc (rw (after_last-append b'/' p base h)))

all_plain-ext_kind : all_plain ext_kind ≡ true
unfolding ext_kind
all_plain-ext_kind = refl

-- The two steps of `previewKindFor`.
pub preview_kind_for_lem :
    (locale : LowerCase) (key : Text) (content_type : Option Text)
    → preview_kind_for locale key content_type
      ≡ or_kind (by_ext (ext_of locale key)) (kind_of_type (bare_type locale content_type))
unfolding preview_kind_for
preview_kind_for_lem locale key content_type = refl

module _ (locale : LowerCase) where
  -- The last segment decides the extension.
  ext_of-file :
      (key folder stem ext : Text) (n : ℕ)
      → IsAscii key
      → map to_lower key ≡ folder ++ ((stem ++ b'.' ∷ ext) ++ slashes n)
      → IsFolder folder
      → Lacks b'/' stem
      → is_plain ext ≡ true
      → ext_of locale key ≡ ext
  unfolding ext_of
  ext_of-file key folder stem ext n ascii e f h p =
      let (no_slash, no_dot) = is_plain_sound ext p in
      let in_base : Lacks b'/' (stem ++ b'.' ∷ ext) × Lacks b'/' (b'.' ∷ ext) = (
        All-append (λ x. x ≢ b'/') stem (b'.' ∷ ext) h (omega arith, no_slash),
        (omega arith, no_slash),
      ) in
      let path : strip_slashes (locale.lower key) ≡ folder ++ (stem ++ b'.' ∷ ext) =
        rw (locale.lower_ascii key ascii, e)
          (strip_slashes-file folder stem (b'.' ∷ ext) n (in_base.1) refl) in
      rw (
        path,
        base_of folder (stem ++ b'.' ∷ ext) f in_base.0,
        after_last-append b'.' stem ext no_dot,
      )

  -- A key whose last segment, upper case and slashes at the end disregarded, is a stem, a dot and a
  -- name of the table, gets the kind that the table has for the name, whatever the content type.
  pub preview_kind_for-own_entry :
      (key folder stem ext : Text) (n : ℕ) (content_type : Option Text) (k : PreviewKind)
      → IsAscii key
      → map to_lower key ≡ folder ++ ((stem ++ b'.' ∷ ext) ++ slashes n)
      → IsFolder folder
      → Lacks b'/' stem
      → own_entry ext ext_kind ≡ some k
      → preview_kind_for locale key content_type ≡ kind k
  unfolding by_ext
  preview_kind_for-own_entry key folder stem ext n ct k ascii e f h own =
      let plain = own_entry-is_plain ext_kind ext k all_plain-ext_kind own in
      let found : by_ext (ext_of locale key) ≡ some (kind k) =
        rw (ext_of-file key folder stem ext n ascii e f h plain) (rw (own, by_ext)) in
      rw (preview_kind_for_lem locale key ct, found)
