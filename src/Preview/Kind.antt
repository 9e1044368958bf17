-- ===== src/Preview/Kind.antt =====
-- web/src/components/previewKind.ts: which renderer a file gets.
pub mod ContentType
pub mod Extension
use Prim.Native.String.{String}
use pier_s3_gateway.Prelude.{
  ℕ, ◌+◌, ◌*◌, ◌<◌, Bool, true, false, ◌&&◌, ◌||◌, List, [], ◌∷◌, ◌≡◌, map, Option, none, some, leb,
  ◌==◌, if◌then◌else◌, Text, codes, text_eq, strip_slashes, All,
}

pub data PreviewKind : Type 0 where
  image svg video audio text markdown csv json pdf unsupported : PreviewKind

-- `EXT_KIND[ext]` reads a plain object, so besides its own entries it finds what every object
-- inherits. Such a value is a function or an object, and equals no kind.
pub data Found : Type 0 where
  kind : PreviewKind → Found
  inherited : Text → Found

unfoldable pub is_textual_kind : Found → Bool
is_textual_kind (kind text) = true
is_textual_kind (kind markdown) = true
is_textual_kind (kind csv) = true
is_textual_kind (kind json) = true
is_textual_kind _ = false

abbrev pub max_text_bytes : ℕ
max_text_bytes = 512 * 1024

abbrev pub max_preview_bytes : ℕ
max_preview_bytes = 25 * 1024 * 1024

unfoldable pub ext_kind : List (String × PreviewKind)
ext_kind =
    ("png", image)
    ∷ ("jpg", image)
    ∷ ("jpeg", image)
    ∷ ("gif", image)
    ∷ ("webp", image)
    ∷ ("avif", image)
    ∷ ("bmp", image)
    ∷ ("ico", image)
    ∷ ("svg", svg)
    ∷ ("mp4", video)
    ∷ ("webm", video)
    ∷ ("ogv", video)
    ∷ ("mov", video)
    ∷ ("m4v", video)
    ∷ ("mp3", audio)
    ∷ ("wav", audio)
    ∷ ("oga", audio)
    ∷ ("ogg", audio)
    ∷ ("flac", audio)
    ∷ ("m4a", audio)
    ∷ ("aac", audio)
    ∷ ("pdf", pdf)
    ∷ ("md", markdown)
    ∷ ("markdown", markdown)
    ∷ ("csv", csv)
    ∷ ("tsv", csv)
    ∷ ("json", json)
    ∷ ("txt", text)
    ∷ ("yaml", text)
    ∷ ("yml", text)
    ∷ ("log", text)
    ∷ ("xml", text)
    ∷ ("html", text)
    ∷ ("htm", text)
    ∷ ("css", text)
    ∷ ("js", text)
    ∷ ("mjs", text)
    ∷ ("cjs", text)
    ∷ ("ts", text)
    ∷ ("tsx", text)
    ∷ ("jsx", text)
    ∷ ("go", text)
    ∷ ("py", text)
    ∷ ("rb", text)
    ∷ ("rs", text)
    ∷ ("java", text)
    ∷ ("kt", text)
    ∷ ("c", text)
    ∷ ("h", text)
    ∷ ("cpp", text)
    ∷ ("hpp", text)
    ∷ ("sh", text)
    ∷ ("bash", text)
    ∷ ("zsh", text)
    ∷ ("sql", text)
    ∷ ("toml", text)
    ∷ ("ini", text)
    ∷ ("conf", text)
    ∷ ("cfg", text)
    ∷ ("env", text)
    ∷ ("properties", text)
    ∷ ("dockerfile", text)
    ∷ ("gitignore", text)
    ∷ []

-- The members of `Object.prototype` whose names have no capital letter: `extOf` returns no other.
unfoldable pub prototype_names : List String
prototype_names = "constructor" ∷ "__proto__" ∷ []

unfoldable pub own_entry : Text → List (String × PreviewKind) → Option PreviewKind
unfolding text_eq
own_entry ext [] = none
own_entry ext ((name, k) ∷ table) = if text_eq (codes name) ext then some k else own_entry ext table

unfoldable pub is_member : Text → List String → Bool
unfolding text_eq
is_member t [] = false
is_member t (name ∷ names) = text_eq (codes name) t || is_member t names

-- `EXT_KIND[ext]`
unfoldable pub by_ext : Text → Option Found
unfolding own_entry is_member
by_ext ext = elim (own_entry ext ext_kind) [
  | some k ↦ some (kind k)
  | none ↦ if is_member ext prototype_names then some (inherited ext) else none
]

-- The text behind the last `c`.
unfoldable pub after_last : ℕ → Text → Option Text
after_last c [] = none
after_last c (x ∷ s) = elim (after_last c s) [
  | some t ↦ some t
  | none ↦ if x == c then some s else none
]

abbrev pub or_else : Option Text → Text → Text
or_else none t = t
or_else (some s) t = s

-- The text before the first `;`: `split(';')[0]`.
unfoldable pub before_semicolon : Text → Text
before_semicolon [] = []
before_semicolon (c ∷ s) = if c == b';' then [] else c ∷ before_semicolon s

-- White space and line terminators, as `trim` knows them.
unfoldable pub is_space : ℕ → Bool
is_space c =
    (leb 9 c && leb c 13)
    || c == 0x20
    || c == 0xa0
    || c == 0x1680
    || (leb 0x2000 c && leb c 0x200a)
    || c == 0x2028
    || c == 0x2029
    || c == 0x202f
    || c == 0x205f
    || c == 0x3000
    || c == 0xfeff

unfoldable pub trim_start : Text → Text
unfolding is_space
trim_start [] = []
trim_start (c ∷ s) = if is_space c then trim_start s else c ∷ s

unfoldable pub trim_end : Text → Text
unfolding is_space
trim_end [] = []
trim_end (c ∷ s) = elim (trim_end s) [ [] ↦ if is_space c then [] else c ∷ [] | x ∷ t ↦ c ∷ x ∷ t ]

unfoldable pub starts_with : Text → Text → Bool
starts_with [] t = true
starts_with (c ∷ s) [] = false
starts_with (c ∷ s) (x ∷ t) = c == x && starts_with s t

-- `toLowerCase` on ASCII.
unfoldable pub to_lower : ℕ → ℕ
to_lower c = if leb b'A' c && leb c b'Z' then c + 32 else c

abbrev pub IsAscii : Text → Type 0
IsAscii = All (λ c. c < 128)

unfoldable pub kind_of_type : Text → PreviewKind
kind_of_type ct =
    if text_eq ct (codes "image/svg+xml")
    then svg
    else if starts_with (codes "image/") ct
    then image
    else if starts_with (codes "video/") ct
    then video
    else if starts_with (codes "audio/") ct
    then audio
    else if text_eq ct (codes "application/pdf")
    then pdf
    else if text_eq ct (codes "text/markdown")
    then markdown
    else if text_eq ct (codes "text/csv") || text_eq ct (codes "text/tab-separated-values")
    then csv
    else if text_eq ct (codes "application/json")
    then json
    else if starts_with (codes "text/") ct
    then text
    else unsupported

-- `byExt ? byExt : …`: every value found is truthy.
abbrev pub or_kind : Option Found → PreviewKind → Found
or_kind none k = kind k
or_kind (some found) k = found

-- The engine's `toLowerCase`. Its tables for other alphabets are data of the engine.
pub record LowerCase : Type 0 where
  pub lower : Text → Text
  pub lower_ascii : (s : Text) → IsAscii s → lower s ≡ map to_lower s

module _ (locale : LowerCase) where
  open locale use {lower}

  unfoldable pub ext_of : Text → Text
  unfolding after_last strip_slashes
  ext_of key =
      let path = strip_slashes (lower key) in
      let base = or_else (after_last b'/' path) path in or_else (after_last b'.' base) base

  -- The content type without its parameters; a missing one counts as empty.
  unfoldable pub bare_type : Option Text → Text
  unfolding before_semicolon trim_start trim_end
  bare_type none = trim_end (trim_start (before_semicolon (lower [])))
  bare_type (some ct) = trim_end (trim_start (before_semicolon (lower ct)))

  unfoldable pub preview_kind_for : Text → Option Text → Found
  unfolding by_ext ext_of bare_type kind_of_type text_eq starts_with
  preview_kind_for key content_type =
      or_kind (by_ext (ext_of key)) (kind_of_type (bare_type content_type))
