-- ===== src/Server/Content.antt =====
-- internal/webui/content_security.go: how an object is served to a browser. `strings.ToLower` is a parameter, known
-- on ASCII.
pub mod Filename
use pier_s3_gateway.Prelude.{
  ℕ, Bool, true, false, not, ◌&&◌, ◌||◌, List, [], ◌∷◌, ◌++◌, ◌≡◌, map, Option, none, some, ◌==◌,
  leb, ltb, if◌then◌else◌, Text, codes, text_eq, any, is_empty, split, strip_slashes,
}
use pier_s3_gateway.Preview.Kind.{to_lower, IsAscii}
use pier_s3_gateway.Server.Utf8.{map_runes, trim_space}

-- `strings.ToLower`. Its tables for other alphabets are data of the Go library.
pub record ToLower : Type 0 where
  pub lower : Text → Text
  pub lower_ascii : (s : Text) → IsAscii s → lower s ≡ map to_lower s

abbrev pub header_xcto : Text
header_xcto = codes "nosniff"

abbrev pub header_csp : Text
header_csp = codes "default-src 'none'; sandbox"

abbrev pub octet_stream : Text
octet_stream = codes "application/octet-stream"

abbrev pub active_content_types : List Text
active_content_types =
    codes "text/html"
    ∷ codes "application/xhtml+xml"
    ∷ codes "image/svg+xml"
    ∷ codes "application/xml"
    ∷ codes "text/xml"
    ∷ codes "application/xml-dtd"
    ∷ codes "application/mathml+xml"
    ∷ codes "application/rss+xml"
    ∷ codes "application/atom+xml"
    ∷ []

pub record Disposition : Type 0 where
  pub content_type : Text
  pub is_inline : Bool

-- `strings.HasSuffix`
unfoldable pub has_suffix : Text → Text → Bool
unfolding text_eq
has_suffix suffix [] = is_empty suffix
has_suffix suffix (c ∷ s) = text_eq (c ∷ s) suffix || has_suffix suffix s

unfoldable pub is_active_content_type : Text → Bool
unfolding text_eq has_suffix
is_active_content_type media =
    any (text_eq media) active_content_types || has_suffix (codes "+xml") media

unfoldable pub before_semicolon : Text → Text
before_semicolon [] = []
before_semicolon (c ∷ s) = let rest = before_semicolon s in if c == b';' then [] else c ∷ rest

-- `path.Base`
abbrev last_of : List Text → Text
last_of [] = []
last_of (s ∷ []) = s
last_of (s ∷ (t ∷ ss)) = last_of (t ∷ ss)

abbrev base_segment : Text → Text
base_segment s = if is_empty s then codes "/" else s

unfoldable pub path_base : Text → Text
unfolding split strip_slashes
path_base s =
    if is_empty s then codes "." else base_segment (last_of (split b'/' (strip_slashes s)))

-- The first line.
unfoldable pub first_line : Text → Text
first_line [] = []
first_line (c ∷ s) = let rest = first_line s in if c == 0x0d || c == 0x0a then [] else c ∷ rest

-- `strings.ReplaceAll(key, "\", "/")`
abbrev slash_for : ℕ → ℕ
slash_for c = if c == 0x5c then b'/' else c

abbrev pub is_unsafe : ℕ → Bool
is_unsafe c = c == 0x22 || (ltb c 0x20 || c == 0x7f)

abbrev or_download : Text → Text
or_download base =
    if is_empty base || (text_eq base (codes ".") || text_eq base (codes ".."))
    then codes "download"
    else base

unfoldable pub sanitize_filename : Text → Text
unfolding first_line path_base map_runes trim_space text_eq
sanitize_filename key =
    or_download (trim_space (map_runes is_unsafe 0 (path_base (map slash_for (first_line key)))))

module _ (go : ToLower) where
  open go use {lower}

  unfoldable pub bare_media_type : Text → Text
  unfolding trim_space before_semicolon
  bare_media_type ct =
      if is_empty (trim_space ct) then [] else lower (trim_space (before_semicolon (trim_space ct)))

  unfoldable pub neutralize_content_type : Text → Disposition
  unfolding bare_media_type is_active_content_type
  neutralize_content_type upstream =
      let media = bare_media_type upstream in
      if is_empty media
      then record { content_type = octet_stream; is_inline = true }
      else if is_active_content_type media
      then record { content_type = octet_stream; is_inline = false }
      else record { content_type = upstream; is_inline = true }
