-- ===== src/Preview/Body.antt =====
-- `renderBody` of web/src/components/FilePreview.tsx: what the preview shows in each state, and the
-- toggle above it. Drawing the elements is React's; here a body is the element with what it is given.
pub mod Sources
use pier_s3_gateway.Prelude.{
  ℕ, Bool, true, false, ◌&&◌, List, Option, none, some, if◌then◌else◌, Text,
}
use pier_s3_gateway.Csv.{CsvTable, parse_csv, delimiter_for}
use pier_s3_gateway.Preview.Kind.{
  PreviewKind, image, svg, video, audio, text, markdown, csv, json, pdf, unsupported, Found, kind,
  inherited,
}
use pier_s3_gateway.Preview.Lifecycle.{
  Status, loading, ready, too_large, not_supported, error, ViewMode, rendered, source, Preview,
}

pub data Notice : Type 0 where
  no_preview larger failed : Notice

-- A missing URL is written as the empty one.
pub data Body : Type 0 where
  spin : Body
  fallback : Notice → Body
  pre : Text → Body
  img_element video_element audio_element sandboxed_frame : Option ℕ → Body
  markdown_element : Text → Body
  table_element : CsvTable → Body
  -- `JSON.parse` and `JSON.stringify` are the engine's: the pretty text, or the raw one.
  json_element : Text → Body

abbrev pub has_source : Found → Bool
has_source (kind markdown) = true
has_source (kind csv) = true
has_source (kind json) = true
has_source _ = false

abbrev is_source : ViewMode → Bool
is_source rendered = false
is_source source = true

-- The `switch` of the kind.
unfoldable pub render_kind : Found → Text → Preview → Body
unfolding parse_csv delimiter_for
render_kind (kind image) key p = img_element p.url
render_kind (kind svg) key p = img_element p.url
render_kind (kind video) key p = video_element p.url
render_kind (kind audio) key p = audio_element p.url
render_kind (kind pdf) key p = sandboxed_frame p.url
render_kind (kind markdown) key p = markdown_element p.text_content
render_kind (kind csv) key p = table_element (parse_csv p.text_content (delimiter_for key))
render_kind (kind json) key p = json_element p.text_content
render_kind (kind text) key p = pre p.text_content
render_kind (kind unsupported) key p = fallback no_preview
render_kind (inherited name) key p = fallback no_preview

abbrev render_ready : Text → Preview → Body
render_ready key p =
    if is_source p.view_mode && has_source p.file_kind
    then pre p.text_content
    else render_kind p.file_kind key p

abbrev render_status : Status → Body → Body
render_status loading body = spin
render_status not_supported body = fallback no_preview
render_status too_large body = fallback larger
render_status error body = fallback failed
render_status ready body = body

unfoldable pub render_body : Text → Preview → Body
unfolding render_kind
render_body key p = render_status p.status (render_ready key p)

abbrev is_ready : Status → Bool
is_ready ready = true
is_ready _ = false

unfoldable pub show_mode_toggle : Preview → Bool
show_mode_toggle p = is_ready p.status && has_source p.file_kind
