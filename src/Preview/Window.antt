-- ===== src/Preview/Window.antt =====
-- web/src/components/FilePreview.tsx: the window around the body, and the elements that Markdown may become.
use pier_s3_gateway.Prelude.{
  List, [], ◌∷◌, ◌++◌, Option, none, some, if◌then◌else◌, Text, codes, is_empty,
}
use pier_s3_gateway.Preview.Body.{Body, render_body, show_mode_toggle}
use pier_s3_gateway.Preview.Lifecycle.{Preview, ViewMode}
use pier_s3_gateway.Preview.Table.{ModeLabel, rendered_label}

pub record Window : Type 0 where
  pub title : Text
  -- The mode in force and the label of the rendered one, if the modes can be chosen.
  pub toolbar : Option (ViewMode × ModeLabel)
  pub body : Body

pub data Button : Type 0 where
  close_button download_button : Button

abbrev pub footer : List Button
footer = close_button ∷ download_button ∷ []

-- An anchor that opens a page of its own, with no way back to this one.
pub record Anchor : Type 0 where
  pub href : Option Text
  pub target : Text
  pub rel : Text

abbrev pub opened_apart : Option Text → Anchor
opened_apart href = record {
  href = href;
  target = codes "_blank";
  rel = codes "noopener noreferrer";
}

-- The source of an image: a text, or an object with the text that it is printed as.
pub data Source : Type 0 where
  no_source : Source
  address other_source : Text → Source

abbrev href_of : Source → Option Text
href_of (address s) = some s
href_of _ = none

abbrev printed : Source → Text
printed no_source = []
printed (address s) = s
printed (other_source s) = s

-- `markdownComponents`: an image becomes a link, with its alternative text or its source.
abbrev pub markdown_anchor : Option Text → Anchor
markdown_anchor href = opened_apart href

unfoldable pub markdown_image : Source → Text → Anchor × Text
markdown_image src alt = (opened_apart (href_of src), if is_empty alt then printed src else alt)

unfoldable pub window : (title : Text) → Text → Text → Preview → Window
unfolding render_body show_mode_toggle rendered_label
window title name key p = record {
  title = title ++ codes " - " ++ name;
  toolbar = if show_mode_toggle p then some (p.view_mode, rendered_label p.file_kind) else none;
  body = render_body key p;
}

-- The segments of the toolbar: a click on one sets the mode.
abbrev pub choose_mode : ViewMode → Preview → Preview
choose_mode mode p = record p { view_mode = mode }

-- What a click in the footer does: the preview is closed, or its download begins.
pub data Effect : Type 0 where
  on_close trigger_download : Effect

unfoldable pub on_footer : Button → Effect
on_footer close_button = on_close
on_footer download_button = trigger_download
