-- ===== src/Preview/Lifecycle.antt =====
-- web/src/components/FilePreview.tsx: the effect that loads a file, and what the body shows. The
-- object URLs that the browser holds are part of the state. An effect run waits for the blob, then
-- perhaps for its text; its `cancelled` flag is set by its cleanup, and its answers still come.
pub mod Shown
pub mod Urls
use Prim.Native.Nat.{compare}
use pier_s3_gateway.Prelude.{
  ℕ, ◌+◌, Bool, true, false, not, List, [], ◌∷◌, Option, none, some, ltb, ◌==◌, if◌then◌else◌, Text,
}
use pier_s3_gateway.Preview.Kind.{
  PreviewKind, image, svg, video, audio, text, markdown, csv, json, pdf, unsupported, Found, kind,
  inherited, is_textual_kind, max_text_bytes, max_preview_bytes,
}

pub data Status : Type 0 where
  loading ready too_large not_supported error : Status

pub data ViewMode : Type 0 where
  rendered source : ViewMode

-- Where an effect run waits.
pub data EffectRun : Type 0 where
  awaiting_blob awaiting_text : EffectRun

pub record Preview : Type 0 where
  pub file_kind : Found
  pub status : Status
  pub url : Option ℕ
  pub text_content : Text
  pub view_mode : ViewMode
  pub url_ref : Option ℕ
  -- The object URLs that exist, and the next one.
  pub live : List ℕ
  pub next_url : ℕ
  -- The run of the effect in force, if it still waits, and the runs that were cancelled.
  pub active : Bool
  pub run : Option EffectRun
  pub cancelled : List EffectRun

abbrev pub remove : ℕ → List ℕ → List ℕ
remove u [] = []
remove u (x ∷ xs) = if x == u then remove u xs else x ∷ remove u xs

-- The `revoke` of the effect.
abbrev revoke_at : Option ℕ → Preview → Preview
revoke_at none p = p
revoke_at (some u) p = record p { live = remove u p.live; url_ref = none }

unfoldable pub revoke : Preview → Preview
revoke p = revoke_at p.url_ref p

abbrev is_unsupported : Found → Bool
is_unsupported (kind unsupported) = true
is_unsupported _ = false

-- `typeof size === 'number' && size > MAX_PREVIEW_BYTES`
abbrev exceeds : Option ℕ → Bool
exceeds none = false
exceeds (some size) = ltb max_preview_bytes size

-- `run` up to its first wait, for a file of this kind and perhaps known size.
unfoldable pub start : Found → Option ℕ → Preview → Preview
unfolding revoke
start k size p =
    let cleared = revoke (record p {
      file_kind = k;
      status = loading;
      url = none;
      text_content = [];
      view_mode = rendered;
      active = true;
      run = none;
    }) in
    if is_unsupported k
    then record cleared { status = not_supported }
    else if exceeds size
    then record cleared { status = too_large }
    else record cleared { run = some awaiting_blob }

abbrev stash : Option EffectRun → List EffectRun → List EffectRun
stash none rs = rs
stash (some r) rs = r ∷ rs

-- The cleanup of the effect.
unfoldable pub cleanup : Preview → Preview
unfolding revoke
cleanup p = revoke (record p { active = false; run = none; cancelled = stash p.run p.cancelled })

pub data Reply : Type 0 where
  got_blob : ℕ → Reply
  got_text : Text → Reply
  failed : Reply

-- The effect behind `await fetchObjectBlob`.
unfoldable pub on_blob : Bool → Reply → Preview → Preview
on_blob cancelled (got_blob size) p =
    if cancelled
    then p
    else if ltb max_preview_bytes size
    then record p { status = too_large }
    else if is_textual_kind p.file_kind
    then if ltb max_text_bytes size
      then record p { status = too_large }
      else record p { run = some awaiting_text }
    else record p {
      live = p.next_url ∷ p.live;
      next_url = p.next_url + 1;
      url_ref = some p.next_url;
      url = some p.next_url;
      status = ready;
    }
on_blob cancelled (got_text t) p = p
on_blob cancelled failed p = if cancelled then p else record p { status = error }

-- The effect behind `await blob.text()`.
unfoldable pub on_text : Bool → Reply → Preview → Preview
on_text cancelled (got_text t) p =
    if cancelled then p else record p { text_content = t; status = ready }
on_text cancelled (got_blob size) p = p
on_text cancelled failed p = if cancelled then p else record p { status = error }

abbrev continue : Bool → EffectRun → Reply → Preview → Preview
continue cancelled awaiting_blob r p = on_blob cancelled r p
continue cancelled awaiting_text r p = on_text cancelled r p

abbrev answer_run : Option EffectRun → Reply → Preview → Preview
answer_run none r p = p
answer_run (some run) r p = continue false run r (record p { run = none })

abbrev answer_cancelled : List EffectRun → Reply → Preview → Preview
answer_cancelled [] r p = p
answer_cancelled (run ∷ rest) r p = continue true run r (record p { cancelled = rest })

-- React runs the cleanup, and the effect again if the preview is visible, when a dependency
-- changes; answers come at any time.
pub data Event : Type 0 where
  show : Found → Option ℕ → Event
  hide : Event
  set_view : ViewMode → Event
  reply late_reply : Reply → Event

unfoldable pub step : Event → Preview → Preview
unfolding start cleanup on_blob on_text
step (show k size) p = start k size (cleanup p)
step hide p = cleanup p
step (set_view v) p = record p { view_mode = v }
step (reply r) p = answer_run p.run r p
step (late_reply r) p = answer_cancelled p.cancelled r p

unfoldable pub steps : List Event → Preview → Preview
unfolding step
steps [] p = p
steps (e ∷ es) p = steps es (step e p)

abbrev pub mounted : Preview
mounted = record {
  file_kind = kind unsupported;
  status = loading;
  url = none;
  text_content = [];
  view_mode = rendered;
  url_ref = none;
  live = [];
  next_url = 0;
  active = false;
  run = none;
  cancelled = [];
}
