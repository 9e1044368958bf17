-- ===== src/Preview/Body/Sources.antt =====
-- web/src/components/FilePreview.tsx: the sources of the elements that load one.
use pier_s3_gateway.Prelude.{
  ℕ, ◌&&◌, if◌then◌else◌, true, false, List, [], ◌∷◌, ◌≡◌, refl, ap, ◌∙◌, Option, none, some, Text,
}
use pier_s3_gateway.Preview.Kind.{
  image, svg, video, audio, text, markdown, csv, json, pdf, unsupported, Found, kind, inherited,
  is_textual_kind,
}
use pier_s3_gateway.Preview.Lifecycle.{
  Status, ready, loading, too_large, not_supported, error, Preview, Event, steps, mounted,
}
use pier_s3_gateway.Preview.Lifecycle.Urls.{IsTidy, steps-IsTidy, only}
use pier_s3_gateway.Preview.Body.{
  Body, img_element, video_element, audio_element, sandboxed_frame, render_body, render_kind,
  render_ready, render_status, has_source, is_source, pre,
}

-- An element that loads a source has one, and it is an object URL that exists.
abbrev pub IsLoaded : List ℕ → Body → Type 0
IsLoaded live (img_element o) = (u : ℕ) × (o ≡ some u) × (live ≡ u ∷ [])
IsLoaded live (video_element o) = (u : ℕ) × (o ≡ some u) × (live ≡ u ∷ [])
IsLoaded live (audio_element o) = (u : ℕ) × (o ≡ some u) × (live ≡ u ∷ [])
IsLoaded live (sandboxed_frame o) = (u : ℕ) × (o ≡ some u) × (live ≡ u ∷ [])
IsLoaded live _ = Unit

-- A file that is ready and of no textual kind has its URL on screen, and that URL exists.
media_url :
    (p : Preview)
    → IsTidy p
    → p.active ≡ true
    → p.status ≡ ready
    → is_textual_kind p.file_kind ≡ false
    → (u : ℕ) × (p.url ≡ some u) × (p.live ≡ u ∷ [])
media_url p v a r k = known p.url_ref refl
  where
    known : (o : Option ℕ) → p.url_ref ≡ o → (u : ℕ) × (p.url ≡ some u) × (p.live ≡ u ∷ [])
    known none e = absurd (v.media a r k e)
    known (some u) e = (u, v.shown a ∙ e, v.live ∙ ap only e)

render_kind-IsLoaded :
    (key : Text) (p : Preview) (k : Found)
    → p.file_kind ≡ k
    → IsTidy p
    → p.active ≡ true
    → p.status ≡ ready
    → IsLoaded p.live (render_kind k key p)
unfolding render_kind is_textual_kind
render_kind-IsLoaded key p (kind image) e v a r = media_url p v a r (rw e refl)
render_kind-IsLoaded key p (kind svg) e v a r = media_url p v a r (rw e refl)
render_kind-IsLoaded key p (kind video) e v a r = media_url p v a r (rw e refl)
render_kind-IsLoaded key p (kind audio) e v a r = media_url p v a r (rw e refl)
render_kind-IsLoaded key p (kind pdf) e v a r = media_url p v a r (rw e refl)
render_kind-IsLoaded key p (kind markdown) e v a r = tt
render_kind-IsLoaded key p (kind csv) e v a r = tt
render_kind-IsLoaded key p (kind json) e v a r = tt
render_kind-IsLoaded key p (kind text) e v a r = tt
render_kind-IsLoaded key p (kind unsupported) e v a r = tt
render_kind-IsLoaded key p (inherited name) e v a r = tt

render_ready-IsLoaded :
    (key : Text) (p : Preview)
    → IsLoaded p.live (render_kind p.file_kind key p)
    → IsLoaded p.live (render_ready key p)
render_ready-IsLoaded key p h =
    elim (is_source p.view_mode && has_source p.file_kind)
      as (λ b. IsLoaded p.live (if b then pre p.text_content else render_kind p.file_kind key p)) [
        | true ↦ tt
        | false ↦ h
      ]

render_status-IsLoaded :
    (live : List ℕ) (s : Status) (body : Body)
    → (s ≡ ready → IsLoaded live body)
    → IsLoaded live (render_status s body)
render_status-IsLoaded live loading body h = tt
render_status-IsLoaded live not_supported body h = tt
render_status-IsLoaded live too_large body h = tt
render_status-IsLoaded live error body h = tt
render_status-IsLoaded live ready body h = h refl

-- After any sequence of shows, hides, view changes and answers, early or late: as long as the preview is
-- shown, an image, video, audio or PDF element is given an object URL that exists, never one that was
-- revoked and never the empty one.
pub render_body-IsLoaded :
    (key : Text) (es : List Event)
    → (steps es mounted).active ≡ true
    → IsLoaded (steps es mounted).live (render_body key (steps es mounted))
unfolding render_body
render_body-IsLoaded key es a =
    let p = steps es mounted in
    render_status-IsLoaded p.live p.status (render_ready key p) (λ r.
      render_ready-IsLoaded key p
        (render_kind-IsLoaded key p p.file_kind refl (steps-IsTidy es) a r))
