-- ===== src/View/Downloads.antt =====
-- The downloads that web/src/components/ObjectBrowser.tsx and FilePreview.tsx start, through
-- `downloadObject` of web/src/api/client.ts. The network and whether the page throws are arguments.
use pier_s3_gateway.Prelude.{
  ◌<◌, ◌↔◌, Bool, true, false, not, ◌&&◌, List, [], ◌∷◌, ◌++◌, ◌≡◌, refl, sym, ap, ◌∙◌, arith,
  Option, none, some, if◌then◌else◌, Text, codes, All,
}
use pier_s3_gateway.Client.{other, error_message, truthy, text_of}
use pier_s3_gateway.Client.Download.{
  Response, Urls, fetch_request, blob_of, has_blob, download_object, download_object-succeeds,
  download_object-live,
}
use pier_s3_gateway.Client.Download.Received.{IsReceived, has_blob-IsReceived}
use pier_s3_gateway.Client.Paths.{build_object_path}
use pier_s3_gateway.Client.Paths.Clean.{is_addressable}
use pier_s3_gateway.Client.Paths.Segments.{IsText}
use pier_s3_gateway.Client.Paths.Routes.{IsRouted, build_object_path-IsRouted}
use pier_s3_gateway.Preview.Table.{base_name}
use pier_s3_gateway.View.Rows.{file_name}

abbrev pub Network : Type 0
Network = (path : Text) → (authorization : Option Text) → Option Response

abbrev pub responded : Network → Option (Text × Option Text) → Option Response
responded network none = none
responded network (some (path, authorization)) = network path authorization

pub record Outcome : Type 0 where
  -- The name of the file that was saved, and the errors that are shown.
  pub saved : Option Text
  pub errors : List Text
  pub urls : Urls

abbrev outcome : Bool → Text → Text → Urls → Outcome
outcome true name fallback s = record { saved = some name; errors = []; urls = s }
outcome false name fallback s = record {
  saved = none;
  errors = error_message other fallback ∷ [];
  urls = s;
}

-- The header that carries a token.
abbrev pub header : Option Text → Option Text
header token = if truthy token then some (codes "Bearer " ++ text_of token) else none

and_not_iff : (a b : Bool) → ((a && not b) ≡ true) ↔ ((a ≡ true) × (b ≡ false))
and_not_iff a b = ground arith

module _ (network : Network) (token : Option Text) (throws : Bool) (fallback : Text) where
  -- A download under a name; what fails is never axios's, so the text is the fallback.
  abbrev download_as : Text → Text → Text → Urls → Outcome
  download_as name bucket key s =
      let done = download_object (responded network (fetch_request token bucket key)) throws s in
      outcome done.0 name fallback done.1

  unfoldable pub handle_download : Text → Text → Urls → Outcome
  unfolding fetch_request download_object error_message file_name
  handle_download bucket key s = download_as (file_name key) bucket key s

  unfoldable pub trigger_download : Text → Text → Urls → Outcome
  unfolding fetch_request download_object error_message base_name
  trigger_download bucket key s = download_as (base_name key) bucket key s

  -- What the answer to a request makes of a download under a name.
  pub record IsDownload (name bucket key path : Text) (before : Urls) (o : Outcome) : Type 0 where
    pub routed : IsRouted (codes "objects") bucket key path
    pub saves :
        (o.saved ≡ some name) ↔ (IsReceived (network path (header token)) × (throws ≡ false))
    pub reports : (o.saved ≡ none) ↔ (o.errors ≡ fallback ∷ [])
    pub urls : o.urls.live ≡ before.live

  outcome-saves :
      (ok : Bool) (name : Text) (s : Urls)
      → (((outcome ok name fallback s).saved ≡ some name) ↔ (ok ≡ true))
        × (((outcome ok name fallback s).saved ≡ none)
            ↔ ((outcome ok name fallback s).errors ≡ fallback ∷ []))
        × ((outcome ok name fallback s).urls ≡ s)
  unfolding error_message
  outcome-saves true name s = ((λ _. refl, λ _. refl), (λ e. cc e, λ e. cc e), refl)
  outcome-saves false name s = ((λ e. cc e, λ e. cc e), (λ _. refl, λ _. refl), refl)

  -- A download under any name, of a path that could be encoded.
  download_as-IsDownload :
      (name bucket key path : Text) (s : Urls)
      → build_object_path bucket key ≡ some path
      → IsRouted (codes "objects") bucket key path
      → All (λ x. x.0 < s.next_url) s.live
      → IsDownload name bucket key path s (download_as name bucket key s)
  unfolding fetch_request
  download_as-IsDownload name bucket key path s e r h =
      let response = responded network (fetch_request token bucket key) in
      let done = download_object response throws s in
      let asked : response ≡ network path (header token) = rw e refl in
      let (saves, reports, urls) = outcome-saves done.0 name done.1 in
      let ok : done.0 ≡ (has_blob (blob_of (network path (header token))) && not throws) =
        download_object-succeeds response throws s
        ∙ ap (λ a. has_blob (blob_of a) && not throws) asked in
      let got = has_blob-IsReceived (network path (header token)) in
      record {
        routed = r;
        saves = (
          λ q. let (b, t) = (and_not_iff _ throws).0 (sym ok ∙ saves.0 q) in (got.0 b, t),
          λ p. saves.1 (ok ∙ (and_not_iff _ throws).1 (got.1 p.0, p.1)),
        );
        reports = reports;
        urls = ap (λ u. u.live) urls ∙ download_object-live response throws s h;
      }

  -- For texts of paired surrogates, provided that the bucket and no segment of the key but the last is empty, that none
  -- is one or two dots, and that the next object URL is a new one: the download of a row and that of
  -- the preview ask, with the token, for a path that the router reads as exactly that bucket and key. They save
  -- the file, under the name of the row and that of the preview, exactly when the response is one of success, its body
  -- can be read and the page does not throw, show the fallback text exactly when they do not, and leave the object URLs as they were.
  pub downloads-IsDownload :
      (bucket key : Text) (s : Urls)
      → IsText bucket
      → IsText key
      → is_addressable bucket key ≡ true
      → All (λ x. x.0 < s.next_url) s.live
      → (path : Text) × IsDownload (file_name key) bucket key path s (handle_download bucket key s)
        × IsDownload (base_name key) bucket key path s (trigger_download bucket key s)
  unfolding handle_download trigger_download
  downloads-IsDownload bucket key s hb hk ha h =
      let (path, e, r) = build_object_path-IsRouted bucket key hb hk in
      (
        path,
        download_as-IsDownload (file_name key) bucket key path s e (r.1 ha) h,
        download_as-IsDownload (base_name key) bucket key path s e (r.1 ha) h,
      )
