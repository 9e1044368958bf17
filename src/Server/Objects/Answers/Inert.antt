-- ===== src/Server/Objects/Answers/Inert.antt =====
-- internal/webui: an object that is served cannot act in the origin of the application.
use pier_s3_gateway.Prelude.{◌⊎◌, Bool, true, [], ◌∷◌, ◌++◌, ◌≡◌, Text, codes, List, any, text_eq}
use pier_s3_gateway.Server.Content.{
  ToLower, Disposition, header_xcto, header_csp, octet_stream, bare_media_type,
}
use pier_s3_gateway.Server.Content.Filename.{IsFilename}
use pier_s3_gateway.Server.Objects.Answers.{GetObjectOutput, ObjectHeaders, quoted, disposition_of}

-- The header names a file, inline or as an attachment.
abbrev pub Names : Text → Text → Text → Type 0
Names header kind name = IsFilename name × (header ≡ kind ++ quoted name)

abbrev pub inline_kind : Text
inline_kind = codes "inline; filename="

abbrev pub attachment_kind : Text
attachment_kind = codes "attachment; filename="

-- The media types of HTML and XML by the MIME standard of the browsers: what they parse as a document with scripts.
abbrev pub IsMarkup : Text → Type 0
IsMarkup media =
    (media ≡ codes "text/html")
    ⊎ (media ≡ codes "text/xml")
    ⊎ (media ≡ codes "application/xml")
    ⊎ ((front : Text) × (media ≡ front ++ codes "+xml"))

-- Types that the preview shows.
abbrev pub shown_types : List Text
shown_types =
    codes "text/plain"
    ∷ codes "text/csv"
    ∷ codes "text/markdown"
    ∷ codes "application/json"
    ∷ codes "application/pdf"
    ∷ codes "image/png"
    ∷ codes "image/jpeg"
    ∷ codes "image/gif"
    ∷ codes "audio/mpeg"
    ∷ codes "video/mp4"
    ∷ []

module _ (go : ToLower) where
  -- How a response lets an object of a content type act.
  pub record IsInert (upstream : Text) (headers : ObjectHeaders) : Type 0 where
    pub harmless : IsMarkup (bare_media_type go headers.content_type) → ⊥
    pub attached :
        IsMarkup (bare_media_type go upstream)
        → (headers.content_type ≡ octet_stream)
          × ((name : Text) × Names headers.content_disposition attachment_kind name)
    pub shown :
        any (text_eq (bare_media_type go upstream)) shown_types ≡ true
        → (headers.content_type ≡ upstream)
          × ((name : Text) × Names headers.content_disposition inline_kind name)
    pub named :
        (name : Text) × (Names headers.content_disposition inline_kind name
          ⊎ Names headers.content_disposition attachment_kind name)

  abbrev headers_of : Text → GetObjectOutput → Disposition → ObjectHeaders
  headers_of key result disp = record {
    content_type_options = header_xcto;
    content_security_policy = header_csp;
    content_type = disp.content_type;
    content_disposition = disposition_of disp.is_inline key;
    content_length = result.content_length;
    etag = result.etag;
    last_modified = result.last_modified;
  }
