-- ===== src/Server/Objects/Answers.antt =====
-- The handlers of objects in internal/webui/api.go from the answer of the storage backend on. None stands for an error
-- of the backend.
pub mod Inert
use pier_s3_gateway.Prelude.{
  ℕ, Bool, true, false, List, [], ◌∷◌, ◌++◌, Option, none, some, map, ◌==◌, if◌then◌else◌, Text,
  codes,
}
use pier_s3_gateway.Server.Content.{
  ToLower, Disposition, header_xcto, header_csp, neutralize_content_type, sanitize_filename,
}
use pier_s3_gateway.Server.Replies.{Reply, ok, fail, error}
use pier_s3_gateway.Server.Strings.{trim_start, trim_end, trim}

-- Outputs of the SDK, with what the handlers read of them. A time is a count.
pub record GetObjectOutput : Type 0 where
  pub content_type : Option Text
  pub content_length : Option ℕ
  pub etag : Option Text
  pub last_modified : Option ℕ

pub record BackendObject : Type 0 where
  pub key : Option Text
  pub size : Option ℕ
  pub last_modified : Option ℕ
  pub etag : Option Text

pub record ListObjectsOutput : Type 0 where
  pub contents : List BackendObject
  pub common_prefixes : List (Option Text)
  pub next_continuation_token : Option Text
  pub is_truncated : Option Bool

abbrev pub deref : Option Text → Text
deref none = []
deref (some s) = s

-- `derefInt64` and `derefTime`, with the zero of each.
abbrev deref_number : Option ℕ → ℕ
deref_number none = 0
deref_number (some n) = n

abbrev deref_bool : Option Bool → Bool
deref_bool none = false
deref_bool (some b) = b

-- The headers of an object's response, but the form in which numbers and times are written.
pub record ObjectHeaders : Type 0 where
  pub content_type_options : Text
  pub content_security_policy : Text
  pub content_type : Text
  pub content_disposition : Text
  pub content_length : Option ℕ
  pub etag : Option Text
  pub last_modified : Option ℕ

abbrev pub quoted : Text → Text
quoted name = 0x22 ∷ name ++ 0x22 ∷ []

abbrev pub disposition_of : Bool → Text → Text
disposition_of is_inline key =
    if is_inline
    then codes "inline; filename=" ++ quoted (sanitize_filename key)
    else codes "attachment; filename=" ++ quoted (sanitize_filename key)

pub record ObjectResponse : Type 0 where
  pub key : Text
  pub size_bytes : ℕ
  pub last_modified : ℕ
  pub etag : Text
  pub is_prefix : Bool

pub record ObjectsPage : Type 0 where
  pub objects : List ObjectResponse
  pub prefixes : List Text
  pub next_page_token : Text
  pub truncated : Bool

abbrev pub object_response : BackendObject → ObjectResponse
object_response o = record {
  key = deref o.key;
  size_bytes = deref_number o.size;
  last_modified = deref_number o.last_modified;
  etag = trim 0x22 (deref o.etag);
  is_prefix = false;
}

unfoldable pub present : List (Option Text) → List Text
present [] = []
present (none ∷ ps) = present ps
present (some p ∷ ps) = p ∷ present ps

unfoldable pub list_objects_answered : Option ListObjectsOutput → Reply ObjectsPage
unfolding trim_start trim_end present
list_objects_answered none = error 502 (codes "upstream_error") (codes "failed to list objects")
list_objects_answered (some result) = ok (record {
  objects = map object_response result.contents;
  prefixes = present result.common_prefixes;
  next_page_token = deref result.next_continuation_token;
  truncated = deref_bool result.is_truncated;
})

pub record ObjectMeta : Type 0 where
  pub key : Text
  pub content_type : Text
  pub content_length : ℕ
  pub etag : Text
  pub last_modified : ℕ

unfoldable pub head_object_answered : Text → Option GetObjectOutput → Reply ObjectMeta
unfolding trim_start trim_end
head_object_answered key none =
    error 502 (codes "upstream_error") (codes "failed to get object metadata")
head_object_answered key (some result) = ok (record {
  key = key;
  content_type = deref result.content_type;
  content_length = deref_number result.content_length;
  etag = trim 0x22 (deref result.etag);
  last_modified = deref_number result.last_modified;
})

-- The status text and the key.
unfoldable pub put_object_answered : Text → Bool → Reply (Text × Text)
put_object_answered key true = ok (codes "uploaded", key)
put_object_answered key false = error 502 (codes "upstream_error") (codes "failed to upload object")

unfoldable pub delete_object_answered : Text → Bool → Reply (Text × Text)
delete_object_answered key true = ok (codes "deleted", key)
delete_object_answered key false =
    error 502 (codes "upstream_error") (codes "failed to delete object")

module _ (go : ToLower) where
  unfoldable pub get_object_answered : Text → Option GetObjectOutput → Reply ObjectHeaders
  unfolding neutralize_content_type sanitize_filename
  get_object_answered key none = error 502 (codes "upstream_error") (codes "failed to get object")
  get_object_answered key (some result) =
      let disp = neutralize_content_type go (deref result.content_type) in
      ok (record {
        content_type_options = header_xcto;
        content_security_policy = header_csp;
        content_type = disp.content_type;
        content_disposition = disposition_of disp.is_inline key;
        content_length = result.content_length;
        etag = result.etag;
        last_modified = result.last_modified;
      })
