-- ===== src/Server/Objects.antt =====
-- The handlers of objects in internal/webui/api.go, each up to its call of the storage backend. What the router
-- read from the path, and whether there is a backend, are arguments.
pub mod Guarded
pub mod Answers
use pier_s3_gateway.Prelude.{
  ℕ, Bool, true, false, not, ◌&&◌, ◌||◌, List, [], ◌∷◌, Option, none, some, leb, ltb, ◌==◌,
  if◌then◌else◌, Text, codes, text_eq, is_empty, split,
}
use pier_s3_gateway.Server.Acl.{check_access}
use pier_s3_gateway.Server.Replies.{ErrorReply}
use pier_s3_gateway.Server.Strings.{trim_start, trim_end, trim, after_prefix, split_once, parse_int}

-- `r.PathValue`, the path, `r.URL.Query().Get` and the headers.
pub record Request : Type 0 where
  pub bucket_value : Text
  pub key_value : Text
  pub path : Text
  pub query : Text → Text
  pub header : Text → Text

pub record PutObjectInput : Type 0 where
  pub bucket : Text
  pub key : Text
  pub content_type : Text
  pub content_length : Option (Bool × ℕ)

-- What is asked of the storage backend.
pub data Call : Type 0 where
  list_objects : (bucket prefix delimiter continuation_token : Text) → (max_keys : ℕ) → Call
  get_object head_object delete_object : (bucket key : Text) → Call
  put_object : PutObjectInput → Call

pub data Outcome : Type 0 where
  refuse : ErrorReply → Outcome
  ask : Call → Outcome

unfoldable pub parameter_after : Text → List Text → Text
unfolding text_eq
parameter_after segment [] = []
parameter_after segment (p ∷ []) = []
parameter_after segment (p ∷ (q ∷ rest)) =
    let later = parameter_after segment (q ∷ rest) in if text_eq p segment then q else later

abbrev pub extract_path_param : Text → Text → Text
extract_path_param path segment = parameter_after segment (split b'/' (trim b'/' path))

abbrev parts_of : Option (Text × Text) → Text × Text
parts_of none = ([], [])
parts_of (some (bucket, key)) = (bucket, key)

abbrev split_rest : Text → Option Text → Text × Text
split_rest sep none = ([], [])
split_rest sep (some rest) = parts_of (split_once sep rest)

abbrev pub extract_bucket_and_key : Text → Text × Text
extract_bucket_and_key path =
    split_rest (codes "/objects/") (after_prefix (codes "/api/v1/buckets/") path)

abbrev pub extract_bucket_and_key_meta : Text → Text × Text
extract_bucket_and_key_meta path =
    split_rest (codes "/meta/") (after_prefix (codes "/api/v1/buckets/") path)

abbrev pub bucket_from_request : Request → Text
bucket_from_request r =
    if not (is_empty r.bucket_value)
    then r.bucket_value
    else extract_path_param r.path (codes "buckets")

abbrev pub bucket_and_key_from_request : Request → Text × Text
bucket_and_key_from_request r =
    if not (is_empty r.bucket_value) && not (is_empty r.key_value)
    then (r.bucket_value, r.key_value)
    else extract_bucket_and_key r.path

abbrev pub bucket_and_key_meta_from_request : Request → Text × Text
bucket_and_key_meta_from_request r =
    if not (is_empty r.bucket_value) && not (is_empty r.key_value)
    then (r.bucket_value, r.key_value)
    else extract_bucket_and_key_meta r.path

abbrev pub bad_request : Text → ErrorReply
bad_request message = record { status = 400; code = codes "bad_request"; message = message }

abbrev pub forbidden : Text → Text → ErrorReply
forbidden code message = record { status = 403; code = code; message = message }

-- `backendReady`
abbrev pub backend_ready : Bool → Call → Outcome
backend_ready ready call =
    if ready
    then ask call
    else refuse (record {
      status = 503;
      code = codes "backend_unavailable";
      message = codes "storage backend is not configured";
    })

abbrev page_size : Option (Bool × ℕ) → ℕ
page_size none = 1000
page_size (some (negative, n)) = if not negative && (ltb 0 n && leb n 1000) then n else 1000

abbrev pub max_keys_of : Text → ℕ
max_keys_of s = if is_empty s then 1000 else page_size (parse_int 32 s)

abbrev or_default : Text → Text → Text
or_default s default = if is_empty s then default else s

unfoldable pub handle_list_objects : List Text → Bool → Request → Outcome
unfolding check_access parameter_after trim_start trim_end split parse_int
handle_list_objects groups ready r =
    let bucket = bucket_from_request r in
    if is_empty bucket
    then refuse (bad_request (codes "bucket name required"))
    else if not (check_access groups bucket (codes "GET"))
    then refuse (forbidden (codes "forbidden") (codes "no read access to bucket"))
    else backend_ready ready (
        list_objects bucket (r.query (codes "prefix"))
          (or_default (r.query (codes "delimiter")) (codes "/")) (r.query (codes "page_token"))
          (max_keys_of (r.query (codes "max_keys"))))

unfoldable pub handle_get_object : List Text → Bool → Request → Outcome
unfolding check_access after_prefix split_once
handle_get_object groups ready r =
    let (bucket, key) = bucket_and_key_from_request r in
    if is_empty bucket || is_empty key
    then refuse (bad_request (codes "bucket and key required"))
    else if not (check_access groups bucket (codes "GET"))
    then refuse (forbidden (codes "forbidden") (codes "no read access"))
    else backend_ready ready (get_object bucket key)

unfoldable pub handle_get_object_meta : List Text → Bool → Request → Outcome
unfolding check_access after_prefix split_once
handle_get_object_meta groups ready r =
    let (bucket, key) = bucket_and_key_meta_from_request r in
    if is_empty bucket || is_empty key
    then refuse (bad_request (codes "bucket and key required"))
    else if not (check_access groups bucket (codes "GET"))
    then refuse (forbidden (codes "forbidden") (codes "no read access"))
    else backend_ready ready (head_object bucket key)

unfoldable pub handle_put_object : List Text → Bool → Request → Outcome
unfolding check_access after_prefix split_once parse_int
handle_put_object groups ready r =
    let (bucket, key) = bucket_and_key_from_request r in
    if is_empty bucket || is_empty key
    then refuse (bad_request (codes "bucket and key required"))
    else if not (check_access groups bucket (codes "PUT"))
    then refuse (forbidden (codes "write_not_allowed") (codes "no write access to bucket"))
    else backend_ready ready (
        put_object (record {
          bucket = bucket;
          key = key;
          content_type =
              or_default (r.header (codes "Content-Type")) (codes "application/octet-stream");
          content_length = parse_int 64 (r.header (codes "Content-Length"));
        }))

unfoldable pub handle_delete_object : List Text → Bool → Request → Outcome
unfolding check_access after_prefix split_once
handle_delete_object groups ready r =
    let (bucket, key) = bucket_and_key_from_request r in
    if is_empty bucket || is_empty key
    then refuse (bad_request (codes "bucket and key required"))
    else if not (check_access groups bucket (codes "DELETE"))
    then refuse (forbidden (codes "write_not_allowed") (codes "no delete access to bucket"))
    else backend_ready ready (delete_object bucket key)

-- The routes of objects.
pub data Endpoint : Type 0 where
  list_of_objects object_read object_meta object_put object_deletion : Endpoint

abbrev pub handle : Endpoint → List Text → Bool → Request → Outcome
handle list_of_objects = handle_list_objects
handle object_read = handle_get_object
handle object_meta = handle_get_object_meta
handle object_put = handle_put_object
handle object_deletion = handle_delete_object

-- The method of the route, which `RegisterRoutes` gives.
abbrev pub method_of : Endpoint → Text
method_of list_of_objects = codes "GET"
method_of object_read = codes "GET"
method_of object_meta = codes "GET"
method_of object_put = codes "PUT"
method_of object_deletion = codes "DELETE"
