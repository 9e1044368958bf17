-- ===== src/Server/Proxy.antt =====
-- internal/proxy: the port for S3 clients, s3handler.go and rewrite.go. Parsing of addresses, `strings.ToLower`, and
-- the check of a token with the groups of its claims are parameters.
pub mod Forward
pub mod Gate
pub mod Headers
pub mod Names
use pier_s3_gateway.Prelude.{
  ℕ, Bool, true, false, not, ◌&&◌, ◌||◌, List, [], ◌∷◌, ◌++◌, Option, none, some, map, any, ◌==◌,
  if◌then◌else◌, Text, codes, text_eq, is_empty,
}
use pier_s3_gateway.Preview.Kind.{to_lower}
use pier_s3_gateway.Server.Acl.{
  BucketPermission, check_access, effective_buckets, wildcard_grant, wildcard_grant_from,
}
use pier_s3_gateway.Server.Acl.Admin.{Url, is_admin_operation}
use pier_s3_gateway.Server.Content.{ToLower}
use pier_s3_gateway.Server.Listing.{Listed}
use pier_s3_gateway.Server.Replies.{ErrorReply, Reply, ok, fail, error}
use pier_s3_gateway.Server.Strings.{after_prefix, split_once}
use pier_s3_gateway.Server.Utf8.{trim_space}

-- The headers, by their canonical names.
abbrev pub Header : Type 0
Header = List (Text × List Text)

abbrev first_or_empty : List Text → Text
first_or_empty [] = []
first_or_empty (v ∷ _) = v

-- `Get`
unfoldable pub get : Text → Header → Text
unfolding text_eq
get name [] = []
get name ((k, values) ∷ header) =
    let rest = get name header in if text_eq k name then first_or_empty values else rest

pub record Request : Type 0 where
  pub method : Text
  pub path : Text
  pub request_uri : Text
  pub header : Header

abbrev pub authorization : Request → Text
authorization r = get (codes "Authorization") r.header

-- `path[:i]` at the first slash, or the whole.
unfoldable pub before_slash : Text → Text
before_slash [] = []
before_slash (c ∷ s) = let rest = before_slash s in if c == b'/' then [] else c ∷ rest

abbrev without_slash : Text → Text
without_slash [] = []
without_slash (c ∷ s) = if c == b'/' then s else c ∷ s

unfoldable pub path_bucket : Text → Text
unfolding before_slash
path_bucket path = before_slash (without_slash path)

-- `strings.EqualFold` with a word of which no letter folds to one outside ASCII.
abbrev equal_fold : Text → Text → Bool
equal_fold a b = text_eq (map to_lower a) (map to_lower b)

abbrev bearer : Option (Text × Text) → Text
bearer none = []
bearer (some (scheme, token)) = if equal_fold scheme (codes "Bearer") then trim_space token else []

unfoldable pub extract_bearer_token : Text → Text
unfolding split_once trim_space to_lower text_eq
extract_bearer_token authorization = bearer (split_once (codes " ") authorization)

-- What is done with a request.
pub data Outcome : Type 0 where
  refuse : ErrorReply → Outcome
  list_buckets : List Text → Outcome
  forward : Request → Outcome

abbrev refusal : ℕ → Text → Text → Outcome
refusal status code message = refuse (record { status = status; code = code; message = message })

-- Where the backend is missing there is no forwarder either.
abbrev pub to_backend : Bool → Request → Outcome
to_backend ready r =
    if ready
    then forward r
    else refusal 502 (codes "upstream_error") (codes "S3 backend is not configured")

module _ (go : ToLower) (parse : Text → Option Url) (verify : Text → Option (List Text)) where
  abbrev pub verified : Bool → Request → Option (List Text) → Outcome
  verified ready r none = refusal 401 (codes "invalid_token") (codes "token verification failed")
  verified ready r (some groups) =
      let bucket = path_bucket r.path in
      if is_empty bucket
      then if text_eq r.method (codes "GET")
        then list_buckets groups
        else refusal 400 (codes "bad_request") (codes "bucket name required")
      else if is_admin_operation go parse r.method r.request_uri
      then refusal 403 (codes "operation_not_permitted") (codes "admin operations are not allowed")
      else if not (check_access groups bucket r.method)
      then refusal 403 (codes "forbidden") (codes "insufficient permissions")
      else to_backend ready r

  unfoldable pub serve_http : Bool → Request → Outcome
  unfolding extract_bearer_token get path_bucket is_admin_operation check_access
  serve_http ready r =
      let token = extract_bearer_token (authorization r) in
      if is_empty token
      then refusal 401 (codes "unauthorized") (codes "missing or invalid authorization header")
      else verified ready r (verify token)

abbrev is_found : Option BucketPermission → Bool
is_found none = false
is_found (some _) = true

abbrev pub in_effect : Text → List BucketPermission → Bool
in_effect name ps = any (λ p. text_eq p.name name) ps

abbrev kept_name : Bool → Option Text → List BucketPermission → List Text → List Text
kept_name wild none ps rest = rest
kept_name wild (some name) ps rest = if wild || in_effect name ps then name ∷ rest else rest

unfoldable pub filtered : Bool → List BucketPermission → List (Option Text) → List Text
unfolding text_eq
filtered wild ps [] = []
filtered wild ps (b ∷ bs) = kept_name wild b ps (filtered wild ps bs)

abbrev pub listing_of : List Text → Option Listed → Reply (List Text)
listing_of groups none = error 502 (codes "upstream_error") (codes "S3 backend is not configured")
listing_of groups (some none) =
    error 502 (codes "upstream_error") (codes "failed to list buckets from storage")
listing_of groups (some (some names)) =
    ok (filtered (is_found (wildcard_grant groups)) (effective_buckets groups) names)

-- `handleListBuckets`; none stands for no backend.
unfoldable pub serve_buckets : List Text → Option Listed → Reply (List Text)
unfolding effective_buckets wildcard_grant_from filtered
serve_buckets groups backend = listing_of groups backend

abbrev pub hop_by_hop_headers : List Text
hop_by_hop_headers =
    codes "Connection"
    ∷ codes "Keep-Alive"
    ∷ codes "Proxy-Authenticate"
    ∷ codes "Proxy-Authorization"
    ∷ codes "Te"
    ∷ codes "Trailers"
    ∷ codes "Transfer-Encoding"
    ∷ codes "Upgrade"
    ∷ []

abbrev pub sig_v4_headers : List Text
sig_v4_headers =
    codes "Authorization"
    ∷ codes "X-Amz-Date"
    ∷ codes "X-Amz-Content-Sha256"
    ∷ codes "X-Amz-Security-Token"
    ∷ codes "X-Amz-Credential"
    ∷ codes "X-Amz-Signature"
    ∷ codes "X-Amz-Signedheaders"
    ∷ codes "X-Amz-Algorithm"
    ∷ []

-- `Del`
unfoldable pub del : Text → Header → Header
unfolding text_eq
del name [] = []
del name ((k, values) ∷ header) =
    let rest = del name header in if text_eq k name then rest else (k, values) ∷ rest

unfoldable pub del_all : List Text → Header → Header
unfolding del
del_all [] header = header
del_all (name ∷ names) header = del_all names (del name header)

unfoldable pub rewrite_headers : Header → Header
unfolding del_all
rewrite_headers original = del_all hop_by_hop_headers (del_all sig_v4_headers original)
