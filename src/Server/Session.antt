-- ===== src/Server/Session.antt =====
-- `AuthMiddlewareWithMapper` of internal/webui/auth.go: which requests reach a handler, and for which user. The check of
-- a token with the mapping of its claims, the host that `url.Parse` finds, and `strings.EqualFold` on hosts are
-- parameters.
pub mod Admitted
use pier_s3_gateway.Prelude.{
  Bool, true, false, not, ◌&&◌, ◌||◌, List, [], Option, none, some, map, if◌then◌else◌, Text, codes,
  text_eq, is_empty,
}
use pier_s3_gateway.Preview.Kind.{to_lower}
use pier_s3_gateway.Server.Replies.{ErrorReply}
use pier_s3_gateway.Server.Strings.{split_once}
use pier_s3_gateway.Server.Utf8.{trim_space}

-- A missing header is empty; none stands for a missing cookie.
pub record Request : Type 0 where
  pub method : Text
  pub host : Text
  pub authorization : Text
  pub access_token : Option Text
  pub sec_fetch_site : Text
  pub origin : Text

-- Who the claims of a token say that the user is.
pub record Identity : Type 0 where
  pub username : Text
  pub groups : List Text

pub data Outcome : Type 0 where
  refuse : ErrorReply → Outcome
  serve : Identity → Outcome

-- The token of the header; none where the header has none of this form.
abbrev bearer : Option (Text × Text) → Option Text
bearer none = none
bearer (some (scheme, token)) =
    if text_eq (map to_lower scheme) (map to_lower (codes "Bearer"))
    then some (trim_space token)
    else none

abbrev from_cookie : Option Text → Text × Bool
from_cookie none = ([], false)
from_cookie (some value) = if is_empty value then ([], false) else (value, true)

abbrev or_cookie : Option Text → Option Text → Text × Bool
or_cookie none cookie = from_cookie cookie
or_cookie (some token) cookie = (token, false)

-- The token, and whether it came from the cookie.
unfoldable pub extract_token : Request → Text × Bool
unfolding split_once trim_space to_lower text_eq
extract_token r = or_cookie (bearer (split_once (codes " ") r.authorization)) r.access_token

-- The methods that change nothing.
unfoldable pub is_safe_method : Text → Bool
unfolding text_eq
is_safe_method method =
    text_eq method (codes "GET")
    || (text_eq method (codes "HEAD") || text_eq method (codes "OPTIONS"))

module _ (host_of : Text → Option Text) (equal_fold : Text → Text → Bool)
    (verify : Text → Option Identity) where
  -- None stands for an origin that cannot be parsed.
  abbrev other_host : Text → Option Text → Bool
  other_host host none = true
  other_host host (some h) = if is_empty h then true else not (equal_fold h host)

  unfoldable pub is_cross_site_state_change : Request → Bool
  unfolding is_safe_method text_eq
  is_cross_site_state_change r =
      if is_safe_method r.method
      then false
      else if text_eq r.sec_fetch_site (codes "same-origin")
          || text_eq r.sec_fetch_site (codes "none")
      then false
      else if text_eq r.sec_fetch_site (codes "same-site")
          || text_eq r.sec_fetch_site (codes "cross-site")
      then true
      else if is_empty r.origin
      then false
      else other_host r.host (host_of r.origin)

  abbrev identified : Option Identity → Outcome
  identified none = refuse (record {
    status = 401;
    code = codes "invalid_token";
    message = codes "token verification failed";
  })
  identified (some user) = serve user

  abbrev pub admit : Request → Text × Bool → Outcome
  admit r (token, cookie) =
      if is_empty token
      then refuse (record {
        status = 401;
        code = codes "unauthorized";
        message = codes "missing authentication";
      })
      else if cookie && is_cross_site_state_change r
      then refuse (record {
        status = 403;
        code = codes "csrf_blocked";
        message = codes "cross-site state-changing request rejected";
      })
      else identified (verify token)

  unfoldable pub auth_middleware : Request → Outcome
  unfolding extract_token is_cross_site_state_change
  auth_middleware r = admit r (extract_token r)
