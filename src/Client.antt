-- ===== src/Client.antt =====
-- web/src/api/client.ts: the interceptors, the error text and the two authenticated downloads.
-- Headers, the location and the network are axios's and the browser's; what they hold or answer
-- are arguments here.
pub mod Download
pub mod Paths
pub mod Uri
use pier_s3_gateway.Prelude.{
  ℕ, Bool, true, false, not, ◌&&◌, [], ◌++◌, Option, none, some, ◌==◌, if◌then◌else◌, Text, codes,
  text_eq, is_empty,
}

-- A string or null in a condition: null and '' are falsy.
abbrev pub truthy : Option Text → Bool
truthy none = false
truthy (some t) = not (is_empty t)

abbrev pub text_of : Option Text → Text
text_of none = []
text_of (some t) = t

-- The `Authorization` header of a request, after the request interceptor.
unfoldable pub authorize : Option Text → Option Text → Option Text
authorize token header =
    if truthy token && not (truthy header) then some (codes "Bearer " ++ text_of token) else header

-- What a failed request rejects with: axios's error, with the response if one came, or another.
pub record ErrorResponse : Type 0 where
  pub status : ℕ
  pub message : Option Text

pub data Failure : Type 0 where
  axios : Option ErrorResponse → Failure
  other : Failure

-- Where the response interceptor sends the browser, if anywhere.
unfoldable pub redirect : Text → Failure → Option Text
unfolding text_eq
redirect path (axios (some response)) =
    if (response.status == 401)
      && (not (text_eq path (codes "/login")) && not (text_eq path (codes "/callback")))
    then some (codes "/login")
    else none
redirect path (axios none) = none
redirect path other = none

unfoldable pub error_message : Failure → Text → Text
error_message (axios (some response)) fallback =
    if truthy response.message then text_of response.message else fallback
error_message (axios none) fallback = fallback
error_message other fallback = fallback

-- A request's outcome.
pub data Answer {ℓ} (A : Type ℓ) : Type ℓ where
  success : A → Answer A
  failure : Failure → Answer A
