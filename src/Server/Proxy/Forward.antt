-- ===== src/Server/Proxy/Forward.antt =====
-- `Forward` of internal/proxy/passthrough.go: what is sent to the storage backend. The endpoint as `url.Parse` takes it
-- apart, the credentials and the signer are the configuration's and the libraries'; copying the address and sending are the library's.
use pier_s3_gateway.Prelude.{
  Bool, true, false, not, ◌||◌, List, ◌≡◌, Option, none, some, if◌then◌else◌, Text, codes, is_empty,
}
use pier_s3_gateway.Server.Acl.Admin.{Url}
use pier_s3_gateway.Server.Content.{ToLower}
use pier_s3_gateway.Server.Proxy.{
  Request, Header, Outcome, refuse, list_buckets, forward, rewrite_headers,
}
use pier_s3_gateway.Server.Proxy.Gate.{IsPermitted}
use pier_s3_gateway.Server.Replies.{ErrorReply}

-- The scheme and the host; none for an error.
pub record Target : Type 0 where
  pub scheme : Text
  pub host : Text

-- A request to the backend.
pub record Outgoing : Type 0 where
  pub target : Target
  pub method : Text
  pub request_uri : Text
  pub header : Header

-- What becomes of a request on the port.
pub data Response : Type 0 where
  refused : ErrorReply → Response
  listed : List Text → Response
  sent : Outgoing → Response

abbrev failed : Text → Response
failed message = refused (record { status = 502; code = codes "upstream_error"; message = message })

-- The signer writes headers of its own; where it fails, the headers stay as they are.
abbrev signed : Option Header → Outgoing → Outgoing
signed none out = out
signed (some header) out = record out { header = header }

-- The headers of a request to the backend: those of the signer, or the rewritten ones where it fails.
abbrev pub HasHeader : Option Header → Header → Header → Type 0
HasHeader none plain header = header ≡ plain
HasHeader (some written) plain header = header ≡ written

abbrev outgoing_with : Target → Text → Text → Header → Outgoing
outgoing_with target method request_uri header = record {
  target = target;
  method = method;
  request_uri = request_uri;
  header = header;
}

-- The library's `ReverseProxy` hands over a copy of the address, without the parameters of its query that do not parse.
module _ (endpoint : Option Target) (credentials : Bool) (sign : Outgoing → Option Header)
    (copied : Text → Text) where
  -- The rewritten request, before and behind the signature.
  abbrev pub rewritten : Target → Request → Outgoing
  rewritten target r = record {
    target = target;
    method = r.method;
    request_uri = copied r.request_uri;
    header = rewrite_headers r.header;
  }

  abbrev pub outgoing : Target → Request → Outgoing
  outgoing target r = signed (sign (rewritten target r)) (rewritten target r)

  abbrev forward_to : Option Target → Request → Response
  forward_to none r = failed (codes "S3 backend endpoint is misconfigured")
  forward_to (some target) r =
      if is_empty target.scheme || is_empty target.host
      then failed (codes "S3 backend endpoint is misconfigured")
      else if not credentials
      then failed (codes "failed to obtain backend credentials")
      else sent (outgoing target r)

  unfoldable pub pass_through : Request → Response
  unfolding rewrite_headers
  pass_through r = forward_to endpoint r

  -- What is done with what the handler decides.
  unfoldable pub relay : Outcome → Response
  unfolding pass_through
  relay (refuse f) = refused f
  relay (list_buckets groups) = listed groups
  relay (forward r) = pass_through r

  -- The backend is configured: an endpoint with a scheme and a host, and credentials.
  pub record IsConfigured (target : Target) : Type 0 where
    pub parsed : endpoint ≡ some target
    pub scheme : is_empty target.scheme ≡ false
    pub host : is_empty target.host ≡ false
    pub available : credentials ≡ true

  module _ (go : ToLower) (parse : Text → Option Url) (verify : Text → Option (List Text))
      (ready : Bool) where
    -- The user, the request and the backend let it pass, and this is what is sent.
    pub record IsSent (r : Request) (out : Outgoing) : Type 0 where
      pub permitted : IsPermitted go parse verify r
      pub backed : ready ≡ true
      pub target : Target
      pub configured : IsConfigured target
      pub same_target : out.target ≡ target
      pub same_method : out.method ≡ r.method
      pub same_address : out.request_uri ≡ copied r.request_uri
      pub headers :
          HasHeader
            (sign (outgoing_with target r.method (copied r.request_uri) (rewrite_headers r.header)))
            (rewrite_headers r.header)
            out.header
