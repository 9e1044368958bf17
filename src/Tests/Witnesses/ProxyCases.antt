-- ===== src/Tests/Witnesses/ProxyCases.antt =====
-- internal/proxy and the guard of its port: the theorems at concrete requests.
use pier_s3_gateway.Prelude.{
  text_eq, if◌then◌else◌, true, List, [], ◌∷◌, ◌≡◌, refl, Option, none, some, map, Text, codes,
}
use pier_s3_gateway.Preview.Kind.{to_lower}
use pier_s3_gateway.Server.Content.{ToLower}
use pier_s3_gateway.Server.Acl.Admin.{Url, is_admin_operation}
use pier_s3_gateway.Server.Session
use pier_s3_gateway.Server.Session.{Identity, serve, auth_middleware}
use pier_s3_gateway.Server.Proxy
use pier_s3_gateway.Server.Proxy.{
  serve_http, Header, rewrite_headers, sig_v4_headers, hop_by_hop_headers, serve_buckets,
}
use pier_s3_gateway.Server.Proxy.Forward.{Target, Outgoing, sent, relay, pass_through}
use pier_s3_gateway.Server.Proxy.Headers.{values_of, is_one_of, withheld, values_of-rewrite_headers}
use pier_s3_gateway.Server.Proxy.Names.{is_open, only, serve_buckets-only}
use pier_s3_gateway.Server.Replies.{ok}

abbrev go : ToLower
go = record { lower = map to_lower; lower_ascii = λ s h. refl }

-- A reader of one bucket who may write into every one.
abbrev groups : List Text
groups = codes "data-ro" ∷ codes "*-wo" ∷ []

-- An address that has a path only, and one token that is known.
abbrev parse : Text → Option Url
parse address = some (record { path = address; parameters = [] })

abbrev verify : Text → Option (List Text)
verify t = if text_eq t (codes "t0") then some groups else none

abbrev s3_upload : Proxy.Request
s3_upload = record {
  method = codes "PUT";
  path = codes "/data/x";
  request_uri = codes "/data/x";
  header = (codes "Authorization", codes "bearer t0" ∷ []) ∷ [];
}

admin_blocked : is_admin_operation go parse (codes "PUT") (codes "/data/") ≡ true
unfolding is_admin_operation
admin_blocked = refl

abbrev endpoint : Target
endpoint = record { scheme = codes "https"; host = codes "s3" }

abbrev unsigned : Outgoing → Option Header
unsigned out = none

abbrev copied : Text → Text
copied address = address

abbrev on_the_wire : Outgoing
on_the_wire = record {
  target = endpoint;
  method = codes "PUT";
  request_uri = codes "/data/x";
  header = [];
}

s3_sent :
    relay (some endpoint) true unsigned copied (serve_http go parse verify true s3_upload)
    ≡ sent on_the_wire
unfolding serve_http relay pass_through
s3_sent = refl

abbrev header : Header
header =
    (codes "Authorization", codes "Bearer t0" ∷ [])
    ∷ (codes "Content-Type", codes "text/plain" ∷ [])
    ∷ []

values_of-rewrite_headers_example : values_of (codes "Authorization") (rewrite_headers header) ≡ (
    if is_one_of (codes "Authorization") withheld
    then none
    else values_of (codes "Authorization") header)
values_of-rewrite_headers_example = values_of-rewrite_headers (codes "Authorization") header

serve_buckets-only_example :
    serve_buckets groups (some (some (some (codes "data") ∷ none ∷ [])))
    ≡ ok (only (is_open groups) (some (codes "data") ∷ none ∷ []))
serve_buckets-only_example = serve_buckets-only groups (some (codes "data") ∷ none ∷ [])

-- A post with the cookie, from a page of the gateway.
abbrev posted : Session.Request
posted = record {
  method = codes "POST";
  host = codes "gate";
  authorization = [];
  access_token = some (codes "t0");
  sec_fetch_site = [];
  origin = codes "https://gate";
}

abbrev alice : Identity
alice = record { username = codes "alice"; groups = groups }

abbrev same_host : Text → Option Text
same_host origin = some (codes "gate")

abbrev known_user : Text → Option Identity
known_user t = if text_eq t (codes "t0") then some alice else none

posted_served : auth_middleware same_host text_eq known_user posted ≡ serve alice
unfolding auth_middleware text_eq
posted_served = refl
