-- ===== src/Server/Proxy/Gate.antt =====
-- internal/proxy/s3handler.go with internal/acl: which requests reach the storage backend by the port for S3 clients.
use pier_s3_gateway.Prelude.{
  ◌↔◌, inl, inr, Bool, true, false, not, List, ◌≡◌, refl, sym, ◌∙◌, Option, none, some,
  if◌then◌else◌, Text, codes, text_eq, is_empty, AnyOf, Bool-cases,
}
use mathlib.Core.Bool.{false≢true}
use pier_s3_gateway.Server.Acl.{check_access}
use pier_s3_gateway.Server.Acl.Access.{Allows, check_access_iff}
use pier_s3_gateway.Server.Acl.Admin.{Url, is_admin_operation}
use pier_s3_gateway.Server.Acl.Admin.Blocked.{IsBlocked, is_admin_operation_iff}
use pier_s3_gateway.Server.Content.{ToLower}
use pier_s3_gateway.Server.Proxy.{
  authorization, Request, path_bucket, extract_bearer_token, Outcome, list_buckets, forward,
  refusal, to_backend, verified, serve_http,
}

module _ (go : ToLower) (parse : Text → Option Url) (verify : Text → Option (List Text)) where
  -- A request that may pass, with the groups of its user.
  pub record IsPermitted (r : Request) : Type 0 where
    pub groups : List Text
    pub signed : is_empty (extract_bearer_token (authorization r)) ≡ false
    pub token : verify (extract_bearer_token (authorization r)) ≡ some groups
    pub bucket : is_empty (path_bucket r.path) ≡ false
    pub plain : ¬ IsBlocked go parse r.method (parse r.request_uri)
    pub granted : AnyOf (Allows (path_bucket r.path) r.method) groups

  -- What the gate does with the verified groups, by the Boolean tests.
  abbrev gate : Bool → Bool → Bool → Bool → Bool → Request → List Text → Outcome
  gate missing get admin granted ready r groups =
      if missing
      then if get
        then list_buckets groups
        else refusal 400 (codes "bad_request") (codes "bucket name required")
      else if admin
      then refusal 403 (codes "operation_not_permitted") (codes "admin operations are not allowed")
      else if not granted
      then refusal 403 (codes "forbidden") (codes "insufficient permissions")
      else to_backend ready r

  gate-forward :
      (missing get admin granted ready : Bool) (r out : Request) (groups : List Text)
      → gate missing get admin granted ready r groups ≡ forward out
      → (out ≡ r) × (missing ≡ false) × (admin ≡ false) × (granted ≡ true) × (ready ≡ true)
  gate-forward true true admin granted ready r out groups h = cc h
  gate-forward true false admin granted ready r out groups h = cc h
  gate-forward false get true granted ready r out groups h = cc h
  gate-forward false get false false ready r out groups h = cc h
  gate-forward false get false true true r out groups h = (cc h, refl, refl, refl, refl)
  gate-forward false get false true false r out groups h = cc h

  not-IsBlocked :
      (r : Request)
      → is_admin_operation go parse r.method r.request_uri ≡ false
      → ¬ IsBlocked go parse r.method (parse r.request_uri)
  not-IsBlocked r h b =
      false≢true (sym h ∙ (is_admin_operation_iff go parse r.method r.request_uri).1 b)

  plain-false :
      (r : Request)
      → ¬ IsBlocked go parse r.method (parse r.request_uri)
      → is_admin_operation go parse r.method r.request_uri ≡ false
  plain-false r h = elim (Bool-cases (is_admin_operation go parse r.method r.request_uri)) [
    | inl e ↦ absurd (h ((is_admin_operation_iff go parse r.method r.request_uri).0 e))
    | inr e ↦ e
  ]

  verified-forward :
      (ready : Bool) (r out : Request) (o : Option (List Text))
      → is_empty (extract_bearer_token (authorization r)) ≡ false
      → verify (extract_bearer_token (authorization r)) ≡ o
      → verified go parse verify ready r o ≡ forward out
      → (out ≡ r) × (ready ≡ true) × IsPermitted r
  verified-forward ready r out none s e h = cc h
  verified-forward ready r out (some groups) s e h =
      let (same, named, plain, granted, up) =
        gate-forward (is_empty (path_bucket r.path)) (text_eq r.method (codes "GET"))
          (is_admin_operation go parse r.method r.request_uri)
          (check_access groups (path_bucket r.path) r.method) ready r out groups h in
      (
        same,
        up,
        record {
          groups = groups;
          signed = s;
          token = e;
          bucket = named;
          plain = not-IsBlocked r plain;
          granted = (check_access_iff groups (path_bucket r.path) r.method).0 granted;
        },
      )

  forwarded :
      (ready : Bool) (r out : Request)
      → serve_http go parse verify ready r ≡ forward out
      → (out ≡ r) × (ready ≡ true) × IsPermitted r
  unfolding serve_http
  forwarded ready r out h = elim (Bool-cases (is_empty (extract_bearer_token (authorization r)))) [
    | inl e ↦ cc (rw e at h)
    | inr e ↦
        verified-forward ready r out (verify (extract_bearer_token (authorization r))) e refl
          (rw e at h)
  ]

  permitted : (r : Request) → IsPermitted r → serve_http go parse verify true r ≡ forward r
  unfolding serve_http
  permitted r p =
      let granted = (check_access_iff p.groups (path_bucket r.path) r.method).1 p.granted in
      rw (p.signed, p.token, p.bucket, plain-false r p.plain, granted) refl

  -- A request is passed on to the storage backend exactly when there is a backend, its bearer token is verified, its path
  -- names a bucket, it is no operation of administration, and one of the groups of the token allows its method on that
  -- bucket; it is passed on as it is.
  pub serve_http-forward_iff :
      (ready : Bool) (r out : Request)
      → (serve_http go parse verify ready r ≡ forward out)
        ↔ ((out ≡ r) × (ready ≡ true) × IsPermitted r)
  serve_http-forward_iff ready r out =
      (forwarded ready r out, λ (same, up, p). rw (up, same) (permitted r p))
