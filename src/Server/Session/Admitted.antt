-- ===== src/Server/Session/Admitted.antt =====
-- internal/webui/auth.go: the requests that reach a handler.
use pier_s3_gateway.Prelude.{
  ◌⊎◌, Bool, true, false, [], ◌≡◌, ◌≢◌, Option, some, Text, codes, is_empty,
}
use pier_s3_gateway.Server.Session.{Request, Identity, extract_token, is_safe_method}

-- The browser says nothing against the origin of a request, by the first of its two headers that says anything.
module _ (host_of : Text → Option Text) (equal_fold : Text → Text → Bool)
    (verify : Text → Option Identity) where
  pub record IsOwnSite (r : Request) : Type 0 where
    pub told : (r.sec_fetch_site ≢ codes "same-site") × (r.sec_fetch_site ≢ codes "cross-site")
    pub origin :
        (r.sec_fetch_site ≡ codes "same-origin")
        ⊎ (r.sec_fetch_site ≡ codes "none")
        ⊎ (r.origin ≡ [])
        ⊎ ((host : Text) × (host_of r.origin ≡ some host)
            × (is_empty host ≡ false)
            × (equal_fold host r.host ≡ true))

  -- The request may pass with this token, from the cookie or not.
  pub record IsAdmitted (r : Request) (user : Identity) : Type 0 where
    pub present : is_empty (extract_token r).0 ≡ false
    pub token : verify (extract_token r).0 ≡ some user
    pub own_site : (extract_token r).1 ≡ true → (is_safe_method r.method ≡ true) ⊎ IsOwnSite r

  abbrev IsTold : Text → Type 0
  IsTold s = (s ≢ codes "same-site") × (s ≢ codes "cross-site")
