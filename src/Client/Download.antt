-- ===== src/Client/Download.antt =====
-- `fetchObjectBlob` and `downloadObject` of web/src/api/client.ts. The response is the network's, and
-- whether the page throws while the link is put in place and clicked is the browser's.
pub mod Received
use pier_s3_gateway.Prelude.{
  ℕ, ◌+◌, ◌<◌, Bool, true, false, not, ◌&&◌, List, [], ◌∷◌, ◌++◌, ◌≡◌, refl, arith, Option, none,
  some, leb, ◌==◌, if◌then◌else◌, Text, codes, All,
}
use pier_s3_gateway.Client.{truthy, text_of}
use pier_s3_gateway.Client.Paths.{build_object_path, ◌>>=◌}

-- The path and the `Authorization` header of the request; none where the path cannot be encoded.
unfoldable pub fetch_request : Option Text → Text → Text → Option (Text × Option Text)
unfolding build_object_path
fetch_request token bucket key = do
  path ← build_object_path bucket key
  some (path, if truthy token then some (codes "Bearer " ++ text_of token) else none)

pub record Response : Type 0 where
  pub status : ℕ
  -- What `blob()` resolves to; none where it rejects.
  pub body : Option ℕ

-- `response.ok` and `response.blob()`, and no response when the request fails.
unfoldable pub blob_of : Option Response → Option ℕ
blob_of none = none
blob_of (some r) = if leb 200 r.status && leb r.status 299 then r.body else none

-- The object URLs that exist, with their blobs, and the next one.
pub record Urls : Type 0 where
  pub live : List (ℕ × ℕ)
  pub next_url : ℕ

unfoldable pub revoke_url : ℕ → List (ℕ × ℕ) → List (ℕ × ℕ)
revoke_url u [] = []
revoke_url u (x ∷ xs) = let rest = revoke_url u xs in if x.0 == u then rest else x ∷ rest

abbrev create_url : ℕ → Urls → Urls
create_url blob s = record { live = (s.next_url, blob) ∷ s.live; next_url = s.next_url + 1 }

abbrev save_blob : Option ℕ → Bool → Urls → Bool × Urls
save_blob none throws s = (false, s)
save_blob (some blob) throws s = (
  not throws,
  record (create_url blob s) { live = revoke_url s.next_url (create_url blob s).live },
)

-- Whether it succeeds, and the object URLs behind it; `finally` revokes in either case.
unfoldable pub download_object : Option Response → Bool → Urls → Bool × Urls
unfolding blob_of revoke_url
download_object response throws s = save_blob (blob_of response) throws s

revoke_url_fresh : (u : ℕ) (xs : List (ℕ × ℕ)) → All (λ x. x.0 < u) xs → revoke_url u xs ≡ xs
unfolding revoke_url
revoke_url_fresh u [] h = refl
revoke_url_fresh u (x ∷ xs) (h, hs) = rw (revoke_url_fresh u xs hs) (ground arith)

save_blob-live :
    (o : Option ℕ) (throws : Bool) (s : Urls)
    → All (λ x. x.0 < s.next_url) s.live
    → (save_blob o throws s).1.live ≡ s.live
unfolding revoke_url
save_blob-live none throws s h = refl
save_blob-live (some blob) throws s h = ground (arith, revoke_url_fresh s.next_url s.live h)

-- A download leaves the object URLs as they were, whether the request fails, the server refuses, the body cannot be read, the page throws or
-- all goes well, provided that the next URL is a new one.
pub download_object-live :
    (response : Option Response) (throws : Bool) (s : Urls)
    → All (λ x. x.0 < s.next_url) s.live
    → (download_object response throws s).1.live ≡ s.live
unfolding download_object
download_object-live response throws s h = save_blob-live (blob_of response) throws s h

abbrev pub has_blob : Option ℕ → Bool
has_blob none = false
has_blob (some _) = true

save_blob-succeeds :
    (o : Option ℕ) (throws : Bool) (s : Urls)
    → (save_blob o throws s).0 ≡ (has_blob o && not throws)
save_blob-succeeds none throws s = refl
save_blob-succeeds (some blob) throws s = refl

-- A download succeeds exactly when the response holds a blob and the page does not throw.
pub download_object-succeeds :
    (response : Option Response) (throws : Bool) (s : Urls)
    → (download_object response throws s).0 ≡ (has_blob (blob_of response) && not throws)
unfolding download_object
download_object-succeeds response throws s = save_blob-succeeds (blob_of response) throws s
