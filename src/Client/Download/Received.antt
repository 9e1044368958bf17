-- ===== src/Client/Download/Received.antt =====
-- `fetchObjectBlob` of web/src/api/client.ts: when it resolves.
use pier_s3_gateway.Prelude.{
  ℕ, ◌≤◌, ◌&&◌, ◌↔◌, true, ◌≡◌, refl, arith, Option, none, some, leb, if◌then◌else◌,
}
use pier_s3_gateway.Client.Download.{Response, blob_of, has_blob}

-- The response of a server that has sent the whole object.
pub record IsReceived (o : Option Response) : Type 0 where
  pub response : Response
  pub sent : o ≡ some response
  pub from : 200 ≤ response.status
  pub to : response.status ≤ 299
  pub blob : ℕ
  pub readable : response.body ≡ some blob

pub has_blob-IsReceived : (o : Option Response) → (has_blob (blob_of o) ≡ true) ↔ IsReceived o
unfolding blob_of
has_blob-IsReceived none = (λ h. cc h, λ r. cc (r.sent))
has_blob-IsReceived (some response) = (there response.body refl, back)
  where
    there :
        (body : Option ℕ)
        → response.body ≡ body
        → has_blob
            (if leb 200 response.status && leb response.status 299 then response.body else none)
          ≡ true
        → IsReceived (some response)
    there none e h = absurd (ground (arith, e))
    there (some blob) e h = record {
      response = response;
      sent = refl;
      from = ground (arith, e);
      to = ground (arith, e);
      blob = blob;
      readable = e;
    }

    same : (q : Response) → some response ≡ some q → response ≡ q
    same q e = cc e

    back :
        IsReceived (some response)
        → has_blob
            (if leb 200 response.status && leb response.status 299 then response.body else none)
          ≡ true
    back r = let e = same r.response r.sent in rw e (ground (arith, r.from, r.to, r.readable))
