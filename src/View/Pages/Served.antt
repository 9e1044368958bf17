-- ===== src/View/Pages/Served.antt =====
-- The pages of web/src with the server of internal: what the page of a bucket offers is what the server grants.
use pier_s3_gateway.Prelude.{true, false, List, ◌≡◌, Option, none, some, map, Text, codes}
use pier_s3_gateway.Store.Buckets.{BucketInfo}
use pier_s3_gateway.Server.Acl.{BucketPermission, check_access}
use pier_s3_gateway.Server.Acl.Buckets.{is_listed}
use pier_s3_gateway.Server.Listing.{Listed}
use pier_s3_gateway.Server.Listing.Agreement.{mentions}
use pier_s3_gateway.View.Pages.{browser_page, upload_zone, object_browser}
use pier_s3_gateway.View.Pages.Access.{shows}

-- A bucket of the server's answer, as the client reads it: counts of 0 are left out of the JSON.
abbrev pub bucket_info : BucketPermission → BucketInfo
bucket_info p = record {
  name = p.name;
  permissions = record { read = p.read; write = p.write; delete = some p.delete };
  object_count = none;
  size_bytes = none;
  stats_truncated = none;
  quota_bytes = none;
}

-- What the page of a bucket offers, by the groups of the user.
pub record IsServed (groups : List Text) (backend : Option Listed) (ps : List BucketPermission)
    (name : Text) (error : Option Text) : Type 0 where
  pub uploads :
      shows upload_zone (browser_page (some name) (map bucket_info ps) error) ≡ true
      → check_access groups name (codes "PUT") ≡ true
  pub lists :
      is_listed name ps ≡ true
      → shows object_browser (browser_page (some name) (map bucket_info ps) error) ≡ true
      → check_access groups name (codes "GET") ≡ true
  -- For what the backend lists, the upload zone is shown whenever the server grants uploads, and the objects of what
  -- is in the list too whenever it grants to read them.
  pub accepts :
      mentions name backend ≡ true
      → shows upload_zone (browser_page (some name) (map bucket_info ps) error)
        ≡ check_access groups name (codes "PUT")
  pub offers :
      mentions name backend ≡ true
      → is_listed name ps ≡ true
      → shows object_browser (browser_page (some name) (map bucket_info ps) error)
        ≡ check_access groups name (codes "GET")
  pub tries :
      is_listed name ps ≡ false
      → shows object_browser (browser_page (some name) (map bucket_info ps) error) ≡ true
