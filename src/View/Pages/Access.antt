-- ===== src/View/Pages/Access.antt =====
-- web/src/pages/Browser.tsx and Buckets.tsx: permissions, and what is asked of the server.
use pier_s3_gateway.Prelude.{
  ◌↔◌, Bool, true, false, not, ◌&&◌, List, [], ◌∷◌, ◌≡◌, arith, Option, some, Text, text_eq,
  text_eq_iff, is_empty, any,
}
use pier_s3_gateway.Store.Buckets.{BucketInfo, BucketStats, merge_stats}
use pier_s3_gateway.Store.Buckets.Merge.{find_bucket}
use pier_s3_gateway.View.Pages.{
  can_read, can_write, listing_request, Section, breadcrumb, write_only_notice, load_error,
  upload_zone, object_browser, browser_page, stats_request,
}

abbrev same_section : Section → Section → Bool
same_section breadcrumb breadcrumb = true
same_section write_only_notice write_only_notice = true
same_section load_error load_error = true
same_section upload_zone upload_zone = true
same_section object_browser object_browser = true
same_section _ _ = false

abbrev pub shows : Section → List Section → Bool
shows s ss = any (same_section s) ss

-- What the page shows and asks for, by what is known of the bucket.
pub record IsGuarded (name prefix : Text) (buckets : List BucketInfo) (error : Option Text)
    : Type 0 where
  pub listing :
      (shows object_browser (browser_page (some name) buckets error) ≡ true)
      ↔ (listing_request (some name) prefix buckets ≡ some (name, prefix))
  pub errors :
      shows load_error (browser_page (some name) buckets error) ≡ true
      → shows object_browser (browser_page (some name) buckets error) ≡ true
  pub notice :
      (shows write_only_notice (browser_page (some name) buckets error) ≡ true)
      ↔ ((b : BucketInfo) × (find_bucket name buckets ≡ some b) × (b.permissions.read ≡ false))
  pub upload :
      (shows upload_zone (browser_page (some name) buckets error) ≡ true)
      ↔ ((b : BucketInfo) × (find_bucket name buckets ≡ some b) × (b.permissions.write ≡ true))

-- For a bucket with a name, the page shows the listing exactly when it asks the server for it; an error only then;
-- the note on write-only buckets exactly for a bucket that is known to be not readable, and the
-- upload zone exactly for one that is known to be writable.
pub browser_page-IsGuarded :
    (name prefix : Text) (buckets : List BucketInfo) (error : Option Text)
    → is_empty name ≡ false
    → IsGuarded name prefix buckets error
unfolding browser_page listing_request can_read can_write
browser_page-IsGuarded name prefix buckets error h = ground arith

-- Once the stats of a bucket have been merged, the page of buckets does not ask for them again; and
-- it asks for no bucket that it did not ask for before.
pub stats_request-merge_stats :
    (name : Text) (stats : BucketStats) (buckets : List BucketInfo) (n : Text)
    → any (text_eq n) (stats_request (merge_stats name stats buckets))
      ≡ (not (text_eq n name) && any (text_eq n) (stats_request buckets))
unfolding stats_request merge_stats
stats_request-merge_stats name stats [] n = ground arith
stats_request-merge_stats name stats (b ∷ bs) n = ground (
  arith,
  text_eq_iff b.name name,
  text_eq_iff n name,
  text_eq_iff n b.name,
  stats_request-merge_stats name stats bs n,
)
