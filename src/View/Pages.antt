-- ===== src/View/Pages.antt =====
-- web/src/pages/Browser.tsx and Buckets.tsx: what the pages ask of the stores, and what they show.
pub mod Access
pub mod Overview
pub mod Served
pub mod Visit
use pier_s3_gateway.Prelude.{
  ℕ, Bool, true, false, not, ◌&&◌, List, [], ◌∷◌, ◌++◌, Option, none, some, if◌then◌else◌, Text,
  is_empty,
}
use pier_s3_gateway.Client.{truthy, text_of}
use pier_s3_gateway.Store.Buckets.{BucketInfo, Permissions}
use pier_s3_gateway.Store.Buckets.Merge.{find_bucket}

abbrev write_of : Option BucketInfo → Bool
write_of none = false
write_of (some b) = b.permissions.write

-- Read is assumed until the bucket is known.
abbrev read_of : Option BucketInfo → Bool
read_of none = true
read_of (some b) = b.permissions.read

unfoldable pub can_write : Text → List BucketInfo → Bool
unfolding find_bucket
can_write bucket buckets = write_of (find_bucket bucket buckets)

unfoldable pub can_read : Text → List BucketInfo → Bool
unfolding find_bucket
can_read bucket buckets = read_of (find_bucket bucket buckets)

-- The effect that asks for the list of buckets.
abbrev pub asks_buckets : List BucketInfo → Bool
asks_buckets [] = true
asks_buckets (_ ∷ _) = false

-- The effect that asks for the listing of the bucket and the prefix of the URL.
unfoldable pub listing_request : Option Text → Text → List BucketInfo → Option (Text × Text)
unfolding can_read
listing_request bucket prefix buckets =
    if truthy bucket && can_read (text_of bucket) buckets
    then some (text_of bucket, prefix)
    else none

-- `handleNavigatePrefix`: the prefix that the URL has next, if any.
abbrev pub navigate_prefix : Text → Option Text
navigate_prefix p = if is_empty p then none else some p

-- `handleRefresh`, which asks whatever the permissions.
abbrev pub refresh_request : Option Text → Text → Option (Text × Text)
refresh_request bucket prefix = if truthy bucket then some (text_of bucket, prefix) else none

pub data Section : Type 0 where
  breadcrumb write_only_notice load_error upload_zone object_browser : Section

abbrev only_if : Bool → Section → List Section
only_if b s = if b then s ∷ [] else []

unfoldable pub browser_page : Option Text → List BucketInfo → Option Text → List Section
unfolding can_read can_write
browser_page bucket buckets error =
    let name = text_of bucket in
    if truthy bucket
    then breadcrumb
      ∷ (only_if (not (can_read name buckets)) write_only_notice
          ++ (only_if (can_read name buckets && truthy error) load_error
              ++ (only_if (can_write name buckets) upload_zone
                  ++ only_if (can_read name buckets) object_browser)))
    else []

abbrev is_known : Option ℕ → Bool
is_known none = false
is_known (some _) = true

abbrev needs_stats : BucketInfo → Bool
needs_stats b = b.permissions.read && not (is_known b.size_bytes)

-- The effect of the page of buckets: the names for `fetchBucketStats`, which is not called with none.
unfoldable pub stats_request : List BucketInfo → List Text
stats_request [] = []
stats_request (b ∷ bs) =
    let rest = stats_request bs in if needs_stats b then b.name ∷ rest else rest
