-- ===== src/Tests/Witnesses/ServerCases.antt =====
-- internal/acl and internal/webui: the theorems at concrete users.
use pier_s3_gateway.Prelude.{
  length, take, ltb, ◌+◌, ◌-◌, ◌*◌, ◌≤◌, arith, ◌++◌, ◌↔◌, true, false, List, [], ◌∷◌, ◌≡◌, refl,
  Option, none, some, map, Text, codes,
}
use pier_s3_gateway.Server.Acl.{BucketPermission, parse_group, check_access}
use pier_s3_gateway.Server.Acl.Groups.{IsGroup, parse_group_iff}
use pier_s3_gateway.Server.Listing.{Listed, handle_list_buckets}
use pier_s3_gateway.Server.Listing.Agreement.{IsHonest, handle_list_buckets-IsHonest}
use pier_s3_gateway.Preview.Kind.{to_lower}
use pier_s3_gateway.Server.Content.{ToLower, sanitize_filename}
use pier_s3_gateway.Server.Objects.{Request, object_put}
use pier_s3_gateway.Server.Objects.Guarded.{IsGuarded, handle-IsGuarded}
use pier_s3_gateway.Server.Objects.Answers.{GetObjectOutput, ObjectHeaders, quoted}
use pier_s3_gateway.Server.RateLimit.{new_rate_limiter, token}
use pier_s3_gateway.Server.RateLimit.Ideal.{Event, answers}
use pier_s3_gateway.Server.RateLimit.Window.{run, count, run-IsLimited}
use pier_s3_gateway.Server.Stats.{Page, stats_max_pages, quota_for, compute_bucket_stats}
use pier_s3_gateway.Server.Stats.Walk.{contents_of, total, compute_bucket_stats-IsListing}
use pier_s3_gateway.Server.Replies.{ok}
use pier_s3_gateway.View.Pages.{can_write}
use pier_s3_gateway.View.Pages.Served.{bucket_info}

parse_group_iff_example :
    (parse_group (codes "//my-data-rw") ≡ some (codes "my-data", codes "rw"))
    ↔ IsGroup (codes "//my-data-rw") (codes "my-data") (codes "rw")
parse_group_iff_example = parse_group_iff (codes "//my-data-rw") (codes "my-data") (codes "rw")

-- A reader of one bucket who may write into every one.
abbrev groups : List Text
groups = codes "/data-ro" ∷ codes "*-wo" ∷ codes "admins" ∷ []

abbrev backend : Option Listed
backend = some (some (some (codes "data") ∷ none ∷ some (codes "logs") ∷ []))

abbrev listed : List BucketPermission
listed =
    record { name = codes "data"; read = true; write = true; delete = false }
    ∷ record { name = codes "logs"; read = false; write = true; delete = false }
    ∷ []

listed_value : handle_list_buckets groups backend ≡ ok listed
unfolding handle_list_buckets
listed_value = refl

handle_list_buckets-IsHonest_example : IsHonest groups backend listed
handle_list_buckets-IsHonest_example =
    handle_list_buckets-IsHonest groups backend listed listed_value

-- The actions of the table follow the right to write: here the page offers a deletion that the server refuses.
abbrev both : List Text
both = codes "b-ro" ∷ codes "b-wo" ∷ []

abbrev both_listed : List BucketPermission
both_listed = record { name = codes "b"; read = true; write = true; delete = false } ∷ []

offered_delete :
    (handle_list_buckets both none ≡ ok both_listed)
    × (can_write (codes "b") (map bucket_info both_listed) ≡ true)
    × (check_access both (codes "b") (codes "DELETE") ≡ false)
unfolding handle_list_buckets can_write check_access
offered_delete = (refl, refl, refl)

-- An upload to a bucket that the wildcard group opens.
abbrev upload : Request
upload = record {
  bucket_value = codes "data";
  key_value = codes "a/b.txt";
  path = [];
  query = λ k. [];
  header = λ k. [];
}

handle-IsGuarded_example : IsGuarded object_put groups true upload
handle-IsGuarded_example = handle-IsGuarded object_put groups true upload

abbrev go : ToLower
go = record { lower = map to_lower; lower_ascii = λ s h. refl }

abbrev page : GetObjectOutput
page = record {
  content_type = some (codes "Text/HTML; charset=utf-8");
  content_length = some 12;
  etag = none;
  last_modified = none;
}

abbrev page_headers : ObjectHeaders
page_headers = record {
  content_type_options = codes "nosniff";
  content_security_policy = codes "default-src 'none'; sandbox";
  content_type = codes "application/octet-stream";
  content_disposition = codes "attachment; filename=" ++ quoted (codes "x.html");
  content_length = some 12;
  etag = none;
  last_modified = none;
}

-- A key of slashes only is named by one.
slash_name : sanitize_filename (codes "//") ≡ codes "/"
unfolding sanitize_filename
slash_name = refl

abbrev requests : List Event
requests = (1000, codes "a") ∷ (2000, codes "b") ∷ (3000, codes "a") ∷ []

run-IsLimited_example :
    count (answers (codes "a") requests (run ((500, codes "a") ∷ []) (new_rate_limiter 20 10)))
      * token
    ≤ 10 * token + (4000 - 1000) * 20
run-IsLimited_example =
    run-IsLimited 20 10 (codes "a") 1000 4000 ((500, codes "a") ∷ []) requests (omega arith)
      (ground arith) (ground arith)

-- Two pages of three objects, of which one has no size.
abbrev first_page : Page
first_page = record {
  contents = some 5 ∷ none ∷ [];
  is_truncated = some true;
  next_continuation_token = some (codes "t");
}

abbrev last_page : Page
last_page = record { contents = some 7 ∷ []; is_truncated = none; next_continuation_token = none }

abbrev store : Text → Option Page
store [] = some first_page
store (_ ∷ _) = some last_page

compute_bucket_stats-IsListing_example :
    compute_bucket_stats store ((codes "*", 100) ∷ []) (codes "data")
    ≡ some (record {
      bucket = codes "data";
      object_count = length (contents_of (take stats_max_pages (first_page ∷ last_page ∷ [])));
      size_bytes = total (contents_of (take stats_max_pages (first_page ∷ last_page ∷ [])));
      truncated = ltb stats_max_pages (length (first_page ∷ last_page ∷ []));
      quota_bytes = quota_for ((codes "*", 100) ∷ []) (codes "data");
    })
compute_bucket_stats-IsListing_example =
    compute_bucket_stats-IsListing store ((codes "*", 100) ∷ []) (codes "data")
      (first_page ∷ last_page ∷ []) (refl, (codes "t", (refl, (refl, refl))))
