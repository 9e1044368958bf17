-- ===== src/Tests/Witnesses/StoreCases.antt =====
-- web/src/store/browser.ts and buckets.ts: the theorems at concrete states.
use pier_s3_gateway.Prelude.{true, false, List, [], ◌∷◌, ◌≡◌, refl, none, some, Text, codes, All}
use pier_s3_gateway.Client.{other}
use pier_s3_gateway.Store.Browser.{ObjectInfo, ListObjectsResponse, initial}
use pier_s3_gateway.Store.Browser.Paging.{Page}
use pier_s3_gateway.Store.Browser.Refinement.{
  Server, Action, open_listing, ask_more, answered, refused, acts, moves, Refines,
}
use pier_s3_gateway.Store.Browser.Refinement.Simulation.{nothing_read, acts-Refines}
use pier_s3_gateway.Store.Buckets
use pier_s3_gateway.Store.Buckets.Drain.{Answered, IsDraining, fetch_bucket_stats-IsDraining}
use pier_s3_gateway.Store.Buckets.Workers
use pier_s3_gateway.Store.Buckets.Workers.{
  Run, Step, IsBusy, Run-IsBusy, next_name-remaining, fetch_bucket_stats_again,
}

abbrev object : Text → ObjectInfo
object key = record { key = key; size_bytes = 1; last_modified = []; etag = []; is_prefix = false }

abbrev first_page : Page
first_page = record { objects = object (codes "a") ∷ []; prefixes = codes "d/" ∷ []; token = [] }

abbrev last_page : Page
last_page = record { objects = object (codes "b") ∷ []; prefixes = []; token = codes "t1" }

abbrev reply_page : ListObjectsResponse
reply_page = record {
  objects = some (object (codes "b") ∷ []);
  prefixes = none;
  next_page_token = none;
  truncated = some false;
}

abbrev bucket_named : Text → Buckets.BucketInfo
bucket_named name = record {
  name = name;
  permissions = record { read = true; write = false; delete = none };
  object_count = none;
  size_bytes = none;
  stats_truncated = none;
  quota_bytes = none;
}

abbrev two_buckets : List Buckets.BucketInfo
two_buckets = bucket_named (codes "a") ∷ bucket_named (codes "b") ∷ []

abbrev b_stats : Buckets.BucketStats
b_stats = record {
  bucket = codes "b";
  object_count = 3;
  size_bytes = 10;
  truncated = false;
  quota_bytes = none;
}

abbrev no_stats : Buckets.BucketsState
no_stats = record { buckets = two_buckets; loading = false; error = none; stats_requested = [] }

abbrev all_names : List Text
all_names = codes "a" ∷ codes "b" ∷ []

abbrev no_jobs : Workers.World
no_jobs = record { state = no_stats; jobs = [] }

abbrev one_job : Workers.World
one_job = record {
  state = (Buckets.fetch_bucket_stats all_names no_stats).1;
  jobs = (Buckets.fetch_bucket_stats all_names no_stats).0 ∷ [];
}

one_call : Run no_jobs one_job
one_call = Run.next Run.here (Step.stats all_names)

Run-IsBusy_example : All IsBusy ((Buckets.fetch_bucket_stats all_names no_stats).0 ∷ [])
Run-IsBusy_example = Run-IsBusy tt one_call

-- Two of two names answered, the second one first.
abbrev one_left : Buckets.Job
one_left = Buckets.next_name (codes "a" ∷ []) [] []

two_answers :
    Answered
      (Buckets.fetch_bucket_stats all_names no_stats).0
      all_names
      (Buckets.next_name [] [] one_left.queue)
unfolding Buckets.fetch_bucket_stats Buckets.next_name
two_answers =
    Answered.next (Answered.next Answered.here (codes "a" ∷ []) [] (codes "b") refl) [] []
      (codes "a") refl

fetch_bucket_stats-IsDraining_example :
    IsDraining (Buckets.fresh_names [] all_names) all_names (Buckets.next_name [] [] one_left.queue)
fetch_bucket_stats-IsDraining_example =
    fetch_bucket_stats-IsDraining all_names no_stats all_names
      (Buckets.next_name [] [] one_left.queue) two_answers

-- A server with two pages everywhere.
abbrev two_pages : Server
two_pages = record {
  first = λ bucket prefix. first_page;
  others = λ bucket prefix. last_page ∷ [];
  distinct = λ bucket prefix. (tt, tt);
  tokens = λ bucket prefix. (refl, tt);
}

abbrev session : List Action
session =
    open_listing (codes "data") []
    ∷ ask_more
    ∷ answered
    ∷ ask_more
    ∷ refused other
    ∷ ask_more
    ∷ answered
    ∷ ask_more
    ∷ []

acts-Refines_example :
    Refines two_pages
      (acts two_pages session (record { state = initial; pending = [] }))
      (moves two_pages session nothing_read)
acts-Refines_example = acts-Refines two_pages session

-- After a refusal in between, both pages are there.
both_pages_read : (moves two_pages session nothing_read).done ≡ first_page ∷ last_page ∷ []
unfolding moves
both_pages_read = refl
