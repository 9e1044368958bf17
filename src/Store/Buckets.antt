-- ===== src/Store/Buckets.antt =====
-- web/src/store/buckets.ts. `statsRequested` is part of the state here. A call of
-- `fetchBucketStats` is a job: the queue that its workers share, and the name that each busy worker
-- awaits an answer for. A worker takes its next name when its answer is in.
pub mod Drain
pub mod Merge
pub mod Workers
use pier_s3_gateway.Prelude.{
  ℕ, Bool, true, false, not, ◌||◌, List, [], ◌∷◌, ◌++◌, map, Option, none, some, if◌then◌else◌,
  Text, codes, text_eq, take, drop, any,
}
use pier_s3_gateway.Client.{error_message, Answer, success, failure}

pub record Permissions : Type 0 where
  pub read : Bool
  pub write : Bool
  pub delete : Option Bool

pub record BucketInfo : Type 0 where
  pub name : Text
  pub permissions : Permissions
  pub object_count : Option ℕ
  pub size_bytes : Option ℕ
  pub stats_truncated : Option Bool
  pub quota_bytes : Option ℕ

pub record BucketStats : Type 0 where
  pub bucket : Text
  pub object_count : ℕ
  pub size_bytes : ℕ
  pub truncated : Bool
  pub quota_bytes : Option ℕ

pub record Job : Type 0 where
  pub queue : List Text
  pub awaited : List Text

pub record BucketsState : Type 0 where
  pub buckets : List BucketInfo
  pub loading : Bool
  pub error : Option Text
  pub stats_requested : List Text

abbrev pub stats_concurrency : ℕ
stats_concurrency = 4

unfoldable pub fetch_buckets : BucketsState → BucketsState
fetch_buckets s = record s { loading = true; error = none }

unfoldable pub fetch_buckets_done : Answer (List BucketInfo) → BucketsState → BucketsState
fetch_buckets_done (success buckets) s = record s {
  stats_requested = [];
  buckets = buckets;
  loading = false;
}
fetch_buckets_done (failure err) s = record s {
  error = some (error_message err (codes "Failed to load buckets"));
  loading = false;
}

abbrev pub has : List Text → Text → Bool
has names n = any (text_eq n) names

-- `names.filter((n) => !statsRequested.has(n))`
unfoldable pub fresh_names : List Text → List Text → List Text
fresh_names requested [] = []
fresh_names requested (n ∷ names) =
    let rest = fresh_names requested names in if has requested n then rest else n ∷ rest

-- `fetchBucketStats` up to the first answers: the workers, four at most, have taken a name each.
unfoldable pub fetch_bucket_stats : List Text → BucketsState → Job × BucketsState
unfolding fresh_names
fetch_bucket_stats names s =
    let queue = fresh_names s.stats_requested names in
    (
      record { queue = drop stats_concurrency queue; awaited = take stats_concurrency queue },
      record s { stats_requested = s.stats_requested ++ queue },
    )

abbrev pub put_stats : BucketStats → BucketInfo → BucketInfo
put_stats stats b = record b {
  object_count = some stats.object_count;
  size_bytes = some stats.size_bytes;
  stats_truncated = some stats.truncated;
  quota_bytes = stats.quota_bytes;
}

unfoldable pub merge_stats : Text → BucketStats → List BucketInfo → List BucketInfo
merge_stats name stats [] = []
merge_stats name stats (b ∷ buckets) =
    (if text_eq b.name name then put_stats stats b else b) ∷ merge_stats name stats buckets

-- A failure is silent.
unfoldable pub stats_answered : Text → Answer BucketStats → BucketsState → BucketsState
unfolding merge_stats
stats_answered name (success stats) s = record s { buckets = merge_stats name stats s.buckets }
stats_answered name (failure err) s = s

-- The worker whose answer is in, between the other busy ones, takes the next name of the queue.
unfoldable pub next_name : List Text → List Text → List Text → Job
next_name before after [] = record { queue = []; awaited = before ++ after }
next_name before after (n ∷ queue) = record { queue = queue; awaited = before ++ (n ∷ after) }
