-- ===== src/View/Pages/Overview.antt =====
-- web/src/pages/Buckets.tsx with the store of buckets: the page asks for the stats of the buckets that it shows, and
-- its effect runs again whenever the list is replaced, by an answer of either kind.
pub mod Covered
use pier_s3_gateway.Prelude.{ℕ, List, [], ◌∷◌, ◌++◌, Option, none, some, Text, taken}
use pier_s3_gateway.Client.{Answer, success, failure}
use pier_s3_gateway.Store.Buckets.{
  BucketInfo, BucketStats, Job, BucketsState, fetch_buckets, fetch_buckets_done, fetch_bucket_stats,
  stats_answered, next_name,
}
use pier_s3_gateway.View.Pages.{stats_request}

pub record Overview : Type 0 where
  pub store : BucketsState
  pub jobs : List Job

abbrev pub ask_stats : List Text → Overview → Overview
ask_stats [] v = v
ask_stats (n ∷ names) v =
    let call = fetch_bucket_stats (n ∷ names) v.store in
    record { store = call.1; jobs = call.0 ∷ v.jobs }

-- The effect of the page on a new list.
unfoldable pub run_effect : Overview → Overview
unfolding fetch_bucket_stats stats_request
run_effect v = ask_stats (stats_request v.store.buckets) v

abbrev finish : Text → List Text → Answer BucketStats → Job → List Job → Overview → Overview
finish name others a job rest v = record {
  store = stats_answered name a v.store;
  jobs = next_name [] others job.queue ∷ rest;
}

abbrev finish_name :
    Option (Text × List Text) → Answer BucketStats → Job → List Job → Overview → Overview
finish_name none a job rest v = v
finish_name (some (name, others)) a job rest v = finish name others a job rest v

abbrev finish_job : Option (Job × List Job) → ℕ → Answer BucketStats → Overview → Overview
finish_job none i a v = v
finish_job (some (job, rest)) i a v = finish_name (taken i job.awaited) a job rest v

-- The answer to one of the names that a call awaits, before the page is drawn again.
unfoldable pub stats_in : ℕ → ℕ → Answer BucketStats → Overview → Overview
unfolding stats_answered next_name
stats_in j i a v = finish_job (taken j v.jobs) i a v

-- A failed answer leaves the list as it is, and the effect does not run.
abbrev pub redrawn {ℓ} : {A : Type ℓ} → Answer A → Overview → Overview
redrawn (success _) v = run_effect v
redrawn (failure _) v = v

pub data Event : Type 0 where
  ask_list : Event
  list_answered : Answer (List BucketInfo) → Event
  -- An answer for the i-th of the names that the j-th call awaits.
  name_answered : ℕ → ℕ → Answer BucketStats → Event

unfoldable pub step : Event → Overview → Overview
unfolding run_effect stats_in fetch_buckets fetch_buckets_done
step ask_list v = record v { store = fetch_buckets v.store }
step (list_answered a) v = redrawn a (record v { store = fetch_buckets_done a v.store })
step (name_answered j i a) v = redrawn a (stats_in j i a v)

unfoldable pub steps : List Event → Overview → Overview
unfolding step
steps [] v = v
steps (e ∷ es) v = steps es (step e v)
