-- ===== src/View/Pages/Overview/Covered.antt =====
-- web/src/pages/Buckets.tsx: which stats are asked for, and that none are asked for again.
use pier_s3_gateway.Prelude.{
  ℕ, Bool, true, ◌&&◌, ◌||◌, List, [], ◌∷◌, ◌++◌, ◌≡◌, refl, sym, ◌∙◌, arith, Option, none, some,
  Text, text_eq_iff, taken,
}
use pier_s3_gateway.Client.{Answer, success, failure}
use pier_s3_gateway.Store.Buckets.{
  BucketInfo, BucketStats, Job, BucketsState, fetch_buckets, fetch_buckets_done, has, fresh_names,
  fetch_bucket_stats, stats_answered,
}
use pier_s3_gateway.Store.Buckets.Workers.{has_self, has-append}
use pier_s3_gateway.View.Pages.{stats_request}
use pier_s3_gateway.View.Pages.Access.{stats_request-merge_stats}
use pier_s3_gateway.View.Pages.Overview.{
  Overview, ask_stats, run_effect, finish, finish_name, finish_job, stats_in, redrawn, Event,
  ask_list, list_answered, name_answered, step, steps,
}

-- Every name that the page has to ask for was asked for since the list was read.
abbrev pub IsCovered : BucketsState → Type 0
IsCovered s = (n : Text) → has (stats_request s.buckets) n ≡ true → has s.stats_requested n ≡ true

has-fresh_names :
    (requested names : List Text) (n : Text)
    → has names n ≡ true
    → (has requested n || has (fresh_names requested names) n) ≡ true
unfolding fresh_names
has-fresh_names requested [] n h = cc
has-fresh_names requested (m ∷ names) n h =
    ground (arith, has-fresh_names requested names n, text_eq_iff n m)

fresh_names-covered :
    (requested names : List Text)
    → ((n : Text) → has names n ≡ true → has requested n ≡ true)
    → fresh_names requested names ≡ []
unfolding fresh_names
fresh_names-covered requested [] h = refl
fresh_names-covered requested (m ∷ names) h =
    rw (h m (rw has_self (ground arith)))
      (fresh_names-covered requested names (λ n k. h n (rw k (ground arith))))

ask_stats-IsCovered :
    (names : List Text) (v : Overview)
    → stats_request v.store.buckets ≡ names
    → IsCovered (ask_stats names v).store
unfolding fetch_bucket_stats
ask_stats-IsCovered [] v e n h = cc (e, h)
ask_stats-IsCovered (m ∷ names) v e n h =
    has-append v.store.stats_requested (fresh_names v.store.stats_requested (m ∷ names)) n
    ∙ has-fresh_names v.store.stats_requested (m ∷ names) n (rw e at h)

run_effect-IsCovered : (v : Overview) → IsCovered (run_effect v).store
unfolding run_effect
run_effect-IsCovered v = ask_stats-IsCovered (stats_request v.store.buckets) v refl

-- The names whose answers are awaited or that wait for a worker.
abbrev pub open_names : List Job → List Text
open_names [] = []
open_names (job ∷ jobs) = (job.awaited ++ job.queue) ++ open_names jobs

finish-IsCovered :
    (name : Text) (others : List Text) (a : Answer BucketStats) (job : Job) (rest : List Job)
    (v : Overview)
    → IsCovered v.store
    → IsCovered (finish name others a job rest v).store
unfolding stats_answered
finish-IsCovered name others (failure err) job rest v h n k = h n k
finish-IsCovered name others (success stats) job rest v h n k =
    h n (both _ _ (sym (stats_request-merge_stats name stats v.store.buckets n) ∙ k))
  where
    both : (a b : Bool) → (a && b) ≡ true → b ≡ true
    both a b e = ground arith

finish_name-IsCovered :
    (o : Option (Text × List Text)) (a : Answer BucketStats) (job : Job) (rest : List Job)
    (v : Overview)
    → IsCovered v.store
    → IsCovered (finish_name o a job rest v).store
finish_name-IsCovered none a job rest v h = h
finish_name-IsCovered (some (name, others)) a job rest v h =
    finish-IsCovered name others a job rest v h

finish_job-IsCovered :
    (o : Option (Job × List Job)) (i : ℕ) (a : Answer BucketStats) (v : Overview)
    → IsCovered v.store
    → IsCovered (finish_job o i a v).store
finish_job-IsCovered none i a v h = h
finish_job-IsCovered (some (job, rest)) i a v h =
    finish_name-IsCovered (taken i job.awaited) a job rest v h

stats_in-IsCovered :
    (j i : ℕ) (a : Answer BucketStats) (v : Overview)
    → IsCovered v.store
    → IsCovered (stats_in j i a v).store
unfolding stats_in
stats_in-IsCovered j i a v h = finish_job-IsCovered (taken j v.jobs) i a v h

redrawn-IsCovered {ℓ} :
    {A : Type ℓ} (a : Answer A) (v : Overview) → IsCovered v.store → IsCovered (redrawn a v).store
redrawn-IsCovered (success _) v h = run_effect-IsCovered v
redrawn-IsCovered (failure _) v h = h

list_answered-IsCovered :
    (a : Answer (List BucketInfo)) (v : Overview)
    → IsCovered v.store
    → IsCovered (step (list_answered a) v).store
unfolding step fetch_buckets_done
list_answered-IsCovered (success buckets) v h =
    run_effect-IsCovered (record v { store = fetch_buckets_done (success buckets) v.store })
list_answered-IsCovered (failure err) v h = h

step-IsCovered : (e : Event) (v : Overview) → IsCovered v.store → IsCovered (step e v).store
unfolding step fetch_buckets
step-IsCovered ask_list v h = h
step-IsCovered (list_answered a) v h = list_answered-IsCovered a v h
step-IsCovered (name_answered j i a) v h =
    redrawn-IsCovered a (stats_in j i a v) (stats_in-IsCovered j i a v h)

steps-keeps : (es : List Event) (v : Overview) → IsCovered v.store → IsCovered (steps es v).store
unfolding steps
steps-keeps [] v h = h
steps-keeps (e ∷ es) v h = steps-keeps es (step e v) (step-IsCovered e v h)

-- On a covered list the effect starts a call with no name.
ask_stats-open_names :
    (names : List Text) (v : Overview)
    → ((n : Text) → has names n ≡ true → has v.store.stats_requested n ≡ true)
    → open_names (ask_stats names v).jobs ≡ open_names v.jobs
unfolding fetch_bucket_stats
ask_stats-open_names [] v h = refl
ask_stats-open_names (m ∷ names) v h =
    rw (fresh_names-covered v.store.stats_requested (m ∷ names) h) refl

redrawn-open_names :
    (a : Answer BucketStats) (v : Overview)
    → IsCovered v.store
    → open_names (redrawn a v).jobs ≡ open_names v.jobs
unfolding run_effect
redrawn-open_names (success _) v h = ask_stats-open_names (stats_request v.store.buckets) v h
redrawn-open_names (failure _) v h = refl

-- Whatever the store holds when the page is mounted, and whatever is asked for and answered in any order: every bucket
-- on the page that may be read and has no size is among the names that the store remembers to have asked for;
-- and the run of the effect that follows an answer for one bucket asks for no name again.
pub steps-IsCovered :
    (before : Overview) (es : List Event)
    → let v = steps es (run_effect before) in
      IsCovered v.store
      × ((j i : ℕ) (a : Answer BucketStats)
          → open_names (step (name_answered j i a) v).jobs ≡ open_names (stats_in j i a v).jobs)
unfolding step
steps-IsCovered before es =
    let h = steps-keeps es (run_effect before) (run_effect-IsCovered before) in
    (
      h,
      λ j i a.
          redrawn-open_names a (stats_in j i a (steps es (run_effect before)))
            (stats_in-IsCovered j i a (steps es (run_effect before)) h),
    )
