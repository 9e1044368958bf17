-- ===== src/Store/Buckets/Workers.antt =====
-- web/src/store/buckets.ts: the workers of `fetchBucketStats` and the names already requested.
use pier_s3_gateway.Prelude.{
  ◌+◌, ◌≤◌, ◌<◌, ◌||◌, true, false, List, [], ◌∷◌, ◌++◌, ◌≡◌, refl, sym, subst, ◌∙◌, arith, Text,
  text_eq, text_eq_iff, length, All, length-append, length-take, any-append, drop_of_le, All-imp,
  Bool-cases, inl, inr,
}
use pier_s3_gateway.Client.{Answer}
use pier_s3_gateway.Store.Buckets.{
  BucketInfo, BucketStats, Job, BucketsState, stats_concurrency, fetch_buckets, fetch_buckets_done,
  has, fresh_names, fetch_bucket_stats, stats_answered, next_name,
}

pub record World : Type 0 where
  pub state : BucketsState
  pub jobs : List Job

abbrev world : BucketsState → List Job → World
world s js = record { state = s; jobs = js }

-- Any interleaving of the two actions and of the answers to their requests.
pub data Step (w : World) : World → Type 0 where
  list : Step w (world (fetch_buckets w.state) w.jobs)
  listed : (a : Answer (List BucketInfo)) → Step w (world (fetch_buckets_done a w.state) w.jobs)
  stats :
      (names : List Text)
      → Step w (
          world
            (fetch_bucket_stats names w.state).1
            ((fetch_bucket_stats names w.state).0 ∷ w.jobs))
  answered :
      (js ks : List Job) (job : Job) (before after : List Text) (name : Text)
      (a : Answer BucketStats)
      → w.jobs ≡ js ++ (job ∷ ks)
      → job.awaited ≡ before ++ (name ∷ after)
      → Step w
          (world (stats_answered name a w.state) (js ++ (next_name before after job.queue ∷ ks)))

pub data Run (w : World) : World → Type 0 where
  here : Run w w
  next : {u v : World} → Run w u → Step u v → Run w v

-- Four requests at most are awaited, and fewer only when no name is left.
pub record IsBusy (job : Job) : Type 0 where
  pub bounded : length job.awaited ≤ stats_concurrency
  pub eager : length job.awaited < stats_concurrency → job.queue ≡ []

pub fetch_bucket_stats-IsBusy :
    (names : List Text) (s : BucketsState) → IsBusy (fetch_bucket_stats names s).0
unfolding fetch_bucket_stats
fetch_bucket_stats-IsBusy names s =
    let queue = fresh_names s.stats_requested names in
    record {
      bounded = omega (arith, length-take stats_concurrency queue);
      eager = λ h.
          drop_of_le stats_concurrency queue (omega (arith, length-take stats_concurrency queue));
    }

next_name-keeps :
    (before after : List Text) (name : Text) (queue : List Text)
    → length (before ++ (name ∷ after)) ≤ stats_concurrency
    → (length (before ++ (name ∷ after)) < stats_concurrency → queue ≡ [])
    → IsBusy (next_name before after queue)
unfolding next_name
next_name-keeps before after name [] h k = record {
  bounded = omega (arith, length-append {0} before after, length-append {0} before (name ∷ after));
  eager = λ _. refl;
}
next_name-keeps before after name (n ∷ queue) h k = record {
  bounded =
      omega (arith, length-append {0} before (n ∷ after), length-append {0} before (name ∷ after));
  eager = λ m. cc (
      k (
        omega
          (arith, length-append {0} before (n ∷ after), length-append {0} before (name ∷ after))));
}

pub next_name-IsBusy :
    (before after : List Text) (name : Text) (job : Job)
    → job.awaited ≡ before ++ (name ∷ after)
    → IsBusy job
    → IsBusy (next_name before after job.queue)
next_name-IsBusy before after name job e v =
    next_name-keeps before after name job.queue (rw e at (v.bounded)) (rw e at (v.eager))

All-at : (job : Job) (js ks : List Job) → All IsBusy (js ++ (job ∷ ks)) → IsBusy job
All-at job [] ks (h, _) = h
All-at job (_ ∷ js) ks (_, h) = All-at job js ks h

All-put :
    (job : Job) (js ks : List Job) {next : Job}
    → All IsBusy (js ++ (job ∷ ks))
    → IsBusy next
    → All IsBusy (js ++ (next ∷ ks))
All-put job [] ks (_, h) n = (n, h)
All-put job (_ ∷ js) ks (h, hs) n = (h, All-put job js ks hs n)

Step-IsBusy : {w u : World} → Step w u → All IsBusy w.jobs → All IsBusy u.jobs
Step-IsBusy list h = h
Step-IsBusy (listed a) h = h
Step-IsBusy {w} (stats names) h = (fetch_bucket_stats-IsBusy names w.state, h)
Step-IsBusy (answered js ks job before after name a e f) h =
    let h' : All IsBusy (js ++ (job ∷ ks)) = rw e at h in
    All-put job js ks h' (next_name-IsBusy before after name job f (All-at job js ks h'))

-- Whatever is called and answered in whatever order, each call of `fetchBucketStats` awaits at most
-- four answers at a time, and fewer than four only when its queue is empty.
pub Run-IsBusy : {w u : World} → All IsBusy w.jobs → Run w u → All IsBusy u.jobs
Run-IsBusy h here = h
Run-IsBusy h (next r st) = Step-IsBusy st (Run-IsBusy h r)

next_name-length :
    (before after queue : List Text)
    → length (next_name before after queue).queue
        + length (next_name before after queue).awaited
        + 1
      ≡ length queue + length before + length after + 1
unfolding next_name
next_name-length before after [] = omega (arith, length-append {0} before after)
next_name-length before after (n ∷ queue) = omega (arith, length-append {0} before (n ∷ after))

-- Each answer leaves one name fewer to settle, so a call of `fetchBucketStats` ends.
pub next_name-remaining :
    (before after : List Text) (name : Text) (job : Job)
    → job.awaited ≡ before ++ (name ∷ after)
    → let left = next_name before after job.queue in
      length left.queue + length left.awaited + 1 ≡ length job.queue + length job.awaited
next_name-remaining before after name job e =
    next_name-length before after job.queue
    ∙ rw e (omega (arith, length-append {0} before after, length-append {0} before (name ∷ after)))

pub has_self : (n : Text) → text_eq n n ≡ true
has_self n = (text_eq_iff n n).1 refl

pub has-append : (xs ys : List Text) (n : Text) → has (xs ++ ys) n ≡ (has xs n || has ys n)
has-append xs ys n = any-append (text_eq n) xs ys

fresh_names_nil :
    (requested names : List Text)
    → All (λ n. has requested n ≡ true) names
    → fresh_names requested names ≡ []
unfolding fresh_names
fresh_names_nil requested [] h = refl
fresh_names_nil requested (n ∷ names) (h, hs) = rw h (fresh_names_nil requested names hs)

fresh_names-old :
    (requested names : List Text) (n : Text)
    → has requested n ≡ true
    → fresh_names requested (n ∷ names) ≡ fresh_names requested names
unfolding fresh_names
fresh_names-old requested names n h = rw h

fresh_names-new :
    (requested names : List Text) (n : Text)
    → has requested n ≡ false
    → fresh_names requested (n ∷ names) ≡ n ∷ fresh_names requested names
unfolding fresh_names
fresh_names-new requested names n h = rw h

-- The names already requested and those that are requested now.
abbrev Covers : List Text → List Text → Text → Type 0
Covers requested queue n = (has requested n || has queue n) ≡ true

Covers-cons :
    (requested queue : List Text) (n m : Text)
    → Covers requested queue m
    → Covers requested (n ∷ queue) m
Covers-cons requested queue n m h = ground arith

fresh_names-Covers :
    (requested names : List Text) → All (Covers requested (fresh_names requested names)) names
fresh_names-Covers requested [] = tt
fresh_names-Covers requested (n ∷ names) = elim (Bool-cases (has requested n)) [
  | inl old ↦
      subst (λ queue. All (Covers requested queue) (n ∷ names))
        (sym (fresh_names-old requested names n old))
        (rw old refl, fresh_names-Covers requested names)
  | inr new ↦
      subst (λ queue. All (Covers requested queue) (n ∷ names))
        (sym (fresh_names-new requested names n new))
        (
          rw has_self (ground arith),
          All-imp (Covers-cons requested (fresh_names requested names) n) names
              (fresh_names-Covers requested names),
        )
]

-- Names that a call has just requested are not requested again by a later call, whatever answers
-- have been merged in between: as long as `statsRequested` is not cleared, the later job is empty.
pub fetch_bucket_stats_again :
    (names : List Text) (s t : BucketsState)
    → t.stats_requested ≡ (fetch_bucket_stats names s).1.stats_requested
    → (fetch_bucket_stats names t).0 ≡ record { queue = []; awaited = [] }
unfolding fetch_bucket_stats
fetch_bucket_stats_again names s t e =
    let known =
      All-imp (λ n h. rw (e, has-append) h) names (fresh_names-Covers s.stats_requested names) in
    rw (fresh_names_nil t.stats_requested names known)
