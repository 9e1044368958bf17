-- ===== src/Store/Buckets/Drain.antt =====
-- web/src/store/buckets.ts: how a call of `fetchBucketStats` ends.
use mathlib.Core.List.{perm_middle}
use mathlib.Core.List.Perm
use pier_s3_gateway.Prelude.{
  ◌+◌, ◌≤◌, ◌↔◌, List, [], ◌∷◌, ◌++◌, ◌≡◌, refl, sym, ap, subst, ◌∙◌, arith, Text, length, Perm,
  length-append, append-nil, take-append-drop,
}
use pier_s3_gateway.Store.Buckets.{
  Job, BucketsState, stats_concurrency, fresh_names, fetch_bucket_stats, next_name,
}
use pier_s3_gateway.Store.Buckets.Workers.{
  IsBusy, fetch_bucket_stats-IsBusy, next_name-IsBusy, next_name-remaining,
}

-- The answers that a call has had, the last one first, and what is left of it.
pub data Answered (start : Job) : List Text → Job → Type 0 where
  here : Answered start [] start
  next :
      {done : List Text} {job : Job}
      → Answered start done job
      → (before after : List Text) (name : Text) → job.awaited ≡ before ++ (name ∷ after)
      → Answered start (name ∷ done) (next_name before after job.queue)

-- The names that are not yet answered.
abbrev open_names : Job → List Text
open_names job = job.awaited ++ job.queue

next_name-open :
    (before after : List Text) (name : Text) (queue : List Text)
    → Perm (name ∷ open_names (next_name before after queue)) ((before ++ (name ∷ after)) ++ queue)
unfolding next_name
next_name-open before after name [] = Perm.append_right [] (Perm.symm (perm_middle before after))
next_name-open before after name (n ∷ queue) =
    Perm.trans (Perm.cons name (Perm.append_right queue (perm_middle before after))) (
      Perm.trans (Perm.cons name (Perm.symm (perm_middle (before ++ after) queue)))
        (Perm.append_right (n ∷ queue) (Perm.symm (perm_middle before after))))

Answered-keeps :
    {start job : Job} {done : List Text}
    → Answered start done job
    → Perm (done ++ open_names job) (open_names start)
Answered-keeps here = Perm.rfl
Answered-keeps {start} (next {done} {job} r before after name e) =
    Perm.trans
      (Perm.trans (Perm.symm (perm_middle done (open_names (next_name before after job.queue))))
        (Perm.append_left done (next_name-open before after name job.queue)))
      (subst (λ awaited. Perm (done ++ (awaited ++ job.queue)) (open_names start)) e
        (Answered-keeps r))

Answered-IsBusy :
    {start job : Job} {done : List Text} → IsBusy start → Answered start done job → IsBusy job
Answered-IsBusy h here = h
Answered-IsBusy h (next {job = job} r before after name e) =
    next_name-IsBusy before after name job e (Answered-IsBusy h r)

Answered-length :
    {start job : Job} {done : List Text}
    → Answered start done job
    → length done + length job.queue + length job.awaited
      ≡ length start.queue + length start.awaited
Answered-length here = omega arith
Answered-length (next {job = job} r before after name e) =
    omega (arith, next_name-remaining before after name job e, Answered-length r)

-- A call that has begun to be answered, and the names that it asked for.
pub record IsDraining (asked done : List Text) (job : Job) : Type 0 where
  pub bounded : length done ≤ length asked
  pub stuck : (job.awaited ≡ []) ↔ (length done ≡ length asked)
  pub once : job.awaited ≡ [] → Perm done asked

length-nil : (xs : List Text) → length xs ≡ 0 → xs ≡ []
length-nil [] h = refl
length-nil (x ∷ xs) h = absurd (omega arith)

IsBusy-drained : (job : Job) → IsBusy job → job.awaited ≡ [] → job.queue ≡ []
IsBusy-drained job v e = v.eager (rw e (omega arith))

fetch_bucket_stats-open :
    (names : List Text) (s : BucketsState)
    → open_names (fetch_bucket_stats names s).0 ≡ fresh_names s.stats_requested names
unfolding fetch_bucket_stats
fetch_bucket_stats-open names s =
    take-append-drop stats_concurrency (fresh_names s.stats_requested names)

-- A call of `fetchBucketStats` goes on as long as a name that it asks for is open, in whatever order the
-- answers come: something is awaited until it has had as many answers as it has fresh names, then
-- nothing is, and each fresh name was answered exactly once.
pub fetch_bucket_stats-IsDraining :
    (names : List Text) (s : BucketsState) (done : List Text) (job : Job)
    → Answered (fetch_bucket_stats names s).0 done job
    → IsDraining (fresh_names s.stats_requested names) done job
fetch_bucket_stats-IsDraining names s done job r =
    let start = (fetch_bucket_stats names s).0 in
    let asked = fresh_names s.stats_requested names in
    let busy : IsBusy job = Answered-IsBusy (fetch_bucket_stats-IsBusy names s) r in
    let total : length start.awaited + length start.queue ≡ length asked =
      sym (length-append {0} start.awaited start.queue)
      ∙ ap (λ xs. length xs) (fetch_bucket_stats-open names s) in
    let count = Answered-length r in
    let none_left : job.awaited ≡ [] → length job.queue ≡ 0 =
      λ e. ap (λ xs. length xs) (IsBusy-drained job busy e) in
    record {
      bounded = omega (arith, count, total);
      stuck = (
        λ e.
            (let a : length job.awaited ≡ 0 = ap (λ xs. length xs) e in
              omega (arith, count, total, a, none_left e)),
        λ e. length-nil job.awaited (omega (arith, count, total, e)),
      );
      once = λ e. subst (Perm done) (fetch_bucket_stats-open names s) (
          subst (λ xs. Perm xs (open_names start))
            (ap (λ xs. done ++ xs) (λ i. e i ++ IsBusy-drained job busy e i) ∙ append-nil done)
            (Answered-keeps r));
    }
