-- ===== src/View/Pages/Visit/Owned.antt =====
-- web/src/pages/Browser.tsx: the objects on the page belong to the URL.
use pier_s3_gateway.Prelude.{
  ℕ, zero, suc, ◌≤◌, true, List, [], ◌∷◌, ◌≡◌, refl, subst, arith, Option, none, some, Text, length,
  taken, Bool-cases, inl, inr,
}
use pier_s3_gateway.Client.{Answer, text_of}
use pier_s3_gateway.Store.Browser.{
  ObjectInfo, ListObjectsResponse, BrowserState, Snapshot, load_more,
}
use pier_s3_gateway.Store.Browser.Session.{
  Request, World, IsHonest, ServesAll, fetch, load, answer, QuietRun, here, next, IsCurrent,
  QuietRun-IsCurrent,
}
use pier_s3_gateway.View.Pages.{listing_request, refresh_request, browser_page, object_browser}
use pier_s3_gateway.View.Pages.Access.{shows}
use pier_s3_gateway.View.Pages.Visit.{
  Visit, deps_of, same_deps, asked, run_effect, Event, go, open_prefix, retry, begin_task,
  task_done, EndWhereBegun, finished, more_objects, buckets_answered, listing_answered, handle,
  step, steps, loaded_more, settled,
}
use pier_s3_gateway.View.Pages.Visit.InSync.{steps-IsInSync}

abbrev world : BrowserState → List Request → World
world s rs = record { state = s; pending = rs }

module _ (Serves : Text → Text → ObjectInfo → Type 0) where
  abbrev IsAnsweredHonestly : Option (Request × List Request) → Answer ListObjectsResponse → Type 0
  IsAnsweredHonestly none a = Unit
  IsAnsweredHonestly (some (r, rs)) a = IsHonest Serves r a

  -- An answer holds objects of the place asked for.
  abbrev AnswersHonestly : Event → Visit → Type 0
  AnswersHonestly (listing_answered n a) v = IsAnsweredHonestly (taken n v.browser.pending) a
  AnswersHonestly (go bucket prefix) v = Unit
  AnswersHonestly (open_prefix prefix) v = Unit
  AnswersHonestly retry v = Unit
  AnswersHonestly begin_task v = Unit
  AnswersHonestly (task_done n) v = Unit
  AnswersHonestly more_objects v = Unit
  AnswersHonestly (buckets_answered a) v = Unit

  -- Nothing is done that has two listings awaited at once, and the answers are honest.
  abbrev pub IsCalm : List Event → Visit → Type 0
  IsCalm [] v = Unit
  IsCalm (e ∷ es) v =
      (length (step e v).browser.pending ≤ 1) × AnswersHonestly e v × IsCalm es (step e v)

  QuietRun-trans : {u v w : World} → QuietRun Serves u v → QuietRun Serves v w → QuietRun Serves u w
  QuietRun-trans r here = r
  QuietRun-trans r (next q st) = next (QuietRun-trans r q) st

  asked-QuietRun :
      (o : Option (Text × Text)) (s : BrowserState) (rs : List Request)
      → length (asked o (world s rs)).pending ≤ 1
      → QuietRun Serves (world s rs) (asked o (world s rs))
  asked-QuietRun none s rs h = here
  asked-QuietRun (some (b, p)) s [] h = next here (fetch b p refl)
  asked-QuietRun (some (b, p)) s (r ∷ rs) h = absurd (omega arith)

  loaded_more-QuietRun :
      (s : BrowserState) (rs : List Request) (o : Option (Snapshot × BrowserState))
      → load_more s ≡ o
      → length (loaded_more (world s rs) o).pending ≤ 1
      → QuietRun Serves (world s rs) (loaded_more (world s rs) o)
  loaded_more-QuietRun s rs none e h = here
  loaded_more-QuietRun s [] (some (sn, t)) e h = next here (load sn t refl e)
  loaded_more-QuietRun s (r ∷ rs) (some (sn, t)) e h = absurd (omega arith)

  settled-QuietRun :
      (n : ℕ) (s : BrowserState) (rs : List Request) (a : Answer ListObjectsResponse)
      → length rs ≤ 1
      → IsAnsweredHonestly (taken n rs) a
      → QuietRun Serves (world s rs) (settled (taken n rs) a (world s rs))
  settled-QuietRun zero s [] a h k = here
  settled-QuietRun (suc n) s [] a h k = here
  settled-QuietRun zero s (r ∷ []) a h k = next here (answer r a refl k)
  settled-QuietRun (suc n) s (r ∷ []) a h k = here
  settled-QuietRun n s (r ∷ q ∷ rs) a h k = absurd (omega arith)

  run_effect-QuietRun :
      (v : Visit)
      → length (run_effect v).browser.pending ≤ 1
      → QuietRun Serves v.browser (run_effect v).browser
  unfolding run_effect
  run_effect-QuietRun v h = elim (Bool-cases (same_deps v.ran (deps_of v))) [
    | inl same ↦ rw same here
    | inr other ↦ rw other (
        asked-QuietRun (listing_request v.bucket v.prefix v.buckets.buckets) v.browser.state
          v.browser.pending (rw other at h))
  ]

  finished-QuietRun :
      (o : Option ((Option Text × Text) × List (Option Text × Text))) (v : Visit)
      → length (finished o v).browser.pending ≤ 1
      → QuietRun Serves v.browser (finished o v).browser
  finished-QuietRun none v h = here
  finished-QuietRun (some ((bucket, prefix), rest)) v h =
      asked-QuietRun (refresh_request bucket prefix) v.browser.state v.browser.pending h

  handle-QuietRun :
      (e : Event) (v : Visit)
      → length v.browser.pending ≤ 1
      → length (handle e v).browser.pending ≤ 1
      → AnswersHonestly e v
      → QuietRun Serves v.browser (handle e v).browser
  unfolding handle
  handle-QuietRun (go bucket prefix) v b h k = here
  handle-QuietRun (open_prefix prefix) v b h k = here
  handle-QuietRun (buckets_answered a) v b h k = here
  handle-QuietRun begin_task v b h k = here
  handle-QuietRun (task_done n) v b h k = finished-QuietRun (taken n v.tasks) v h
  handle-QuietRun retry v b h k =
      asked-QuietRun (refresh_request v.bucket v.prefix) v.browser.state v.browser.pending h
  handle-QuietRun more_objects v b h k =
      loaded_more-QuietRun v.browser.state v.browser.pending (load_more v.browser.state) refl h
  handle-QuietRun (listing_answered n a) v b h k =
      settled-QuietRun n v.browser.state v.browser.pending a b k

asked-length :
    (o : Option (Text × Text)) (w : World) → length w.pending ≤ length (asked o w).pending
asked-length none w = omega arith
asked-length (some (b, p)) w = omega arith

run_effect-length : (v : Visit) → length v.browser.pending ≤ length (run_effect v).browser.pending
unfolding run_effect
run_effect-length v = elim (Bool-cases (same_deps v.ran (deps_of v))) [
  | inl same ↦ rw same (omega arith)
  | inr other ↦
      rw other (asked-length (listing_request v.bucket v.prefix v.buckets.buckets) v.browser)
]

module _ (Serves : Text → Text → ObjectInfo → Type 0) where
  step-QuietRun :
      (e : Event) (v : Visit)
      → length v.browser.pending ≤ 1
      → length (step e v).browser.pending ≤ 1
      → AnswersHonestly Serves e v
      → QuietRun Serves v.browser (step e v).browser
  unfolding step
  step-QuietRun e v b h k =
      let quiet : length (handle e v).browser.pending ≤ 1 =
        omega (arith, run_effect-length (handle e v), h) in
      QuietRun-trans Serves (handle-QuietRun Serves e v b quiet k)
        (run_effect-QuietRun Serves (handle e v) h)

  steps-QuietRun :
      (es : List Event) (v : Visit)
      → length v.browser.pending ≤ 1
      → IsCalm Serves es v
      → QuietRun Serves v.browser (steps es v).browser
  unfolding steps
  steps-QuietRun [] v b c = here
  steps-QuietRun (e ∷ es) v b (h, k, c) =
      QuietRun-trans Serves (step-QuietRun e v b h k) (steps-QuietRun es (step e v) h c)

  -- On a visit that never awaits two listings at once, on which uploads and deletions succeed on the page on which they
  -- began, to a server that answers with objects of the bucket and prefix asked for: whatever is opened, retried,
  -- loaded and answered, the objects of the list that the page shows belong to the bucket and the prefix of the URL.
  pub steps-ServesAll :
      (bucket : Option Text) (prefix : Text) (before : Visit) (es : List Event)
      → before.ran ≡ none
      → before.browser.pending ≡ []
      → IsCurrent Serves before.browser
      → IsCalm Serves (go bucket prefix ∷ es) before
      → EndWhereBegun (go bucket prefix ∷ es) before
      → let v = steps (go bucket prefix ∷ es) before in
        shows object_browser (browser_page v.bucket v.buckets.buckets v.browser.state.error) ≡ true
        → ServesAll Serves (text_of v.bucket) v.prefix v.browser.state.objects
  steps-ServesAll bucket prefix before es fresh idle current calm ends shown =
      let r = steps-QuietRun (go bucket prefix ∷ es) before (rw idle (omega arith)) calm in
      let c = QuietRun-IsCurrent Serves current r in
      let (b, p) = steps-IsInSync bucket prefix before es fresh ends shown in
      let v = steps (go bucket prefix ∷ es) before in
      subst (λ t. ServesAll Serves t v.prefix v.browser.state.objects) b
        (subst (λ t. ServesAll Serves v.browser.state.bucket t v.browser.state.objects) p c.shown)
