-- ===== src/View/Pages/Visit.antt =====
-- web/src/pages/Browser.tsx with the two stores: a visit, from one URL to the next. The list of buckets may
-- be answered at any time, since other components ask for it too; answers of listings come in any order.
-- The search parameters of the URL give back the prefix that they were set to.
pub mod InSync
pub mod Owned
use pier_s3_gateway.Prelude.{
  ℕ, zero, suc, Bool, true, false, not, ◌&&◌, List, [], ◌∷◌, ◌++◌, ◌≡◌, refl, sym, ap, ◌∙◌, arith,
  Option, none, some, if◌then◌else◌, Text, text_eq, taken, same_bool, text_eq_iff, Bool-cases, inl,
  inr,
}
use pier_s3_gateway.Client.{Answer, success, failure, truthy, text_of}
use pier_s3_gateway.Store.Browser.{
  ObjectInfo, ListObjectsResponse, BrowserState, Snapshot, initial, fetch_objects,
  fetch_objects_done, load_more, load_more_done,
}
use pier_s3_gateway.Store.Browser.Session.{Request, listing, more, settle, World}
use pier_s3_gateway.Store.Buckets.{BucketInfo, BucketsState, fetch_buckets_done}
use pier_s3_gateway.Store.Buckets.Merge.{find_bucket}
use pier_s3_gateway.View.Pages.{
  can_read, listing_request, navigate_prefix, refresh_request, browser_page, Section,
  object_browser,
}
use pier_s3_gateway.View.Pages.Access.{shows}

-- The dependencies of the effect: the bucket and the prefix of the URL, and whether it may be read.
pub record Deps : Type 0 where
  pub bucket : Option Text
  pub prefix : Text
  pub readable : Bool

pub record Visit : Type 0 where
  pub bucket : Option Text
  pub prefix : Text
  pub buckets : BucketsState
  pub browser : World
  -- The uploads and deletions that run, each with the place of the page on which it began: the
  -- `handleRefresh` that it calls at its end is the one of that page.
  pub tasks : List (Option Text × Text)
  -- The dependencies of the last run of the effect.
  pub ran : Option Deps

abbrev pub readable : Option Text → List BucketInfo → Bool
readable none buckets = true
readable (some bucket) buckets = can_read bucket buckets

abbrev pub deps_of : Visit → Deps
deps_of v = record {
  bucket = v.bucket;
  prefix = v.prefix;
  readable = readable v.bucket v.buckets.buckets;
}

abbrev same_text? : Option Text → Option Text → Bool
same_text? none none = true
same_text? (some a) (some b) = text_eq a b
same_text? _ _ = false

abbrev same_deps : Option Deps → Deps → Bool
same_deps none d = false
same_deps (some c) d =
    same_text? c.bucket d.bucket && (text_eq c.prefix d.prefix && same_bool c.readable d.readable)

abbrev asked : Option (Text × Text) → World → World
asked none w = w
asked (some (bucket, prefix)) w = record {
  state = fetch_objects bucket prefix w.state;
  pending = listing bucket prefix ∷ w.pending;
}

-- The effect of the page, which runs when its dependencies have changed.
unfoldable pub run_effect : Visit → Visit
unfolding listing_request text_eq
run_effect v = if same_deps v.ran (deps_of v) then v else record v {
  ran = some (deps_of v);
  browser = asked (listing_request v.bucket v.prefix v.buckets.buckets) v.browser;
}

pub data Event : Type 0 where
  -- A link, the history or a reload leads to this bucket and prefix.
  go : Option Text → Text → Event
  open_prefix : Text → Event
  -- The button beside an error.
  retry more_objects : Event
  -- An upload or a deletion begins, and the n-th of those that run succeeds.
  begin_task : Event
  task_done : ℕ → Event
  buckets_answered : Answer (List BucketInfo) → Event
  -- The answer to the n-th of the listings that are awaited.
  listing_answered : ℕ → Answer ListObjectsResponse → Event

abbrev loaded_more : World → Option (Snapshot × BrowserState) → World
loaded_more w none = w
loaded_more w (some (sn, s)) = record { state = s; pending = more sn ∷ w.pending }

abbrev settled : Option (Request × List Request) → Answer ListObjectsResponse → World → World
settled none a w = w
settled (some (r, rs)) a w = record { state = settle r a w.state; pending = rs }

-- `handleRefresh` of the page for a bucket and a prefix.
abbrev refreshed : Option Text → Text → Visit → Visit
refreshed bucket prefix v = record v { browser = asked (refresh_request bucket prefix) v.browser }

abbrev finished : Option ((Option Text × Text) × List (Option Text × Text)) → Visit → Visit
finished none v = v
finished (some ((bucket, prefix), rest)) v = refreshed bucket prefix (record v { tasks = rest })

-- What an event changes before the page is drawn again.
unfoldable pub handle : Event → Visit → Visit
unfolding fetch_objects load_more settle fetch_buckets_done
handle (go bucket prefix) v = record v { bucket = bucket; prefix = prefix }
handle (open_prefix prefix) v = record v { prefix = text_of (navigate_prefix prefix) }
handle retry v = refreshed v.bucket v.prefix v
handle begin_task v = record v { tasks = (v.bucket, v.prefix) ∷ v.tasks }
handle (task_done n) v = finished (taken n v.tasks) v
handle more_objects v = record v { browser = loaded_more v.browser (load_more v.browser.state) }
handle (buckets_answered a) v = record v { buckets = fetch_buckets_done a v.buckets }
handle (listing_answered n a) v = record v {
  browser = settled (taken n v.browser.pending) a v.browser;
}

unfoldable pub step : Event → Visit → Visit
unfolding run_effect handle
step e v = run_effect (handle e v)

unfoldable pub steps : List Event → Visit → Visit
unfolding step
steps [] v = v
steps (e ∷ es) v = steps es (step e v)

-- An upload or a deletion ends on the page on which it began.
abbrev pub EndsHere : Option ((Option Text × Text) × List (Option Text × Text)) → Visit → Type 0
EndsHere none v = Unit
EndsHere (some ((bucket, prefix), rest)) v = (bucket ≡ v.bucket) × (prefix ≡ v.prefix)

abbrev pub EndsWhereBegun : Event → Visit → Type 0
EndsWhereBegun (task_done n) v = EndsHere (taken n v.tasks) v
EndsWhereBegun (go bucket prefix) v = Unit
EndsWhereBegun (open_prefix prefix) v = Unit
EndsWhereBegun retry v = Unit
EndsWhereBegun more_objects v = Unit
EndsWhereBegun begin_task v = Unit
EndsWhereBegun (buckets_answered a) v = Unit
EndsWhereBegun (listing_answered n a) v = Unit

abbrev pub EndWhereBegun : List Event → Visit → Type 0
EndWhereBegun [] v = Unit
EndWhereBegun (e ∷ es) v = EndsWhereBegun e v × EndWhereBegun es (step e v)
