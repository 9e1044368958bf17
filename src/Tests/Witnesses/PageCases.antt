-- ===== src/Tests/Witnesses/PageCases.antt =====
-- web/src/pages: the theorems at concrete visits.
use pier_s3_gateway.Prelude.{
  split, ℕ, true, false, List, [], ◌∷◌, ◌≡◌, refl, none, some, arith, Text, codes,
}
use pier_s3_gateway.Client.{Answer, success}
use pier_s3_gateway.Client.Download.{Urls}
use pier_s3_gateway.Client.Paths.Clean.{is_addressable, are_clean, mark}
use pier_s3_gateway.Client.Paths.Segments.{IsText}
use pier_s3_gateway.Store.Browser.{ObjectInfo, ListObjectsResponse, initial}
use pier_s3_gateway.Store.Browser.Session.{ServesAll}
use pier_s3_gateway.Store.Buckets.{BucketInfo, BucketStats, BucketsState}
use pier_s3_gateway.View.Downloads.{
  Network, IsDownload, handle_download, trigger_download, downloads-IsDownload,
}
use pier_s3_gateway.View.Pages.{browser_page}
use pier_s3_gateway.View.Pages.Overview
use pier_s3_gateway.View.Pages.Overview.Covered.{IsCovered, open_names, steps-IsCovered}
use pier_s3_gateway.View.Pages.Visit.{
  Visit, Event, go, open_prefix, retry, begin_task, task_done, buckets_answered, listing_answered,
  steps,
}
use pier_s3_gateway.View.Pages.Visit.InSync.{steps-IsInSync}
use pier_s3_gateway.View.Pages.Visit.Owned.{IsCalm, steps-ServesAll}
use pier_s3_gateway.Preview.Table.{base_name}
use pier_s3_gateway.View.Rows.{file_name}

abbrev bucket_named : Text → BucketInfo
bucket_named name = record {
  name = name;
  permissions = record { read = true; write = false; delete = none };
  object_count = none;
  size_bytes = none;
  stats_truncated = none;
  quota_bytes = none;
}

abbrev no_buckets : BucketsState
no_buckets = record { buckets = []; loading = false; error = none; stats_requested = [] }

abbrev fresh : Visit
fresh = record {
  bucket = none;
  prefix = [];
  buckets = no_buckets;
  browser = record { state = initial; pending = [] };
  tasks = [];
  ran = none;
}

abbrev reply : ListObjectsResponse
reply = record {
  objects = some (
      record { key = codes "b"; size_bytes = 1; last_modified = []; etag = []; is_prefix = false }
      ∷ []);
  prefixes = none;
  next_page_token = none;
  truncated = some false;
}

-- A visit that goes on before the first answer is in.
abbrev hasty : List Event
hasty =
    buckets_answered (success (bucket_named (codes "data") ∷ []))
    ∷ open_prefix (codes "d/")
    ∷ listing_answered 1 (success reply)
    ∷ begin_task
    ∷ task_done 0
    ∷ retry
    ∷ []

steps-IsInSync_example :
    ((steps (go (some (codes "data")) [] ∷ hasty) fresh).browser.state.bucket ≡ codes "data")
    × ((steps (go (some (codes "data")) [] ∷ hasty) fresh).browser.state.prefix ≡ codes "d/")
unfolding steps browser_page
steps-IsInSync_example =
    steps-IsInSync (some (codes "data")) [] fresh hasty refl
      (tt, (tt, (tt, (tt, (tt, ((refl, refl), (tt, tt))))))) refl

-- An upload that began in one folder and ends in another lists the first one there.
late_upload :
    let v =
      steps
        (go (some (codes "data")) (codes "a/")
          ∷ begin_task
          ∷ open_prefix (codes "b/")
          ∷ task_done 0
          ∷ [])
        fresh in
    (v.prefix ≡ codes "b/") × (v.browser.state.prefix ≡ codes "a/")
unfolding steps
late_upload = (refl, refl)

-- A server that serves the object `b` everywhere and nothing else.
abbrev Serves : Text → Text → ObjectInfo → Type 0
Serves bucket prefix o = o.key ≡ codes "b"

abbrev calm : List Event
calm = listing_answered 0 (success reply) ∷ []

calm-IsCalm : IsCalm Serves (go (some (codes "data")) [] ∷ calm) fresh
unfolding steps
calm-IsCalm = (omega arith, tt, (omega arith, (refl, tt), tt))

steps-ServesAll_example :
    ServesAll Serves
      (codes "data")
      []
      (steps (go (some (codes "data")) [] ∷ calm) fresh).browser.state.objects
unfolding steps browser_page
steps-ServesAll_example =
    steps-ServesAll Serves (some (codes "data")) [] fresh calm refl refl
      (record { shown = tt; awaited = tt }) calm-IsCalm (tt, (tt, tt)) refl

abbrev full_list : Overview.Overview
full_list = record {
  store = record no_buckets { buckets = bucket_named (codes "a") ∷ bucket_named (codes "b") ∷ [] };
  jobs = [];
}

abbrev b_stats : BucketStats
b_stats = record {
  bucket = codes "b";
  object_count = 3;
  size_bytes = 10;
  truncated = false;
  quota_bytes = none;
}

abbrev answers : List Overview.Event
answers = Overview.name_answered 0 1 (success b_stats) ∷ []

steps-IsCovered_example :
    let v = Overview.steps answers (Overview.run_effect full_list) in
    IsCovered v.store
    × ((j i : ℕ) (a : Answer BucketStats)
        → open_names (Overview.step (Overview.name_answered j i a) v).jobs
          ≡ open_names (Overview.stats_in j i a v).jobs)
steps-IsCovered_example = steps-IsCovered full_list answers

data_name-IsText : IsText (codes "data")
data_name-IsText = (ground arith, refl)

key-IsText : IsText (codes "d/a b")
key-IsText = (ground arith, refl)

key_addressable : is_addressable (codes "data") (codes "d/a b") ≡ true
unfolding mark are_clean split
key_addressable = refl

abbrev all_there : Network
all_there path authorization = some (record { status = 200; body = some 9 })

abbrev one_url : Urls
one_url = record { live = (0, 7) ∷ []; next_url = 1 }

downloads-IsDownload_example :
    (path : Text) × IsDownload all_there
      (some (codes "t"))
      false
      (codes "failed")
      (file_name (codes "d/a b"))
      (codes "data")
      (codes "d/a b")
      path
      one_url
      (handle_download all_there
        (some (codes "t"))
        false
        (codes "failed")
        (codes "data")
        (codes "d/a b")
        one_url)
    × IsDownload all_there
        (some (codes "t"))
        false
        (codes "failed")
        (base_name (codes "d/a b"))
        (codes "data")
        (codes "d/a b")
        path
        one_url
        (trigger_download all_there
          (some (codes "t"))
          false
          (codes "failed")
          (codes "data")
          (codes "d/a b")
          one_url)
downloads-IsDownload_example =
    downloads-IsDownload all_there (some (codes "t")) false (codes "failed") (codes "data")
      (codes "d/a b") one_url data_name-IsText key-IsText key_addressable (omega arith, tt)
