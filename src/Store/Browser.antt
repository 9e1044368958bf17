-- ===== src/Store/Browser.antt =====
-- web/src/store/browser.ts. An asynchronous action is split where it waits: what it does before
-- the request, and what it does with the answer, which may find any state.
pub mod Paging
pub mod Refinement
pub mod Session
use pier_s3_gateway.Prelude.{
  ℕ, Bool, true, false, List, [], ◌∷◌, ◌++◌, Option, none, some, Text, codes,
}
use pier_s3_gateway.Client.{Failure, error_message, Answer, success, failure, truthy, text_of}

pub record ObjectInfo : Type 0 where
  pub key : Text
  pub size_bytes : ℕ
  pub last_modified : Text
  pub etag : Text
  pub is_prefix : Bool

pub record ListObjectsResponse : Type 0 where
  pub objects : Option (List ObjectInfo)
  pub prefixes : Option (List Text)
  pub next_page_token : Option Text
  pub truncated : Option Bool

pub record BrowserState : Type 0 where
  pub bucket : Text
  pub prefix : Text
  pub objects : List ObjectInfo
  pub prefixes : List Text
  pub loading : Bool
  pub error : Option Text
  pub next_page_token : Option Text
  pub truncated : Bool

-- `??`
abbrev pub or_default {ℓ} : {A : Type ℓ} → Option A → A → A
or_default none d = d
or_default (some a) d = a

abbrev pub initial : BrowserState
initial = record {
  bucket = [];
  prefix = [];
  objects = [];
  prefixes = [];
  loading = false;
  error = none;
  next_page_token = none;
  truncated = false;
}

unfoldable pub set_bucket : Text → BrowserState → BrowserState
set_bucket bucket s = record s { bucket = bucket; prefix = []; objects = []; prefixes = [] }

unfoldable pub set_prefix : Text → BrowserState → BrowserState
set_prefix prefix s = record s { prefix = prefix }

-- `fetchObjects` up to its request.
unfoldable pub fetch_objects : Text → Text → BrowserState → BrowserState
fetch_objects bucket prefix s = record {
  bucket = bucket;
  prefix = prefix;
  objects = [];
  prefixes = [];
  loading = true;
  error = none;
  next_page_token = none;
  truncated = false;
}

unfoldable pub fetch_objects_done : Answer ListObjectsResponse → BrowserState → BrowserState
fetch_objects_done (success r) s = record s {
  objects = or_default r.objects [];
  prefixes = or_default r.prefixes [];
  next_page_token = r.next_page_token;
  truncated = or_default r.truncated false;
  loading = false;
}
fetch_objects_done (failure err) s = record s {
  error = some (error_message err (codes "Failed to load objects"));
  loading = false;
}

-- What `loadMore` reads from the state before its request.
pub record Snapshot : Type 0 where
  pub bucket : Text
  pub prefix : Text
  pub page_token : Text
  pub objects : List ObjectInfo
  pub prefixes : List Text

abbrev pub snapshot : BrowserState → Snapshot
snapshot s = record {
  bucket = s.bucket;
  prefix = s.prefix;
  page_token = text_of s.next_page_token;
  objects = s.objects;
  prefixes = s.prefixes;
}

-- `loadMore` up to its request; none when it returns at once.
unfoldable pub load_more : BrowserState → Option (Snapshot × BrowserState)
load_more s = elim (truthy s.next_page_token) [
  | true ↦ some (snapshot s, record s { loading = true })
  | false ↦ none
]

unfoldable pub load_more_done : Snapshot → Answer ListObjectsResponse → BrowserState → BrowserState
load_more_done sn (success r) s = record s {
  objects = sn.objects ++ or_default r.objects [];
  prefixes = sn.prefixes ++ or_default r.prefixes [];
  next_page_token = r.next_page_token;
  truncated = or_default r.truncated false;
  loading = false;
}
load_more_done sn (failure err) s = record s {
  error = some (error_message err (codes "Failed to load more"));
  loading = false;
}
