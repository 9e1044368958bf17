-- ===== src/Store/Browser/Paging.antt =====
-- web/src/store/browser.ts: a listing that is loaded page by page.
use pier_s3_gateway.Prelude.{
  Bool, true, false, List, [], ◌∷◌, ◌++◌, ◌≡◌, ◌∙◌, Option, none, some, append-nil, append_assoc,
  arith, Text, is_empty, All,
}
use pier_s3_gateway.Client.{Failure, success, failure, truthy}
use pier_s3_gateway.Store.Browser.{
  ObjectInfo, ListObjectsResponse, BrowserState, fetch_objects, fetch_objects_done, Snapshot,
  snapshot, load_more, load_more_done,
}

-- A page that the server has, and the token under which it gives it out.
pub record Page : Type 0 where
  pub objects : List ObjectInfo
  pub prefixes : List Text
  pub token : Text

abbrev pub next_token : List Page → Option Text
next_token [] = none
next_token (p ∷ _) = some p.token

abbrev pub more_pages : List Page → Bool
more_pages [] = false
more_pages (_ ∷ _) = true

-- The response for a page that these pages follow.
abbrev pub response : Page → List Page → ListObjectsResponse
response p rest = record {
  objects = some p.objects;
  prefixes = some p.prefixes;
  next_page_token = next_token rest;
  truncated = some (more_pages rest);
}

-- `loadMore` once for each page, each answered before the next.
pub load_all : List Page → BrowserState → BrowserState
load_all [] s = s
load_all (p ∷ rest) s = elim (load_more s) [
  | none ↦ s
  | some (sn, s') ↦ load_all rest (load_more_done sn (success (response p rest)) s')
]

-- `fetchObjects`, then `loadMore` until no page is left.
pub browse : Text → Text → Page → List Page → BrowserState → BrowserState
browse bucket prefix p rest s =
    load_all rest (fetch_objects_done (success (response p rest)) (fetch_objects bucket prefix s))

abbrev pub all_objects : List Page → List ObjectInfo
all_objects [] = []
all_objects (p ∷ rest) = p.objects ++ all_objects rest

abbrev pub all_prefixes : List Page → List Text
all_prefixes [] = []
all_prefixes (p ∷ rest) = p.prefixes ++ all_prefixes rest

abbrev pub HasToken : Page → Type 0
HasToken p = is_empty p.token ≡ false

abbrev listed : Text → Text → List ObjectInfo → List Text → List Page → BrowserState
listed bucket prefix objects prefixes rest = record {
  bucket = bucket;
  prefix = prefix;
  objects = objects;
  prefixes = prefixes;
  loading = false;
  error = none;
  next_page_token = next_token rest;
  truncated = more_pages rest;
}

pub load_more_on :
    (s : BrowserState)
    → truthy s.next_page_token ≡ true
    → load_more s ≡ some (snapshot s, record s { loading = true })
unfolding load_more
load_more_on s h = rw (h, load_more)

pub load_more-eq-some :
    (s s' : BrowserState) (sn : Snapshot)
    → load_more s ≡ some (sn, s')
    → (truthy s.next_page_token ≡ true) × (sn ≡ snapshot s) × (s' ≡ record s { loading = true })
unfolding load_more
load_more-eq-some s s' sn h = ground arith

load_all-listed :
    (bucket prefix : Text) (objects : List ObjectInfo) (prefixes : List Text) (rest : List Page)
    → All HasToken rest
    → load_all rest (listed bucket prefix objects prefixes rest)
      ≡ listed bucket prefix (objects ++ all_objects rest) (prefixes ++ all_prefixes rest) []
unfolding load_all load_more_done
load_all-listed bucket prefix objects prefixes [] h = rw (append-nil objects, append-nil prefixes)
load_all-listed bucket prefix objects prefixes (p ∷ rest) (h, hs) =
    let on = load_more_on (listed bucket prefix objects prefixes (p ∷ rest)) (rw h) in
    rw (on, load_all)
      (load_all-listed bucket prefix (objects ++ p.objects) (prefixes ++ p.prefixes) rest hs
        ∙ rw (append_assoc objects p.objects, append_assoc prefixes p.prefixes))

-- From any state, fetching the first page and loading more until the server has no page left shows
-- the objects and the prefixes of all pages, one page behind the other in the server's order, under the
-- requested bucket and prefix, with no token, error, loading or truncation mark left. The pages
-- behind the first are given out under tokens that are not empty.
pub browse_lem :
    (bucket prefix : Text) (p : Page) (rest : List Page) (s : BrowserState)
    → All HasToken rest
    → browse bucket prefix p rest s ≡ record {
      bucket = bucket;
      prefix = prefix;
      objects = all_objects (p ∷ rest);
      prefixes = all_prefixes (p ∷ rest);
      loading = false;
      error = none;
      next_page_token = none;
      truncated = false;
    }
unfolding browse fetch_objects fetch_objects_done
browse_lem bucket prefix p rest s h = load_all-listed bucket prefix p.objects p.prefixes rest h

-- A failed `loadMore` keeps the listing and the token: what the next call sends and builds on is
-- what this one did.
pub load_more_retry :
    (s s' : BrowserState) (sn : Snapshot) (err : Failure)
    → load_more s ≡ some (sn, s')
    → (t : BrowserState) × (load_more (load_more_done sn (failure err) s') ≡ some (sn, t))
unfolding load_more_done
load_more_retry s s' sn err h =
    let (on, same, next) = load_more-eq-some s s' sn h in
    (
      record (load_more_done sn (failure err) s') { loading = true },
      rw (next, same) (load_more_on _ on),
    )

-- Two overlapping calls of `loadMore` that get the same page append it once.
pub load_more_twice :
    (s s' s'' : BrowserState) (sn sn' : Snapshot) (r : ListObjectsResponse)
    → load_more s ≡ some (sn, s')
    → load_more s' ≡ some (sn', s'')
    → load_more_done sn' (success r) (load_more_done sn (success r) s'')
      ≡ load_more_done sn (success r) s'
unfolding load_more_done
load_more_twice s s' s'' sn sn' r h k =
    let (_, first, after) = load_more-eq-some s s' sn h in
    let (_, second, last) = load_more-eq-some s' s'' sn' k in rw (last, second, after, first)
