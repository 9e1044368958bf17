-- ===== src/Store/Browser/Session.antt =====
-- web/src/store/browser.ts with requests in flight: answers arrive in any order.
use pier_s3_gateway.Prelude.{
  false, List, [], ◌∷◌, ◌≡◌, refl, none, some, Text, codes, All, All-append,
}
use pier_s3_gateway.Client.{Failure, Answer, success, failure, error_message}
use pier_s3_gateway.Store.Browser.{
  ObjectInfo, ListObjectsResponse, BrowserState, or_default, fetch_objects, fetch_objects_done,
  Snapshot, load_more, load_more_done,
}
use pier_s3_gateway.Store.Browser.Paging.{load_more-eq-some}

pub data Request : Type 0 where
  listing : Text → Text → Request
  more : Snapshot → Request

-- What an action does with its answer.
unfoldable pub settle : Request → Answer ListObjectsResponse → BrowserState → BrowserState
unfolding fetch_objects_done load_more_done
settle (listing bucket prefix) a s = fetch_objects_done a s
settle (more sn) a s = load_more_done sn a s

pub record World : Type 0 where
  pub state : BrowserState
  pub pending : List Request

abbrev world : BrowserState → List Request → World
world s rs = record { state = s; pending = rs }

-- The server serves an object under a bucket and a prefix.
module _ (Serves : Text → Text → ObjectInfo → Type 0) where
  abbrev pub ServesAll : Text → Text → List ObjectInfo → Type 0
  ServesAll bucket prefix = All (Serves bucket prefix)

  -- An answer holds objects that are served where the request asked for them.
  abbrev pub IsHonest : Request → Answer ListObjectsResponse → Type 0
  IsHonest (listing bucket prefix) (success r) = ServesAll bucket prefix (or_default r.objects [])
  IsHonest (more sn) (success r) = ServesAll sn.bucket sn.prefix (or_default r.objects [])
  IsHonest _ (failure _) = Unit

  -- The page calls an action only when no answer is awaited.
  pub data QuietStep : World → World → Type 0 where
    fetch :
        {w : World} (bucket prefix : Text)
        → w.pending ≡ []
        → QuietStep w (world (fetch_objects bucket prefix w.state) (listing bucket prefix ∷ []))
    load :
        {w : World} (sn : Snapshot) (s : BrowserState)
        → w.pending ≡ []
        → load_more w.state ≡ some (sn, s)
        → QuietStep w (world s (more sn ∷ []))
    answer :
        {w : World} (r : Request) (a : Answer ListObjectsResponse)
        → w.pending ≡ r ∷ []
        → IsHonest r a
        → QuietStep w (world (settle r a w.state) [])

  pub data QuietRun (w : World) : World → Type 0 where
    here : QuietRun w w
    next : {u v : World} → QuietRun w u → QuietStep u v → QuietRun w v

  -- What a request in flight knows agrees with the state.
  abbrev Agrees : Request → BrowserState → Type 0
  Agrees (listing bucket prefix) s = (bucket ≡ s.bucket) × (prefix ≡ s.prefix)
  Agrees (more sn) s =
      (sn.bucket ≡ s.bucket) × (sn.prefix ≡ s.prefix) × ServesAll sn.bucket sn.prefix sn.objects

  -- Every object on screen is served under the bucket and the prefix on screen.
  pub record IsCurrent (w : World) : Type 0 where
    pub shown : ServesAll w.state.bucket w.state.prefix w.state.objects
    pub awaited : All (λ r. Agrees r w.state) w.pending

  settle-ServesAll :
      (r : Request) (a : Answer ListObjectsResponse) (s : BrowserState)
      → IsHonest r a
      → Agrees r s
      → ServesAll s.bucket s.prefix s.objects
      → ServesAll (settle r a s).bucket (settle r a s).prefix (settle r a s).objects
  unfolding settle
  settle-ServesAll (listing b p) (success r) s h (eb, ep) k = rw (← eb, ← ep) h
  settle-ServesAll (listing b p) (failure e) s h g k = k
  settle-ServesAll (more sn) (success r) s h (eb, ep, g) k =
      rw (← eb, ← ep) (All-append (Serves sn.bucket sn.prefix) sn.objects _ g h)
  settle-ServesAll (more sn) (failure e) s h g k = k

  QuietStep-IsCurrent : {w u : World} → QuietStep w u → IsCurrent w → IsCurrent u
  QuietStep-IsCurrent (fetch b p quiet) v =
      unfold fetch_objects in record { shown = tt; awaited = ((refl, refl), tt) }
  QuietStep-IsCurrent {w} (load sn s quiet e) v =
      let (_, same, after) = load_more-eq-some w.state s sn e in
      rw (after, same) (record { shown = v.shown; awaited = ((refl, refl, v.shown), tt) })
  QuietStep-IsCurrent {w} (answer r a e h) v = record {
    shown = settle-ServesAll r a w.state h (rw e at (v.awaited)).0 v.shown;
    awaited = tt;
  }

  -- As long as the page starts no request while another is in flight, and the server's answers hold
  -- only objects of the bucket and prefix asked for, every object on screen belongs to the bucket
  -- and the prefix on screen, whatever is fetched, loaded, answered or refused.
  pub QuietRun-IsCurrent : {w u : World} → IsCurrent w → QuietRun w u → IsCurrent u
  QuietRun-IsCurrent v here = v
  QuietRun-IsCurrent v (next r st) = QuietStep-IsCurrent st (QuietRun-IsCurrent v r)

-- With two fetches in flight whose answers arrive in the other order, the store names the bucket
-- and the prefix of the second and lists the objects of the first.
pub stale_listing :
    (a p b q : Text) (ra rb : ListObjectsResponse) (s : BrowserState)
    → let opened = fetch_objects b q (fetch_objects a p s) in
      let t = settle (listing a p) (success ra) (settle (listing b q) (success rb) opened) in
      (t.bucket ≡ b) × (t.prefix ≡ q) × (t.objects ≡ or_default ra.objects [])
unfolding settle fetch_objects
stale_listing a p b q ra rb s = (refl, refl, refl)

-- A `fetchObjects` that fails leaves no object, prefix or token of the listing before it, names the
-- requested bucket and prefix, is no longer loading and shows an error.
pub fetch_objects_failed :
    (bucket prefix : Text) (err : Failure) (s : BrowserState)
    → let t = settle (listing bucket prefix) (failure err) (fetch_objects bucket prefix s) in
      (t.bucket ≡ bucket)
      × (t.prefix ≡ prefix)
      × (t.objects ≡ [])
      × (t.prefixes ≡ [])
      × (t.next_page_token ≡ none)
      × (t.loading ≡ false)
      × (t.error ≡ some (error_message err (codes "Failed to load objects")))
unfolding settle fetch_objects
fetch_objects_failed bucket prefix err s = (refl, refl, refl, refl, refl, refl, refl)
