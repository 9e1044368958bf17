-- ===== src/Store/Browser/Refinement.antt =====
-- web/src/store/browser.ts as a cursor: what the store promises the pages, without how it keeps it.
pub mod Simulation
use pier_s3_gateway.Prelude.{
  ◌⊎◌, Bool, true, false, not, List, [], ◌∷◌, ◌++◌, ◌≡◌, ◌≢◌, refl, sym, ap, ◌∙◌, subst, Option,
  none, some, arith, Text, is_empty, text_eq, text_eq_iff, if◌then◌else◌, All, append_assoc,
  append-nil, Bool-cases, inl, inr,
}
use pier_s3_gateway.Client.{Failure, Answer, success, failure, truthy, text_of}
use pier_s3_gateway.Store.Browser.{
  ObjectInfo, ListObjectsResponse, BrowserState, Snapshot, snapshot, initial, fetch_objects,
  fetch_objects_done, load_more, load_more_done,
}
use pier_s3_gateway.Store.Browser.Paging.{
  Page, response, all_objects, all_prefixes, HasToken, next_token, more_pages,
}
use pier_s3_gateway.Store.Browser.Session.{Request, listing, more, settle, World}

abbrev pub AreDistinct : List Page → Type 0
AreDistinct [] = Unit
AreDistinct (p ∷ ps) = All (λ q. text_eq p.token q.token ≡ false) ps × AreDistinct ps

-- A server: the pages of each bucket and prefix, in their order. Each page but the first is asked for under a
-- token of its own, which is not empty.
pub record Server : Type 0 where
  pub first : Text → Text → Page
  pub others : Text → Text → List Page
  pub distinct : (bucket prefix : Text) → AreDistinct (others bucket prefix)
  pub tokens : (bucket prefix : Text) → All HasToken (others bucket prefix)

-- The page of a token and those behind it.
unfoldable pub page_at : Text → List Page → List Page
unfolding text_eq
page_at token [] = []
page_at token (p ∷ ps) = if text_eq p.token token then p ∷ ps else page_at token ps

abbrev respond : List Page → ListObjectsResponse
respond [] = record { objects = none; prefixes = none; next_page_token = none; truncated = none }
respond (p ∷ rest) = response p rest

-- What the server answers to a request.
unfoldable pub serve : Server → Request → ListObjectsResponse
unfolding page_at
serve server (listing bucket prefix) =
    response (server.first bucket prefix) (server.others bucket prefix)
serve server (more sn) = respond (page_at sn.page_token (server.others sn.bucket sn.prefix))

-- What a page asks for, and what becomes of the request in flight.
pub data Action : Type 0 where
  open_listing : Text → Text → Action
  ask_more : Action
  answered : Action
  refused : Failure → Action

abbrev pub world : BrowserState → List Request → World
world s rs = record { state = s; pending = rs }

abbrev after_more : BrowserState → Option (Snapshot × BrowserState) → World
after_more s none = world s []
after_more s (some (sn, t)) = world t (more sn ∷ [])

abbrev answer_to : List Request → (Request → Answer ListObjectsResponse) → BrowserState → World
answer_to [] reply s = world s []
answer_to (r ∷ rs) reply s = world (settle r (reply r) s) rs

abbrev when_idle : List Request → World → World → World
when_idle [] w busy = w
when_idle (_ ∷ _) w busy = busy

-- The store with one request in flight at most: an action that would start another is left out.
unfoldable pub act : Server → Action → World → World
unfolding serve
act server (open_listing bucket prefix) w =
    when_idle w.pending (world (fetch_objects bucket prefix w.state) (listing bucket prefix ∷ [])) w
act server ask_more w = when_idle w.pending (after_more w.state (load_more w.state)) w
act server answered w = answer_to w.pending (λ r. success (serve server r)) w.state
act server (refused err) w = answer_to w.pending (λ r. failure err) w.state

-- The cursor: the pages of the listing that were read, and those that were not.
pub record Cursor : Type 0 where
  pub bucket : Text
  pub prefix : Text
  pub done : List Page
  pub left : List Page
  -- A request is in flight.
  pub busy : Bool

abbrev advance : List Page → List Page → Cursor → Cursor
advance done [] c = record c { busy = false }
advance done (p ∷ rest) c = record c { done = done ++ p ∷ []; left = rest; busy = false }

abbrev has_more : Cursor → Bool
has_more c = elim c.done [ [] ↦ false | _ ∷ _ ↦ elim c.left [ [] ↦ false | _ ∷ _ ↦ true ] ]

unfoldable pub move : Server → Action → Cursor → Cursor
move server (open_listing bucket prefix) c = if c.busy then c else record {
  bucket = bucket;
  prefix = prefix;
  done = [];
  left = server.first bucket prefix ∷ server.others bucket prefix;
  busy = true;
}
move server ask_more c = if c.busy then c else if has_more c then record c { busy = true } else c
move server answered c = if c.busy then advance c.done c.left c else c
move server (refused err) c = record c { busy = false }

unfoldable pub moves : Server → List Action → Cursor → Cursor
unfolding move
moves server [] c = c
moves server (a ∷ rest) c = moves server rest (move server a c)

unfoldable pub acts : Server → List Action → World → World
unfolding act
acts server [] w = w
acts server (a ∷ rest) w = acts server rest (act server a w)

-- The token to go on with, and whether there is one.
abbrev pub token_of : List Page → List Page → Option Text
token_of [] left = none
token_of (_ ∷ _) left = next_token left

abbrev pub truncated_of : List Page → List Page → Bool
truncated_of [] left = false
truncated_of (_ ∷ _) left = more_pages left

-- The state that a cursor stands for; the error is not part of the promise.
abbrev pub shown : Cursor → Option Text → BrowserState
shown c err = record {
  bucket = c.bucket;
  prefix = c.prefix;
  objects = all_objects c.done;
  prefixes = all_prefixes c.done;
  loading = c.busy;
  error = err;
  next_page_token = token_of c.done c.left;
  truncated = truncated_of c.done c.left;
}

abbrev pub request_of : Cursor → List Page → Request
request_of c [] = listing c.bucket c.prefix
request_of c (_ ∷ _) = more (record {
  bucket = c.bucket;
  prefix = c.prefix;
  page_token = text_of (token_of c.done c.left);
  objects = all_objects c.done;
  prefixes = all_prefixes c.done;
})

abbrev pub awaited : Cursor → List Request
awaited c = if c.busy then request_of c c.done ∷ [] else []

-- A cursor over the server's pages, or one that was never set.
pub record IsReading (server : Server) (c : Cursor) : Type 0 where
  pub pages :
      ((c.done ≡ []) × (c.left ≡ []))
      ⊎ (c.done ++ c.left ≡ server.first c.bucket c.prefix ∷ server.others c.bucket c.prefix)
  pub some_left : c.busy ≡ true → c.left ≢ []

-- The store holds what the cursor promises.
pub record Refines (server : Server) (w : World) (c : Cursor) : Type 0 where
  pub reading : IsReading server c
  pub error : Option Text
  pub state : w.state ≡ shown c error
  pub pending : w.pending ≡ awaited c
