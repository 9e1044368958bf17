-- ===== src/View/Pages/Visit/InSync.antt =====
-- web/src/pages/Browser.tsx: the listing on the page is the one of the URL.
use pier_s3_gateway.Prelude.{
  Bool, true, false, List, [], ◌∷◌, ◌≡◌, refl, sym, ap, subst, ◌∙◌, arith, Option, none, some, Text,
  text_eq, text_eq_iff, taken, same_bool, Bool-cases, inl, inr,
}
use pier_s3_gateway.Client.{Answer, success, failure, truthy, text_of}
use pier_s3_gateway.Store.Browser.{
  ListObjectsResponse, BrowserState, Snapshot, fetch_objects, fetch_objects_done, load_more,
  load_more_done,
}
use pier_s3_gateway.Store.Browser.Paging.{load_more-eq-some}
use pier_s3_gateway.Store.Browser.Session.{Request, listing, more, settle, World}
use pier_s3_gateway.Store.Buckets.{BucketInfo}
use pier_s3_gateway.View.Pages.{listing_request, refresh_request, browser_page, object_browser}
use pier_s3_gateway.View.Pages.Access.{shows}
use pier_s3_gateway.View.Pages.Visit.{
  Deps, Visit, readable, deps_of, same_text?, same_deps, asked, run_effect, Event, go, open_prefix,
  retry, begin_task, task_done, EndsHere, EndsWhereBegun, EndWhereBegun, finished, more_objects,
  buckets_answered, listing_answered, handle, step, steps, loaded_more, settled,
}

same_text?-eq : (a b : Option Text) → same_text? a b ≡ true → a ≡ b
same_text?-eq none none h = refl
same_text?-eq none (some b) h = cc
same_text?-eq (some a) none h = cc
same_text?-eq (some a) (some b) h = ap some ((text_eq_iff a b).0 h)

same_bool-eq : (a b : Bool) → same_bool a b ≡ true → a ≡ b
same_bool-eq true b h = sym h
same_bool-eq false false h = refl
same_bool-eq false true h = cc

same_deps-eq : (o : Option Deps) (d : Deps) → same_deps o d ≡ true → o ≡ some d
same_deps-eq none d h = cc
same_deps-eq (some c) d h =
    let p : same_text? c.bucket d.bucket ≡ true = ground arith in
    let q : text_eq c.prefix d.prefix ≡ true = ground arith in
    let r : same_bool c.readable d.readable ≡ true = ground arith in
    λ i. some (record {
      bucket = same_text?-eq c.bucket d.bucket p i;
      prefix = (text_eq_iff c.prefix d.prefix).0 q i;
      readable = same_bool-eq c.readable d.readable r i;
    })

-- The store is on the listing of these dependencies, unless they have none.
abbrev pub IsNamed : Deps → BrowserState → Type 0
IsNamed d s =
    truthy d.bucket ≡ true
    → d.readable ≡ true
    → (s.bucket ≡ text_of d.bucket) × (s.prefix ≡ d.prefix)

-- The effect has run for what is shown, and the store is on its listing.
pub record IsInSync (v : Visit) : Type 0 where
  pub ran : v.ran ≡ some (deps_of v)
  pub named : IsNamed (deps_of v) v.browser.state

-- Nothing but `fetchObjects` changes the bucket and the prefix of the store.
abbrev SamePlace : BrowserState → BrowserState → Type 0
SamePlace s t = (t.bucket ≡ s.bucket) × (t.prefix ≡ s.prefix)

settle-SamePlace :
    (r : Request) (a : Answer ListObjectsResponse) (s : BrowserState) → SamePlace s (settle r a s)
unfolding settle fetch_objects_done load_more_done
settle-SamePlace (listing b p) (success r) s = (refl, refl)
settle-SamePlace (listing b p) (failure e) s = (refl, refl)
settle-SamePlace (more sn) (success r) s = (refl, refl)
settle-SamePlace (more sn) (failure e) s = (refl, refl)

settled-SamePlace :
    (o : Option (Request × List Request)) (a : Answer ListObjectsResponse) (w : World)
    → SamePlace w.state (settled o a w).state
settled-SamePlace none a w = (refl, refl)
settled-SamePlace (some (r, rs)) a w = settle-SamePlace r a w.state

loaded_more-SamePlace :
    (w : World) (o : Option (Snapshot × BrowserState))
    → load_more w.state ≡ o
    → SamePlace w.state (loaded_more w o).state
unfolding load_more
loaded_more-SamePlace w none e = (refl, refl)
loaded_more-SamePlace w (some (sn, t)) e =
    let (_, _, after) = load_more-eq-some w.state t sn e in
    (ap (λ s. s.bucket) after, ap (λ s. s.prefix) after)

SamePlace-IsNamed : (d : Deps) (s t : BrowserState) → SamePlace s t → IsNamed d s → IsNamed d t
SamePlace-IsNamed d s t (b, p) h k r = (b ∙ (h k r).0, p ∙ (h k r).1)

asked-IsNamed :
    (bucket : Option Text) (prefix : Text) (d : Deps) (w : World)
    → d.bucket ≡ bucket
    → d.prefix ≡ prefix
    → IsNamed d w.state
    → IsNamed d (asked (refresh_request bucket prefix) w).state
unfolding fetch_objects
asked-IsNamed bucket prefix d w e f h k r = rw (← e, ← f, k) (refl, refl)

listing_request-IsNamed :
    (bucket : Option Text) (prefix : Text) (buckets : List BucketInfo) (w : World)
    → IsNamed
        (record { bucket = bucket; prefix = prefix; readable = readable bucket buckets })
        (asked (listing_request bucket prefix buckets) w).state
unfolding listing_request fetch_objects
listing_request-IsNamed none prefix buckets w k r = cc
listing_request-IsNamed (some bucket) prefix buckets w k r = rw (k, r) (refl, refl)

run_effect-IsInSync :
    (v : Visit)
    → (v.ran ≡ some (deps_of v) → IsNamed (deps_of v) v.browser.state)
    → IsInSync (run_effect v)
unfolding run_effect
run_effect-IsInSync v h = elim (Bool-cases (same_deps v.ran (deps_of v))) [
  | inl same ↦
      let e = same_deps-eq v.ran (deps_of v) same in rw same (record { ran = e; named = h e })
  | inr other ↦ rw other (record {
    ran = refl;
    named = listing_request-IsNamed v.bucket v.prefix v.buckets.buckets v.browser;
  })
]

some_injective : (c d : Deps) → some c ≡ some d → c ≡ d
some_injective c d e = cc e

-- Where the effect would not run again, the dependencies are those it ran for.
moved-IsNamed : (v : Visit) (d : Deps) → IsInSync v → v.ran ≡ some d → IsNamed d v.browser.state
moved-IsNamed v d h q =
    subst (λ d. IsNamed d v.browser.state) (some_injective (deps_of v) d (sym h.ran ∙ q)) h.named

finished-IsNamed :
    (o : Option ((Option Text × Text) × List (Option Text × Text))) (v : Visit)
    → EndsHere o v
    → IsNamed (deps_of v) v.browser.state
    → IsNamed (deps_of (finished o v)) (finished o v).browser.state
finished-IsNamed none v c h = h
finished-IsNamed (some ((bucket, prefix), rest)) v (b, p) h =
    asked-IsNamed bucket prefix (deps_of v) v.browser (sym b) (sym p) h

finished-ran :
    (o : Option ((Option Text × Text) × List (Option Text × Text))) (v : Visit)
    → (finished o v).ran ≡ v.ran
finished-ran none v = refl
finished-ran (some ((bucket, prefix), rest)) v = refl

handle-IsNamed :
    (e : Event) (v : Visit)
    → IsInSync v
    → EndsWhereBegun e v
    → (handle e v).ran ≡ some (deps_of (handle e v))
    → IsNamed (deps_of (handle e v)) (handle e v).browser.state
unfolding handle
handle-IsNamed (go bucket prefix) v h c q = moved-IsNamed v _ h q
handle-IsNamed (open_prefix prefix) v h c q = moved-IsNamed v _ h q
handle-IsNamed (buckets_answered a) v h c q = moved-IsNamed v _ h q
handle-IsNamed begin_task v h c q = h.named
handle-IsNamed (task_done n) v h c q = finished-IsNamed (taken n v.tasks) v c h.named
handle-IsNamed retry v h c q =
    asked-IsNamed v.bucket v.prefix (deps_of v) v.browser refl refl h.named
handle-IsNamed more_objects v h c q =
    SamePlace-IsNamed (deps_of v) v.browser.state
      (loaded_more v.browser (load_more v.browser.state)).state
      (loaded_more-SamePlace v.browser (load_more v.browser.state) refl) h.named
handle-IsNamed (listing_answered n a) v h c q =
    SamePlace-IsNamed (deps_of v) v.browser.state
      (settled (taken n v.browser.pending) a v.browser).state
      (settled-SamePlace (taken n v.browser.pending) a v.browser) h.named

steps-keeps :
    (es : List Event) (v : Visit) → IsInSync v → EndWhereBegun es v → IsInSync (steps es v)
unfolding steps step
steps-keeps [] v h c = h
steps-keeps (e ∷ es) v h (c, cs) =
    steps-keeps es (step e v) (run_effect-IsInSync (handle e v) (handle-IsNamed e v h c)) cs

object_browser_shown :
    (bucket : Option Text) (buckets : List BucketInfo) (error : Option Text)
    → shows object_browser (browser_page bucket buckets error) ≡ true
    → (truthy bucket ≡ true) × (readable bucket buckets ≡ true)
unfolding browser_page
object_browser_shown none buckets error h = cc
object_browser_shown (some bucket) buckets error h = ground arith

-- From a URL that the page is mounted for, whatever the stores hold from the pages before it, and after any
-- links, openings of folders, retries, further pages, uploads, deletions and answers in any order, provided that each
-- upload and deletion that succeeds does so on the page on which it began: whenever the page shows the
-- list of objects, the store names exactly the bucket and the prefix of the URL.
pub steps-IsInSync :
    (bucket : Option Text) (prefix : Text) (before : Visit) (es : List Event)
    → before.ran ≡ none
    → EndWhereBegun (go bucket prefix ∷ es) before
    → let v = steps (go bucket prefix ∷ es) before in
      shows object_browser (browser_page v.bucket v.buckets.buckets v.browser.state.error) ≡ true
      → (v.browser.state.bucket ≡ text_of v.bucket) × (v.browser.state.prefix ≡ v.prefix)
unfolding steps step handle
steps-IsInSync bucket prefix before es fresh (_, ends) shown =
    let v = steps (go bucket prefix ∷ es) before in
    let h : IsInSync v =
      steps-keeps es (step (go bucket prefix) before)
        (run_effect-IsInSync (handle (go bucket prefix) before) (λ e. cc (fresh, e))) ends in
    let (named, may_read) =
      object_browser_shown v.bucket v.buckets.buckets v.browser.state.error shown in
    h.named named may_read
