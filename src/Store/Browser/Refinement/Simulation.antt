-- ===== src/Store/Browser/Refinement/Simulation.antt =====
-- The store of web/src/store/browser.ts implements the cursor: every action on the store is one of the cursor.
use pier_s3_gateway.Prelude.{
  Bool, true, false, List, [], ◌∷◌, ◌++◌, ◌≡◌, refl, sym, ap, ◌∙◌, subst, Option, none, Text,
  is_empty, text_eq, text_eq_iff, All, append_assoc, append-nil, inl, inr,
}
use pier_s3_gateway.Client.{Failure}
use pier_s3_gateway.Store.Browser.{
  BrowserState, initial, fetch_objects, fetch_objects_done, load_more, load_more_done,
}
use pier_s3_gateway.Store.Browser.Paging.{Page, all_objects, all_prefixes, HasToken, load_more_on}
use pier_s3_gateway.Store.Browser.Session.{Request, settle, World}
use pier_s3_gateway.Store.Browser.Refinement.{
  AreDistinct, Server, page_at, serve, Action, open_listing, ask_more, answered, refused, world,
  act, after_more, acts, Cursor, move, moves, shown, awaited, IsReading, Refines,
}

all_objects-append : (ps qs : List Page) → all_objects (ps ++ qs) ≡ all_objects ps ++ all_objects qs
all_objects-append [] qs = refl
all_objects-append (p ∷ ps) qs =
    rw (all_objects-append ps qs) (sym (append_assoc p.objects (all_objects ps) (all_objects qs)))

all_prefixes-append :
    (ps qs : List Page) → all_prefixes (ps ++ qs) ≡ all_prefixes ps ++ all_prefixes qs
all_prefixes-append [] qs = refl
all_prefixes-append (p ∷ ps) qs =
    rw (all_prefixes-append ps qs)
      (sym (append_assoc p.prefixes (all_prefixes ps) (all_prefixes qs)))

text_eq_refl : (t : Text) → text_eq t t ≡ true
text_eq_refl t = (text_eq_iff t t).1 refl

All-middle :
    (P : Page → Type 0) (ds : List Page) (p : Page) (rest : List Page)
    → All P (ds ++ p ∷ rest)
    → P p
All-middle P [] p rest (h, _) = h
All-middle P (d ∷ ds) p rest (_, h) = All-middle P ds p rest h

page_at-split :
    (ds : List Page) (p : Page) (rest : List Page)
    → AreDistinct (ds ++ p ∷ rest)
    → page_at p.token (ds ++ p ∷ rest) ≡ p ∷ rest
unfolding page_at
page_at-split [] p rest h = rw (text_eq_refl p.token)
page_at-split (d ∷ ds) p rest (h, hs) = rw (All-middle _ ds p rest h) (page_at-split ds p rest hs)

cons-eq : (p q : Page) (ps qs : List Page) → p ∷ ps ≡ q ∷ qs → (p ≡ q) × (ps ≡ qs)
cons-eq p q ps qs e = (cc e, cc e)

module _ (server : Server) (b p : Text) where
  abbrev cursor : List Page → List Page → Bool → Cursor
  cursor done left busy = record { bucket = b; prefix = p; done = done; left = left; busy = busy }

  abbrev state_of : List Page → List Page → Bool → Option Text → World
  state_of done left busy err =
      world (shown (cursor done left busy) err) (awaited (cursor done left busy))

  abbrev pages : List Page
  pages = server.first b p ∷ server.others b p

  others_of :
      (d : Page) (ds : List Page) (left : List Page) (busy : Bool)
      → IsReading server (cursor (d ∷ ds) left busy)
      → server.others b p ≡ ds ++ left
  others_of d ds left busy v = elim v.pages [
    | inl (e, _) ↦ cc e
    | inr e ↦ sym (cons-eq d (server.first b p) (ds ++ left) (server.others b p) e).1
  ]

  token_at :
      (d : Page) (ds : List Page) (q : Page) (rest : List Page) (busy : Bool)
      → IsReading server (cursor (d ∷ ds) (q ∷ rest) busy)
      → is_empty q.token ≡ false
  token_at d ds q rest busy v =
      All-middle HasToken ds q rest
        (subst (All HasToken) (others_of d ds (q ∷ rest) busy v) (server.tokens b p))

  page_of :
      (d : Page) (ds : List Page) (q : Page) (rest : List Page) (busy : Bool)
      → IsReading server (cursor (d ∷ ds) (q ∷ rest) busy)
      → page_at q.token (server.others b p) ≡ q ∷ rest
  page_of d ds q rest busy v =
      let e = others_of d ds (q ∷ rest) busy v in
      ap (page_at q.token) e ∙ page_at-split ds q rest (subst AreDistinct e (server.distinct b p))

  -- Reading one more page.
  advanced :
      (done : List Page) (q : Page) (rest : List Page) (busy : Bool)
      → IsReading server (cursor done (q ∷ rest) busy)
      → IsReading server (cursor (done ++ q ∷ []) rest false)
  advanced done q rest busy v = record {
    pages = elim v.pages [ inl (_, e) ↦ cc e | inr e ↦ inr (append_assoc done (q ∷ []) rest ∙ e) ];
    some_left = λ e. cc e;
  }

  open-Refines :
      (b' p' : Text) (done left : List Page) (busy : Bool) (err : Option Text)
      → IsReading server (cursor done left busy)
      → Refines server
          (act server (open_listing b' p') (state_of done left busy err))
          (move server (open_listing b' p') (cursor done left busy))
  unfolding act move fetch_objects
  open-Refines b' p' done left true err v = record {
    reading = v;
    error = err;
    state = refl;
    pending = refl;
  }
  open-Refines b' p' done left false err v = record {
    reading = record { pages = inr refl; some_left = λ _ e. cc e };
    error = none;
    state = refl;
    pending = refl;
  }

  asked_more :
      (d : Page) (ds : List Page) (q : Page) (rest : List Page) (err : Option Text)
      → IsReading server (cursor (d ∷ ds) (q ∷ rest) false)
      → act server ask_more (state_of (d ∷ ds) (q ∷ rest) false err)
        ≡ state_of (d ∷ ds) (q ∷ rest) true err
  unfolding act
  asked_more d ds q rest err v =
      let s = shown (cursor (d ∷ ds) (q ∷ rest) false) err in
      ap (after_more s) (load_more_on s (rw (token_at d ds q rest false v) refl))

  more-Refines :
      (done left : List Page) (busy : Bool) (err : Option Text)
      → IsReading server (cursor done left busy)
      → Refines server
          (act server ask_more (state_of done left busy err))
          (move server ask_more (cursor done left busy))
  unfolding act move load_more
  more-Refines done left true err v = record {
    reading = v;
    error = err;
    state = refl;
    pending = refl;
  }
  more-Refines [] left false err v = record {
    reading = v;
    error = err;
    state = refl;
    pending = refl;
  }
  more-Refines (d ∷ ds) [] false err v = record {
    reading = v;
    error = err;
    state = refl;
    pending = refl;
  }
  more-Refines (d ∷ ds) (q ∷ rest) false err v =
      subst (λ w. Refines server w (cursor (d ∷ ds) (q ∷ rest) true))
        (sym (asked_more d ds q rest err v))
        (record {
          reading = record { pages = v.pages; some_left = λ _ e. cc e };
          error = err;
          state = refl;
          pending = refl;
        })

  refused-Refines :
      (f : Failure) (done left : List Page) (busy : Bool) (err : Option Text)
      → IsReading server (cursor done left busy)
      → Refines server
          (act server (refused f) (state_of done left busy err))
          (move server (refused f) (cursor done left busy))
  unfolding act move settle fetch_objects_done load_more_done
  refused-Refines f done left false err v = record {
    reading = v;
    error = err;
    state = refl;
    pending = refl;
  }
  refused-Refines f [] left true err v = record {
    reading = record { pages = v.pages; some_left = λ e. cc e };
    error = _;
    state = refl;
    pending = refl;
  }
  refused-Refines f (d ∷ ds) left true err v = record {
    reading = record { pages = v.pages; some_left = λ e. cc e };
    error = _;
    state = refl;
    pending = refl;
  }

  answered-Refines :
      (done left : List Page) (busy : Bool) (err : Option Text)
      → IsReading server (cursor done left busy)
      → Refines server
          (act server answered (state_of done left busy err))
          (move server answered (cursor done left busy))
  unfolding act move settle serve fetch_objects_done load_more_done
  answered-Refines done left false err v = record {
    reading = v;
    error = err;
    state = refl;
    pending = refl;
  }
  answered-Refines done [] true err v = absurd (v.some_left refl refl)
  answered-Refines [] (q ∷ rest) true err v = elim v.pages [
    | inl (_, e) ↦ cc e
    | inr e ↦
        let (same, others) = cons-eq q (server.first b p) rest (server.others b p) e in
        record {
          reading = advanced [] q rest true v;
          error = err;
          state = rw (← same, ← others, append-nil q.objects, append-nil q.prefixes) refl;
          pending = refl;
        }
  ]
  answered-Refines (d ∷ ds) (q ∷ rest) true err v = record {
    reading = advanced (d ∷ ds) q rest true v;
    error = err;
    state =
        rw
          (
            page_of d ds q rest true v,
            all_objects-append ds,
            all_prefixes-append ds,
            append-nil q.objects,
            append-nil q.prefixes,
            append_assoc d.objects,
            append_assoc d.prefixes,
          )
          refl;
    pending = refl;
  }

-- One action on the store is the same action on the cursor.
act-Refines :
    (server : Server) (a : Action) (w : World) (c : Cursor)
    → Refines server w c
    → Refines server (act server a w) (move server a c)
act-Refines server a w c r =
    subst (λ u. Refines server (act server a u) (move server a c))
      (sym (whole w _ _ r.state r.pending)) (canonical a)
  where
    whole :
        (w : World) (s : BrowserState) (ps : List Request)
        → w.state ≡ s
        → w.pending ≡ ps
        → w ≡ world s ps
    whole w s ps e f = cc (e, f)

    canonical :
        (a : Action)
        → Refines server (act server a (world (shown c r.error) (awaited c))) (move server a c)
    canonical (open_listing b p) =
        open-Refines server c.bucket c.prefix b p c.done c.left c.busy r.error r.reading
    canonical ask_more =
        more-Refines server c.bucket c.prefix c.done c.left c.busy r.error r.reading
    canonical answered =
        answered-Refines server c.bucket c.prefix c.done c.left c.busy r.error r.reading
    canonical (refused f) =
        refused-Refines server c.bucket c.prefix f c.done c.left c.busy r.error r.reading

acts-Refines-from :
    (server : Server) (as' : List Action) (w : World) (c : Cursor)
    → Refines server w c
    → Refines server (acts server as' w) (moves server as' c)
unfolding acts moves
acts-Refines-from server [] w c r = r
acts-Refines-from server (a ∷ rest) w c r =
    acts-Refines-from server rest (act server a w) (move server a c) (act-Refines server a w c r)

abbrev pub nothing_read : Cursor
nothing_read = record { bucket = []; prefix = []; done = []; left = []; busy = false }

-- Whatever is opened, asked for, answered and refused, one request at a time, the store refines a cursor over the
-- server's pages: its objects and prefixes are those of the pages read so far, in their order, under the
-- bucket and prefix of the cursor; its token is that of the next page; it says that there is more exactly when
-- a page was read and another is left; it is loading exactly while a request is in flight, and that request is for the next page.
pub acts-Refines :
    (server : Server) (actions : List Action)
    → Refines server (acts server actions (world initial [])) (moves server actions nothing_read)
acts-Refines server actions =
    acts-Refines-from server actions (world initial []) nothing_read (record {
      reading = record { pages = inl (refl, refl); some_left = λ e. cc e };
      error = none;
      state = refl;
      pending = refl;
    })
