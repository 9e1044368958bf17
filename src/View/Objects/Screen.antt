-- ===== src/View/Objects/Screen.antt =====
-- The panels of web/src/components/ObjectBrowser.tsx together with the preview that they mount:
-- web/src/components/FilePreview.tsx runs its effect when it is mounted and its cleanup when it is not shown any more.
use pier_s3_gateway.Prelude.{
  ℕ, ℤ, pos, negsuc, Bool, true, false, List, [], ◌∷◌, ◌≡◌, refl, ap, ◌∙◌, Option, none, some, Text,
  text_eq, text_eq_iff, ◌&&◌, ◌==◌, if◌then◌else◌, Bool-cases, inl, inr, arith,
}
use pier_s3_gateway.Preview.Kind.{LowerCase, preview_kind_for}
use pier_s3_gateway.Preview.Lifecycle.{
  Preview, Reply, show, hide, set_view, ViewMode, reply, late_reply, mounted,
}
use pier_s3_gateway.Preview.Lifecycle
use pier_s3_gateway.Preview.Lifecycle.Urls.{IsTidy, step-IsTidy, mounted-IsTidy, only}
use pier_s3_gateway.Preview.Lifecycle.Shown.{
  IsSame, show-active, hide-active, set_view-IsSame, reply-IsSame, late_reply-IsSame,
}
use pier_s3_gateway.View.Objects.{
  Panels, Event, search, activate, act, close_meta, close_preview, step, closed,
}
use pier_s3_gateway.View.Rows.{Row, download, info, delete, handle_row_activate}

pub record Screen : Type 0 where
  pub panels : Panels
  pub file : Preview

pub data Input : Type 0 where
  event : Event → Input
  -- The preview's own events: the view of a file, and the answers it waits for.
  view : ViewMode → Input
  answer late_answer : Reply → Input
  -- The bucket of the page or the language has changed: the effect of an open preview runs again.
  rerun : Input

-- `typeof size === 'number' && size > …`: a negative size is below every bound.
abbrev known_size : ℤ → Option ℕ
known_size (pos n) = some n
known_size (negsuc n) = none

abbrev pub opened : Screen
opened = record { panels = closed; file = mounted }

abbrev same_int : ℤ → ℤ → Bool
same_int (pos m) (pos n) = m == n
same_int (negsuc m) (negsuc n) = m == n
same_int _ _ = false

abbrev pub same_file : Option (Text × ℤ) → Option (Text × ℤ) → Bool
same_file none none = true
same_file (some (k, n)) (some (j, m)) = text_eq k j && same_int n m
same_file _ _ = false

module _ (locale : LowerCase) where
  -- What React does with the preview when its properties become these.
  abbrev pub render : Option (Text × ℤ) → Preview → Preview
  render none p = Lifecycle.step hide p
  render (some (key, size)) p =
      Lifecycle.step (show (preview_kind_for locale key none) (known_size size)) p

  -- Nothing happens to a preview whose file stays the same.
  abbrev pub rerender : Option (Text × ℤ) → Option (Text × ℤ) → Preview → Preview
  rerender before after p = if same_file before after then p else render after p

  abbrev run_again : Option (Text × ℤ) → Preview → Preview
  run_again none p = p
  run_again (some file) p = render (some file) p

  unfoldable pub screen_step : Input → Screen → Screen
  unfolding step Lifecycle.step
  screen_step (event e) s =
      let panels' = (step e s.panels).0 in
      record { panels = panels'; file = rerender s.panels.preview panels'.preview s.file }
  screen_step (view m) s = record s { file = Lifecycle.step (set_view m) s.file }
  screen_step (answer r) s = record s { file = Lifecycle.step (reply r) s.file }
  screen_step (late_answer r) s = record s { file = Lifecycle.step (late_reply r) s.file }
  screen_step rerun s = record s { file = run_again s.panels.preview s.file }

  unfoldable pub screen_steps : List Input → Screen → Screen
  unfolding screen_step
  screen_steps [] s = s
  screen_steps (i ∷ is) s = screen_steps is (screen_step i s)

same_file-eq : (a b : Option (Text × ℤ)) → same_file a b ≡ true → a ≡ b
same_file-eq none none h = refl
same_file-eq none (some b) h = cc
same_file-eq (some a) none h = cc
same_file-eq (some (k, pos n)) (some (j, pos m)) h = ground (arith, text_eq_iff k j)
same_file-eq (some (k, negsuc n)) (some (j, negsuc m)) h = ground (arith, text_eq_iff k j)
same_file-eq (some (k, pos n)) (some (j, negsuc m)) h = ground arith
same_file-eq (some (k, negsuc n)) (some (j, pos m)) h = ground arith

-- The file that was clicked last and not closed since, by the inputs alone.
abbrev pub clicked_by : Input → Option Row → Option Row
clicked_by (event (activate r)) before = if r.is_prefix then before else some r
clicked_by (event close_preview) before = none
clicked_by _ before = before

abbrev pub clicked_from : Option Row → List Input → Option Row
clicked_from before [] = before
clicked_from before (i ∷ is) = clicked_from (clicked_by i before) is

abbrev pub file_of : Option Row → Option (Text × ℤ)
file_of none = none
file_of (some r) = some (r.key, r.size)

activated-clicked :
    (r : Row) (before : Option Row) (p : Panels)
    → p.preview ≡ file_of before
    → (step (activate r) p).0.preview ≡ file_of (if r.is_prefix then before else some r)
unfolding step handle_row_activate
activated-clicked r before p h = elim (Bool-cases r.is_prefix) [
  | inl e ↦ rw e h
  | inr e ↦ rw e refl
]

-- What is shown is the file of the open panel, if one is open.
pub record IsInStep (locale : LowerCase) (s : Screen) : Type 0 where
  pub tidy : IsTidy s.file
  pub nothing : s.panels.preview ≡ none → s.file.active ≡ false
  pub file :
      (key : Text) (size : ℤ)
      → s.panels.preview ≡ some (key, size)
      → (s.file.active ≡ true) × (s.file.file_kind ≡ preview_kind_for locale key none)

module _ (locale : LowerCase) where
  render-IsInStep :
      (panels : Panels) (o : Option (Text × ℤ)) (p : Preview)
      → panels.preview ≡ o
      → IsTidy p
      → IsInStep locale (record { panels = panels; file = render locale o p })
  render-IsInStep panels none p e v = record {
    tidy = step-IsTidy hide v;
    nothing = λ _. hide-active p;
    file = λ key size k. cc (e, k);
  }
  render-IsInStep panels (some (key, size)) p e v =
      let kind = preview_kind_for locale key none in
      record {
        tidy = step-IsTidy (show kind (known_size size)) v;
        nothing = λ k. cc (e, k);
        file = λ key' size' k.
            let same : key ≡ key' = cc (e, k) in
            let (a, f) = show-active kind (known_size size) p in
            (a, f ∙ ap (λ t. preview_kind_for locale t none) same);
      }

  rerender-IsInStep :
      (before panels : Panels) (p : Preview)
      → IsInStep locale (record { panels = before; file = p })
      → IsInStep locale
          (record { panels = panels; file = rerender locale before.preview panels.preview p })
  rerender-IsInStep before panels p v =
      elim (Bool-cases (same_file before.preview panels.preview)) [
        | inl same ↦
            let e = same_file-eq before.preview panels.preview same in
            rw same (record {
              tidy = v.tidy;
              nothing = λ k. v.nothing (e ∙ k);
              file = λ key size k. v.file key size (e ∙ k);
            })
        | inr other ↦ rw other (render-IsInStep panels panels.preview p refl v.tidy)
      ]

  same-IsInStep :
      (s : Screen) (q : Preview)
      → IsSame s.file q
      → IsTidy q
      → IsInStep locale s
      → IsInStep locale (record s { file = q })
  same-IsInStep s q (a, k) t v = record {
    tidy = t;
    nothing = λ e. a ∙ v.nothing e;
    file = λ key size e. let (b, f) = v.file key size e in (a ∙ b, k ∙ f);
  }

  run_again-IsInStep :
      (o : Option (Text × ℤ)) (panels : Panels) (p : Preview)
      → panels.preview ≡ o
      → IsInStep locale (record { panels = panels; file = p })
      → IsInStep locale (record { panels = panels; file = run_again locale o p })
  run_again-IsInStep none panels p e v = v
  run_again-IsInStep (some file) panels p e v = render-IsInStep panels (some file) p e v.tidy

  screen_step-IsInStep :
      (i : Input) (s : Screen) → IsInStep locale s → IsInStep locale (screen_step locale i s)
  unfolding screen_step
  screen_step-IsInStep (event e) s v = rerender-IsInStep s.panels (step e s.panels).0 s.file v
  screen_step-IsInStep (view m) s v =
      same-IsInStep s _ (set_view-IsSame m s.file) (step-IsTidy (set_view m) v.tidy) v
  screen_step-IsInStep (answer r) s v =
      same-IsInStep s _ (reply-IsSame r s.file) (step-IsTidy (reply r) v.tidy) v
  screen_step-IsInStep (late_answer r) s v =
      same-IsInStep s _ (late_reply-IsSame r s.file) (step-IsTidy (late_reply r) v.tidy) v
  screen_step-IsInStep rerun s v = run_again-IsInStep s.panels.preview s.panels s.file refl v

  screen_steps-IsInStep-from :
      (is : List Input) (s : Screen)
      → IsInStep locale s
      → IsInStep locale (screen_steps locale is s)
  unfolding screen_steps
  screen_steps-IsInStep-from [] s v = v
  screen_steps-IsInStep-from (i ∷ is) s v =
      screen_steps-IsInStep-from is (screen_step locale i s) (screen_step-IsInStep i s v)

  screen_step-clicked :
      (i : Input) (s : Screen) (before : Option Row)
      → s.panels.preview ≡ file_of before
      → (screen_step locale i s).panels.preview ≡ file_of (clicked_by i before)
  unfolding screen_step step
  screen_step-clicked (event (search t)) s before h = h
  screen_step-clicked (event (activate r)) s before h = activated-clicked r before s.panels h
  screen_step-clicked (event (act download r)) s before h = h
  screen_step-clicked (event (act info r)) s before h = h
  screen_step-clicked (event (act delete r)) s before h = h
  screen_step-clicked (event close_meta) s before h = h
  screen_step-clicked (event close_preview) s before h = refl
  screen_step-clicked (view m) s before h = h
  screen_step-clicked (answer r) s before h = h
  screen_step-clicked (late_answer r) s before h = h
  screen_step-clicked rerun s before h = h

  screen_steps-clicked :
      (is : List Input) (s : Screen) (before : Option Row)
      → s.panels.preview ≡ file_of before
      → (screen_steps locale is s).panels.preview ≡ file_of (clicked_from before is)
  unfolding screen_steps
  screen_steps-clicked [] s before h = h
  screen_steps-clicked (i ∷ is) s before h =
      screen_steps-clicked is (screen_step locale i s) (clicked_by i before)
        (screen_step-clicked i s before h)

  -- After any clicks, closings, repeated runs of the effect and answers, early or late: a preview is open exactly if a file
  -- was clicked and not closed since, with the key and size of the row that was clicked last; while one is open, it shows
  -- that file, by the kind of its key; while none is, no object URL exists; and the object URLs are tidy.
  pub screen_steps-IsInStep :
      (is : List Input)
      → let s = screen_steps locale is opened in
        (s.panels.preview ≡ file_of (clicked_from none is))
        × IsInStep locale s
        × (s.panels.preview ≡ none → s.file.live ≡ [])
  screen_steps-IsInStep is =
      let v =
        screen_steps-IsInStep-from is opened
          (record { tidy = mounted-IsTidy; nothing = λ _. refl; file = λ key size e. cc e }) in
      (
        screen_steps-clicked is opened none refl,
        v,
        λ e. v.tidy.live ∙ ap only (v.tidy.closed (v.nothing e)).0,
      )
