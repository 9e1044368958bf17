-- ===== src/Theme/Provider.antt =====
-- web/src/theme/ThemeProvider.tsx: the selection, the scheme of the system, and what is stored.
use pier_s3_gateway.Prelude.{
  ◌↔◌, ◌⊎◌, false, List, [], ◌∷◌, ◌≡◌, refl, sym, subst, ap, Option, none, some, inl, inr, Text,
  is_empty, All,
}
use pier_s3_gateway.Theme.{
  ThemeMode, Scheme, light, dark, PresetTheme, ThemeSelection, mode, preset, JsonEngine, safe_parse,
  load_selection, save_selection, find_preset, base_or, resolve_scheme, valid_selection,
  selection_value, system, light_mode, dark_mode,
}
use pier_s3_gateway.Theme.Presets.{preset_themes}

pub record ThemeState : Type 0 where
  pub selection : ThemeSelection
  pub system_scheme : Scheme
  -- What `localStorage` holds under the key of the selection.
  pub stored : Option Text

pub data Event : Type 0 where
  set_mode : ThemeMode → Event
  select_preset : Text → Event
  -- The system's colour scheme changes.
  change : Scheme → Event

-- The active preset of a selection.
unfoldable pub active_preset : ThemeSelection → Option PresetTheme
unfolding find_preset
active_preset (mode m) = none
active_preset (preset id) = find_preset id preset_themes

unfoldable pub effective_scheme : ThemeState → Scheme
unfolding resolve_scheme
effective_scheme s = resolve_scheme s.selection s.system_scheme preset_themes

module _ (engine : JsonEngine) where
  unfoldable pub mount : Option Text → Scheme → ThemeState
  unfolding load_selection
  mount stored scheme = record {
    selection = load_selection engine stored;
    system_scheme = scheme;
    stored = stored;
  }

  unfoldable pub persist_selection : ThemeSelection → ThemeState → ThemeState
  unfolding save_selection
  persist_selection next s = record s {
    selection = next;
    stored = some (save_selection engine next);
  }

  unfoldable pub step : Event → ThemeState → ThemeState
  unfolding persist_selection
  step (set_mode m) s = persist_selection (mode m) s
  step (select_preset id) s = persist_selection (preset id) s
  step (change scheme) s = record s { system_scheme = scheme }

  unfoldable pub steps : List Event → ThemeState → ThemeState
  unfolding step
  steps [] s = s
  steps (e ∷ es) s = steps es (step e s)

  -- A preset is selected by an id that is not empty.
  abbrev pub IsNamed : Event → Type 0
  IsNamed (select_preset id) = is_empty id ≡ false
  IsNamed _ = Unit

  abbrev IsPersistable : ThemeSelection → Type 0
  IsPersistable (mode m) = Unit
  IsPersistable (preset id) = is_empty id ≡ false

  valid_selection-value :
      (v : ThemeSelection) → IsPersistable v → valid_selection (selection_value v) ≡ some v
  unfolding valid_selection selection_value
  valid_selection-value (mode system) h = refl
  valid_selection-value (mode light_mode) h = refl
  valid_selection-value (mode dark_mode) h = refl
  valid_selection-value (preset id) h = rw h

  load-save :
      (v : ThemeSelection)
      → IsPersistable v
      → load_selection engine (some (save_selection engine v)) ≡ v
  unfolding load_selection save_selection safe_parse
  load-save v h =
      rw (engine.stringify_truthy v, engine.parse-stringify v, valid_selection-value v h)

  step-stored :
      (e : Event) (s : ThemeState)
      → IsNamed e
      → load_selection engine s.stored ≡ s.selection
      → load_selection engine (step e s).stored ≡ (step e s).selection
  unfolding step
  step-stored (set_mode m) s n h = load-save (mode m) tt
  step-stored (select_preset id) s n h = load-save (preset id) n
  step-stored (change scheme) s n h = h

  steps-stored :
      (es : List Event) (s : ThemeState)
      → All IsNamed es
      → load_selection engine s.stored ≡ s.selection
      → load_selection engine (steps es s).stored ≡ (steps es s).selection
  unfolding steps
  steps-stored [] s n h = h
  steps-stored (e ∷ es) s (n, ns) h = steps-stored es (step e s) ns (step-stored e s n h)

  -- Whatever was stored before, and after any choices of a mode or a preset by a nonempty id and any changes of the
  -- system's scheme: a reload finds the selection that is in force.
  pub reload_keeps :
      (stored : Option Text) (scheme : Scheme) (es : List Event)
      → All IsNamed es
      → load_selection engine (steps es (mount stored scheme)).stored
        ≡ (steps es (mount stored scheme)).selection
  unfolding mount
  reload_keeps stored scheme es n = steps-stored es (mount stored scheme) n refl

-- A selection that shows every scheme of the system.
follows_system_iff :
    (v : ThemeSelection)
    → ((scheme : Scheme) → resolve_scheme v scheme preset_themes ≡ scheme)
      ↔ ((v ≡ mode system) ⊎ ((id : Text) × (v ≡ preset id) × (active_preset (preset id) ≡ none)))
unfolding resolve_scheme active_preset
follows_system_iff (mode system) = (λ _. inl refl, λ _ scheme. refl)
follows_system_iff (mode light_mode) =
    (λ f. cc (f dark), λ h. elim h [ inl e ↦ cc | inr (id, e, _) ↦ cc ])
follows_system_iff (mode dark_mode) =
    (λ f. cc (f light), λ h. elim h [ inl e ↦ cc | inr (id, e, _) ↦ cc ])
follows_system_iff (preset id) = (
  known (find_preset id preset_themes) refl,
  λ h scheme. elim h [
    | inl e ↦ cc
    | inr (k, e, q) ↦ ap (base_or scheme) (subst (λ v. active_preset v ≡ none) (sym e) q)
  ],
)
  where
    known :
        (o : Option PresetTheme)
        → find_preset id preset_themes ≡ o
        → ((scheme : Scheme) → base_or scheme (find_preset id preset_themes) ≡ scheme)
        → (preset id ≡ mode system)
          ⊎ ((k : Text) × (preset id ≡ preset k) × (find_preset k preset_themes ≡ none))
    known none e f = inr (id, refl, e)
    known (some p) e f =
        let l : p.base ≡ light = rw e at (f light) in let d : p.base ≡ dark = rw e at (f dark) in cc

-- A change of the system's scheme shows exactly in the system mode and under a preset that is not there.
pub change_shows_iff :
    (engine : JsonEngine) (s : ThemeState)
    → ((scheme : Scheme) → effective_scheme (step engine (change scheme) s) ≡ scheme) ↔ (
        (s.selection ≡ mode system)
        ⊎ ((id : Text) × (s.selection ≡ preset id) × (active_preset (preset id) ≡ none)))
unfolding step effective_scheme
change_shows_iff engine s = follows_system_iff s.selection
