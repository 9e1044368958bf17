-- ===== src/Theme/Switcher.antt =====
-- web/src/theme/ThemeSwitcher.tsx: the items of the menu, which one is checked, and a click.
use pier_s3_gateway.Prelude.{
  Bool, true, false, List, [], ◌∷◌, ◌++◌, ◌≡◌, refl, sym, ◌∙◌, ap, Option, none, some,
  if◌then◌else◌, Text, codes, text_eq, text_eq_iff, drop, length, arith,
}
use pier_s3_gateway.Preview.Kind.{starts_with}
use pier_s3_gateway.Theme.{
  ThemeMode, system, light_mode, dark_mode, PresetTheme, ThemeSelection, mode, preset, JsonEngine,
  mode_text,
}
use pier_s3_gateway.Theme.Provider.{ThemeState, Event, set_mode, select_preset, step}

abbrev pub mode_prefix : Text
mode_prefix = codes "mode:"

abbrev pub preset_prefix : Text
preset_prefix = codes "preset:"

unfoldable pub active_key : ThemeSelection → Text
active_key (mode m) = mode_prefix ++ mode_text m
active_key (preset id) = preset_prefix ++ id

pub data Item : Type 0 where
  entry : Text → Item
  divider : Item

abbrev preset_items : List PresetTheme → List Item
preset_items [] = []
preset_items (p ∷ presets) = entry (preset_prefix ++ codes p.id) ∷ preset_items presets

abbrev with_divider : List Item → List Item
with_divider [] = []
with_divider (i ∷ items) = divider ∷ i ∷ items

unfoldable pub items : List PresetTheme → List Item
items presets =
    entry (codes "mode:system")
    ∷ entry (codes "mode:light")
    ∷ entry (codes "mode:dark")
    ∷ with_divider (preset_items presets)

-- `check`: the item of the active key has the mark.
unfoldable pub is_checked : ThemeSelection → Item → Bool
unfolding active_key text_eq
is_checked s (entry key) = text_eq (active_key s) key
is_checked s divider = false

-- The text of a mode, taken for one: the keys of the menu have no other.
abbrev mode_of_text : Text → Option ThemeMode
mode_of_text t =
    if text_eq t (codes "system")
    then some system
    else if text_eq t (codes "light")
    then some light_mode
    else if text_eq t (codes "dark")
    then some dark_mode
    else none

abbrev set_mode_event : Option ThemeMode → Option Event
set_mode_event none = none
set_mode_event (some m) = some (set_mode m)

unfoldable pub on_click : Text → Option Event
unfolding starts_with
on_click key =
    if starts_with mode_prefix key
    then set_mode_event (mode_of_text (drop (length mode_prefix) key))
    else if starts_with preset_prefix key
    then some (select_preset (drop (length preset_prefix) key))
    else none

abbrev pub clicked : JsonEngine → Option Event → ThemeState → ThemeState
clicked engine none s = s
clicked engine (some e) s = step engine e s

-- A click on an item of the menu.
abbrev pub choose : JsonEngine → Item → ThemeState → ThemeState
choose engine (entry key) s = clicked engine (on_click key) s
choose engine divider s = s

on_click-active_key-mode : (m : ThemeMode) → on_click (active_key (mode m)) ≡ some (set_mode m)
unfolding on_click active_key text_eq
on_click-active_key-mode system = refl
on_click-active_key-mode light_mode = refl
on_click-active_key-mode dark_mode = refl

on_click-active_key-preset :
    (id : Text) → on_click (active_key (preset id)) ≡ some (select_preset id)
unfolding on_click active_key
on_click-active_key-preset id = refl

on_click-active_key :
    (engine : JsonEngine) (v : ThemeSelection) (s : ThemeState)
    → (clicked engine (on_click (active_key v)) s).selection ≡ v
unfolding step
on_click-active_key engine (mode m) s = rw on_click-active_key-mode refl
on_click-active_key engine (preset id) s = rw on_click-active_key-preset refl

checked-entry :
    (v : ThemeSelection) (key : Text) → is_checked v (entry key) ≡ true → active_key v ≡ key
unfolding is_checked
checked-entry v key h = ground (arith, text_eq_iff (active_key v) key)

-- Clicking the item that would be checked under a selection chooses that selection; and so the
-- item that is clicked is the one that is checked afterwards.
pub choose-is_checked :
    (engine : JsonEngine) (v : ThemeSelection) (i : Item) (s : ThemeState)
    → is_checked v i ≡ true
    → ((choose engine i s).selection ≡ v) × (is_checked (choose engine i s).selection i ≡ true)
choose-is_checked engine v divider s h = unfold is_checked in cc h
choose-is_checked engine v (entry key) s h =
    let same : (clicked engine (on_click key) s).selection ≡ v =
      ap (λ k. (clicked engine (on_click k) s).selection) (sym (checked-entry v key h))
      ∙ on_click-active_key engine v s in
    (same, ap (λ u. is_checked u (entry key)) same ∙ h)
