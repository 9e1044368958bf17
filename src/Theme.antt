-- ===== src/Theme.antt =====
-- web/src/theme: the types of types.ts, and storage.ts. `JSON.parse` and `JSON.stringify` are the
-- engine's: what they do on text is data of the engine here, and what the code relies on is a law.
pub mod Context
pub mod Presets
pub mod Provider
pub mod Switcher
pub mod Tokens
use Prim.Native.String.{String}
use pier_s3_gateway.Prelude.{
  ℕ, Bool, true, false, not, ◌||◌, ◌&&◌, List, [], ◌∷◌, ◌≡◌, Option, none, some, if◌then◌else◌,
  Text, codes, text_eq, is_empty,
}
use pier_s3_gateway.Client.{truthy, text_of}

pub data ThemeMode : Type 0 where
  system light_mode dark_mode : ThemeMode

pub data Scheme : Type 0 where
  light dark : Scheme

pub data SurfaceKey : Type 0 where
  bg_layout bg_container bg_elevated border border_secondary surface2 border_strong : SurfaceKey
  shadow_sm shadow shadow_lg text text_muted : SurfaceKey

-- `Partial<SurfacePalette>` as its entries.
pub record PresetTheme : Type 0 where
  pub id : String
  pub name : String
  pub base : Scheme
  pub primary_color : String
  pub border_radius : ℕ
  pub surfaces : List (SurfaceKey × String)

pub data ThemeSelection : Type 0 where
  mode : ThemeMode → ThemeSelection
  preset : Text → ThemeSelection

abbrev pub default_selection : ThemeSelection
default_selection = preset (codes "claude-light")

-- The values of JSON as far as `isValidSelection` tells them apart: an object with its entries, and
-- an entry that is a string.
pub data Entry : Type 0 where
  json_string : Text → Entry
  no_string : Entry

pub data Json : Type 0 where
  json_object : List (Text × Entry) → Json
  no_object : Json

-- `v[name]`: undefined when there is no such entry, and the last of several counts.
unfoldable pub member : Text → List (Text × Entry) → Option Entry
unfolding text_eq
member name [] = none
member name ((k, v) ∷ entries) = elim (member name entries) [
  | some w ↦ some w
  | none ↦ if text_eq k name then some v else none
]

-- `v === 'text'`
abbrev is_text : String → Option Entry → Bool
is_text name (some (json_string t)) = text_eq t (codes name)
is_text name _ = false

abbrev mode_of : Option Entry → Option ThemeSelection
mode_of o =
    if is_text "system" o
    then some (mode system)
    else if is_text "light" o
    then some (mode light_mode)
    else if is_text "dark" o
    then some (mode dark_mode)
    else none

abbrev id_of : Option Entry → Option ThemeSelection
id_of (some (json_string t)) = if is_empty t then none else some (preset t)
id_of _ = none

-- The value as a selection, if `isValidSelection` accepts it.
unfoldable pub valid_selection : Json → Option ThemeSelection
unfolding member
valid_selection (json_object v) =
    if is_text "mode" (member (codes "kind") v)
    then mode_of (member (codes "mode") v)
    else if is_text "preset" (member (codes "kind") v)
    then id_of (member (codes "id") v)
    else none
valid_selection _ = none

abbrev pub mode_text : ThemeMode → Text
mode_text system = codes "system"
mode_text light_mode = codes "light"
mode_text dark_mode = codes "dark"

-- The object that a selection is.
unfoldable pub selection_value : ThemeSelection → Json
selection_value (mode m) =
    json_object
      ((codes "kind", json_string (codes "mode")) ∷ (codes "mode", json_string (mode_text m)) ∷ [])
selection_value (preset id) =
    json_object ((codes "kind", json_string (codes "preset")) ∷ (codes "id", json_string id) ∷ [])

-- The engine's JSON. What `stringify` writes for a selection is not empty and parses back.
pub record JsonEngine : Type 0 where
  pub parse : Text → Option Json
  pub stringify : Json → Text
  pub stringify_truthy : (v : ThemeSelection) → is_empty (stringify (selection_value v)) ≡ false
  pub parse-stringify :
      (v : ThemeSelection) → parse (stringify (selection_value v)) ≡ some (selection_value v)

abbrev or_selection : Option ThemeSelection → ThemeSelection
or_selection none = default_selection
or_selection (some s) = s

abbrev valid_parsed : Option Json → Option ThemeSelection
valid_parsed none = none
valid_parsed (some v) = valid_selection v

module _ (engine : JsonEngine) where
  open engine use {parse, stringify}

  -- `safeParse`: nothing stored, the empty text and a text that does not parse are null.
  unfoldable pub safe_parse : Option Text → Option Json
  safe_parse raw = if truthy raw then parse (text_of raw) else none

  unfoldable pub load_selection : Option Text → ThemeSelection
  unfolding safe_parse valid_selection
  load_selection raw = or_selection (valid_parsed (safe_parse raw))

  unfoldable pub save_selection : ThemeSelection → Text
  unfolding selection_value
  save_selection s = stringify (selection_value s)

-- `presets.find((p) => p.id === id)`
unfoldable pub find_preset : Text → List PresetTheme → Option PresetTheme
unfolding text_eq
find_preset id [] = none
find_preset id (p ∷ presets) = if text_eq (codes p.id) id then some p else find_preset id presets

abbrev pub base_or : Scheme → Option PresetTheme → Scheme
base_or scheme none = scheme
base_or scheme (some p) = p.base

unfoldable pub resolve_scheme : ThemeSelection → Scheme → List PresetTheme → Scheme
unfolding find_preset
resolve_scheme (mode system) scheme presets = scheme
resolve_scheme (mode light_mode) scheme presets = light
resolve_scheme (mode dark_mode) scheme presets = dark
resolve_scheme (preset id) scheme presets = base_or scheme (find_preset id presets)
