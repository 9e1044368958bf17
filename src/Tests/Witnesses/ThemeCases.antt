-- ===== src/Tests/Witnesses/ThemeCases.antt =====
-- web/src/theme: the theorems at concrete choices.
use pier_s3_gateway.Prelude.{
  false, [], ◌∷◌, ◌≡◌, refl, none, some, Option, Text, codes, is_empty, ◌==◌, if◌then◌else◌,
}
use pier_s3_gateway.Theme.{
  light, dark, ThemeSelection, mode, preset, dark_mode, JsonEngine, Json, json_object, json_string,
  selection_value, load_selection,
}
use pier_s3_gateway.Theme.Provider.{
  ThemeState, set_mode, select_preset, change, mount, steps, reload_keeps,
}

-- An engine that knows the two shapes of a selection, and writes each with one letter in front.
abbrev pub write_json : Json → Text
write_json (json_object ((_, json_string (c ∷ _)) ∷ (_, json_string t) ∷ [])) = c ∷ t
write_json _ = []

abbrev pub read_json : Text → Option Json
read_json [] = none
read_json (c ∷ t) =
    if c == b'm'
    then some (
        json_object
          ((codes "kind", json_string (codes "mode")) ∷ (codes "mode", json_string t) ∷ []))
    else some (
        json_object
          ((codes "kind", json_string (codes "preset")) ∷ (codes "id", json_string t) ∷ []))

pub write_json_truthy : (v : ThemeSelection) → is_empty (write_json (selection_value v)) ≡ false
unfolding selection_value
write_json_truthy (mode m) = refl
write_json_truthy (preset id) = refl

pub read_json-write_json :
    (v : ThemeSelection) → read_json (write_json (selection_value v)) ≡ some (selection_value v)
unfolding selection_value
read_json-write_json (mode m) = refl
read_json-write_json (preset id) = refl

abbrev pub letters : JsonEngine
letters = record {
  parse = read_json;
  stringify = write_json;
  stringify_truthy = write_json_truthy;
  parse-stringify = read_json-write_json;
}

reload_keeps_example :
    load_selection letters
      (steps letters
        (set_mode dark_mode ∷ change dark ∷ select_preset (codes "ocean") ∷ [])
        (mount letters (some (codes "x")) light)).stored
    ≡ (steps letters
        (set_mode dark_mode ∷ change dark ∷ select_preset (codes "ocean") ∷ [])
        (mount letters (some (codes "x")) light)).selection
reload_keeps_example =
    reload_keeps letters (some (codes "x")) light
      (set_mode dark_mode ∷ change dark ∷ select_preset (codes "ocean") ∷ []) (tt, (tt, (refl, tt)))

abbrev pub gone : ThemeState
gone = record { selection = preset (codes "gone"); system_scheme = light; stored = none }
