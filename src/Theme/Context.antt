-- ===== src/Theme/Context.antt =====
-- web/src/theme: what the components read of the theme in ThemeProvider.tsx, and the scheme of the system in storage.ts.
use pier_s3_gateway.Prelude.{Bool, List, Option, none, some, if◌then◌else◌}
use pier_s3_gateway.Theme.{Scheme, light, dark, PresetTheme, ThemeSelection}
use pier_s3_gateway.Theme.Presets.{preset_themes}
use pier_s3_gateway.Theme.Provider.{ThemeState, active_preset, effective_scheme}

-- None stands for a page without `matchMedia`.
unfoldable pub get_system_scheme : Option Bool → Scheme
get_system_scheme none = light
get_system_scheme (some prefers_dark) = if prefers_dark then dark else light

pub record ThemeContextValue : Type 0 where
  pub selection : ThemeSelection
  pub scheme : Scheme
  pub presets : List PresetTheme
  pub preset : Option PresetTheme

unfoldable pub context_value : ThemeState → ThemeContextValue
unfolding active_preset effective_scheme
context_value s = record {
  selection = s.selection;
  scheme = effective_scheme s;
  presets = preset_themes;
  preset = active_preset s.selection;
}
