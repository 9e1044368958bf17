-- ===== src/Theme/Presets.antt =====
-- web/src/theme/presets.ts: the themes that are defined in code.
use pier_s3_gateway.Prelude.{List, [], ◌∷◌, ◌≡◌, refl, All, codes}
use pier_s3_gateway.Theme.{
  PresetTheme, Scheme, light, dark, bg_layout, bg_container, bg_elevated, border, border_secondary,
  surface2, border_strong, text, text_muted, default_selection, resolve_scheme, preset,
}

abbrev pub ocean : PresetTheme
ocean = record {
  id = "ocean";
  name = "Ocean";
  base = light;
  primary_color = "#0EA5E9";
  border_radius = 10;
  surfaces = [];
}

abbrev midnight : PresetTheme
midnight = record {
  id = "midnight";
  name = "Midnight";
  base = dark;
  primary_color = "#6366F1";
  border_radius = 10;
  surfaces = [];
}

abbrev emerald : PresetTheme
emerald = record {
  id = "emerald";
  name = "Emerald";
  base = dark;
  primary_color = "#10B981";
  border_radius = 10;
  surfaces = [];
}

abbrev github_light : PresetTheme
github_light = record {
  id = "github-light";
  name = "GitHub Light";
  base = light;
  primary_color = "#0969DA";
  border_radius = 6;
  surfaces =
      (bg_layout, "#F6F8FA")
      ∷ (bg_container, "#FFFFFF")
      ∷ (bg_elevated, "#FFFFFF")
      ∷ (border, "#D0D7DE")
      ∷ (border_secondary, "#D8DEE4")
      ∷ (surface2, "#F6F8FA")
      ∷ (border_strong, "#AFB8C1")
      ∷ (text, "#1F2328")
      ∷ (text_muted, "#656D76")
      ∷ [];
}

abbrev github_dark : PresetTheme
github_dark = record {
  id = "github-dark";
  name = "GitHub Dark";
  base = dark;
  primary_color = "#2F81F7";
  border_radius = 6;
  surfaces =
      (bg_layout, "#010409")
      ∷ (bg_container, "#0D1117")
      ∷ (bg_elevated, "#161B22")
      ∷ (border, "#30363D")
      ∷ (border_secondary, "#21262D")
      ∷ (surface2, "#161B22")
      ∷ (border_strong, "#3D444D")
      ∷ (text, "#E6EDF3")
      ∷ (text_muted, "#8B949E")
      ∷ [];
}

abbrev claude_light : PresetTheme
claude_light = record {
  id = "claude-light";
  name = "Claude Light";
  base = light;
  primary_color = "#C96442";
  border_radius = 8;
  surfaces =
      (bg_layout, "#F0EEE6")
      ∷ (bg_container, "#FAF9F5")
      ∷ (bg_elevated, "#FFFFFF")
      ∷ (border, "#DAD3C2")
      ∷ (border_secondary, "#E7E1D5")
      ∷ (surface2, "#F0EEE6")
      ∷ (border_strong, "#C9BFA8")
      ∷ (text, "#29261F")
      ∷ (text_muted, "#6B6456")
      ∷ [];
}

abbrev claude_dark : PresetTheme
claude_dark = record {
  id = "claude-dark";
  name = "Claude Dark";
  base = dark;
  primary_color = "#D97757";
  border_radius = 8;
  surfaces =
      (bg_layout, "#1F1E1D")
      ∷ (bg_container, "#262624")
      ∷ (bg_elevated, "#30302E")
      ∷ (border, "#3E3E3A")
      ∷ (border_secondary, "#333330")
      ∷ (surface2, "#2A2A28")
      ∷ (border_strong, "#4A4A45")
      ∷ (text, "#ECEAE2")
      ∷ (text_muted, "#A6A095")
      ∷ [];
}

abbrev dracula : PresetTheme
dracula = record {
  id = "dracula";
  name = "Dracula";
  base = dark;
  primary_color = "#BD93F9";
  border_radius = 8;
  surfaces =
      (bg_layout, "#21222C")
      ∷ (bg_container, "#282A36")
      ∷ (bg_elevated, "#343746")
      ∷ (border, "#44475A")
      ∷ (border_secondary, "#343746")
      ∷ (surface2, "#343746")
      ∷ (border_strong, "#6272A4")
      ∷ (text, "#F8F8F2")
      ∷ (text_muted, "#9AA0B5")
      ∷ [];
}

abbrev nord : PresetTheme
nord = record {
  id = "nord";
  name = "Nord";
  base = dark;
  primary_color = "#88C0D0";
  border_radius = 8;
  surfaces =
      (bg_layout, "#2E3440")
      ∷ (bg_container, "#3B4252")
      ∷ (bg_elevated, "#434C5E")
      ∷ (border, "#4C566A")
      ∷ (border_secondary, "#434C5E")
      ∷ (surface2, "#434C5E")
      ∷ (border_strong, "#4C566A")
      ∷ (text, "#ECEFF4")
      ∷ (text_muted, "#AEB6C7")
      ∷ [];
}

abbrev solarized_light : PresetTheme
solarized_light = record {
  id = "solarized-light";
  name = "Solarized Light";
  base = light;
  primary_color = "#268BD2";
  border_radius = 6;
  surfaces =
      (bg_layout, "#EEE8D5")
      ∷ (bg_container, "#FDF6E3")
      ∷ (bg_elevated, "#FDF6E3")
      ∷ (border, "#E3DCC6")
      ∷ (border_secondary, "#EEE8D5")
      ∷ (surface2, "#EEE8D5")
      ∷ (border_strong, "#CFC8B0")
      ∷ (text, "#657B83")
      ∷ (text_muted, "#93A1A1")
      ∷ [];
}

abbrev rose_pine : PresetTheme
rose_pine = record {
  id = "rose-pine";
  name = "Rosé Pine";
  base = dark;
  primary_color = "#C4A7E7";
  border_radius = 10;
  surfaces =
      (bg_layout, "#191724")
      ∷ (bg_container, "#1F1D2E")
      ∷ (bg_elevated, "#26233A")
      ∷ (border, "#26233A")
      ∷ (border_secondary, "#211F30")
      ∷ (surface2, "#26233A")
      ∷ (border_strong, "#403D52")
      ∷ (text, "#E0DEF4")
      ∷ (text_muted, "#908CAA")
      ∷ [];
}

abbrev gruvbox : PresetTheme
gruvbox = record {
  id = "gruvbox";
  name = "Gruvbox";
  base = dark;
  primary_color = "#FE8019";
  border_radius = 6;
  surfaces =
      (bg_layout, "#1D2021")
      ∷ (bg_container, "#282828")
      ∷ (bg_elevated, "#3C3836")
      ∷ (border, "#504945")
      ∷ (border_secondary, "#3C3836")
      ∷ (surface2, "#3C3836")
      ∷ (border_strong, "#665C54")
      ∷ (text, "#EBDBB2")
      ∷ (text_muted, "#A89984")
      ∷ [];
}

unfoldable pub preset_themes : List PresetTheme
preset_themes =
    ocean ∷ midnight ∷ emerald ∷ github_light ∷ github_dark ∷ claude_light ∷ claude_dark ∷ dracula
    ∷ nord ∷ solarized_light ∷ rose_pine ∷ gruvbox ∷ []

-- Every theme of the list is found under its own id, so choosing it gives its own base, whatever
-- the system's scheme is; and the default selection is such a theme, which is light.
pub resolve_scheme-preset_themes :
    (scheme : Scheme)
    → All (λ p. resolve_scheme (preset (codes p.id)) scheme preset_themes ≡ p.base) preset_themes
      × (resolve_scheme default_selection scheme preset_themes ≡ light)
unfolding resolve_scheme preset_themes
resolve_scheme-preset_themes scheme = (
  (
    refl,
    (refl, (refl, (refl, (refl, (refl, (refl, (refl, (refl, (refl, (refl, (refl, tt))))))))))),
  ),
  refl,
)
