-- ===== src/Theme/Tokens.antt =====
-- web/src/theme/tokens.ts: the configuration of the component library and the CSS variables. The
-- library's `getDesignToken` is a parameter.
pub mod Agreement
pub mod Root
use Prim.Native.String.{String}
use pier_s3_gateway.Prelude.{
  ℕ, Bool, true, false, List, [], ◌∷◌, ◌++◌, ◌≡◌, Option, none, some, ltb, ◌==◌, if◌then◌else◌,
  Text, codes,
}
use pier_s3_gateway.Client.{truthy}
use pier_s3_gateway.Theme.{
  Scheme, light, dark, SurfaceKey, PresetTheme, bg_layout, bg_container, bg_elevated, border,
  border_secondary, surface2, border_strong, shadow_sm, shadow, shadow_lg, text, text_muted,
}

abbrev pub default_primary : Text
default_primary = codes "#4F46E5"

abbrev pub default_radius : ℕ
default_radius = 10

abbrev pub font_family : Text
font_family = codes "\"Inter\", -apple-system, \"Segoe UI\", Roboto, sans-serif"

abbrev pub mono_family : Text
mono_family = codes "\"JetBrains Mono\", ui-monospace, SFMono-Regular, Menlo, Consolas, monospace"

-- `SURFACES`
unfoldable pub surfaces : Scheme → List (SurfaceKey × String)
surfaces light =
    (bg_layout, "#F6F8FB")
    ∷ (bg_container, "#FFFFFF")
    ∷ (bg_elevated, "#FFFFFF")
    ∷ (border, "#E2E8F0")
    ∷ (border_secondary, "#EAEEF4")
    ∷ (surface2, "#F1F5F9")
    ∷ (border_strong, "#CBD5E1")
    ∷ (shadow_sm, "0 1px 2px rgba(15, 23, 42, 0.06)")
    ∷ (shadow, "0 6px 18px rgba(15, 23, 42, 0.08)")
    ∷ (shadow_lg, "0 18px 44px rgba(15, 23, 42, 0.14)")
    ∷ []
surfaces dark =
    (bg_layout, "#0B1120")
    ∷ (bg_container, "#141B2E")
    ∷ (bg_elevated, "#1B2540")
    ∷ (border, "#2A344E")
    ∷ (border_secondary, "#202A42")
    ∷ (surface2, "#1B2540")
    ∷ (border_strong, "#334155")
    ∷ (shadow_sm, "0 1px 2px rgba(0, 0, 0, 0.4)")
    ∷ (shadow, "0 8px 24px rgba(0, 0, 0, 0.45)")
    ∷ (shadow_lg, "0 24px 60px rgba(0, 0, 0, 0.6)")
    ∷ []

abbrev pub key_index : SurfaceKey → ℕ
key_index bg_layout = 0
key_index bg_container = 1
key_index bg_elevated = 2
key_index border = 3
key_index border_secondary = 4
key_index surface2 = 5
key_index border_strong = 6
key_index shadow_sm = 7
key_index shadow = 8
key_index shadow_lg = 9
key_index text = 10
key_index text_muted = 11

-- A property of an object written as its entries: the last one of that name, undefined without one.
unfoldable pub entry : SurfaceKey → List (SurfaceKey × String) → Option Text
entry k [] = none
entry k ((j, v) ∷ entries) = elim (entry k entries) [
  | some w ↦ some w
  | none ↦ if key_index j == key_index k then some (codes v) else none
]

abbrev pub overrides : Option PresetTheme → List (SurfaceKey × String)
overrides none = []
overrides (some p) = p.surfaces

-- `{ ...SURFACES[scheme], ...(preset?.surfaces ?? {}) }`
unfoldable pub resolve_surfaces : Scheme → Option PresetTheme → List (SurfaceKey × String)
unfolding surfaces
resolve_surfaces scheme preset = surfaces scheme ++ overrides preset

pub data Algorithm : Type 0 where
  default_algorithm dark_algorithm : Algorithm

-- `ThemeConfig['token']`: a property that is not set is `none`.
pub record Token : Type 0 where
  pub color_primary : Text
  pub border_radius : ℕ
  pub font_family : Text
  pub font_size : ℕ
  pub color_bg_layout : Option Text
  pub color_bg_container : Option Text
  pub color_bg_elevated : Option Text
  pub color_border : Option Text
  pub color_border_secondary : Option Text
  pub control_height : ℕ
  pub box_shadow_secondary : Option Text
  pub color_text : Option Text
  pub color_text_secondary : Option Text
  pub color_text_tertiary : Option Text

pub record Components : Type 0 where
  pub layout_header_bg : Option Text
  pub layout_sider_bg : Option Text
  pub layout_body_bg : Option Text
  pub menu_item_border_radius : ℕ
  pub menu_item_height : ℕ
  pub menu_item_margin_inline : ℕ
  pub menu_active_bar_width : ℕ
  pub card_border_radius_lg : ℕ
  pub table_header_bg : Option Text
  pub table_row_hover_bg : Option Text
  pub button_font_weight : ℕ
  pub button_primary_shadow : Text

pub record ThemeConfig : Type 0 where
  pub algorithm : Algorithm
  pub token : Token
  pub components : Components

abbrev algorithm_of : Scheme → Algorithm
algorithm_of light = default_algorithm
algorithm_of dark = dark_algorithm

abbrev primary_of : Option PresetTheme → Text
primary_of none = default_primary
primary_of (some p) = codes p.primary_color

abbrev radius_of : Option PresetTheme → ℕ
radius_of none = default_radius
radius_of (some p) = p.border_radius

-- `if (value) token.x = value`
abbrev if_truthy : Option Text → Option Text
if_truthy o = if truthy o then o else none

abbrev at_least : ℕ → ℕ → ℕ
at_least low n = if ltb n low then low else n

unfoldable pub build_theme_config : Scheme → Option PresetTheme → ThemeConfig
unfolding resolve_surfaces entry
build_theme_config scheme preset =
    let s = resolve_surfaces scheme preset in
    record {
      algorithm = algorithm_of scheme;
      token = record {
        color_primary = primary_of preset;
        border_radius = radius_of preset;
        font_family = font_family;
        font_size = 14;
        color_bg_layout = entry bg_layout s;
        color_bg_container = entry bg_container s;
        color_bg_elevated = entry bg_elevated s;
        color_border = entry border s;
        color_border_secondary = entry border_secondary s;
        control_height = 36;
        box_shadow_secondary = entry shadow s;
        color_text = if_truthy (entry text s);
        color_text_secondary = if_truthy (entry text_muted s);
        color_text_tertiary = if_truthy (entry text_muted s);
      };
      components = record {
        layout_header_bg = entry bg_container s;
        layout_sider_bg = entry bg_container s;
        layout_body_bg = entry bg_layout s;
        menu_item_border_radius = radius_of preset;
        menu_item_height = 40;
        menu_item_margin_inline = 8;
        menu_active_bar_width = 0;
        card_border_radius_lg = at_least 12 (radius_of preset);
        table_header_bg = entry surface2 s;
        table_row_hover_bg = entry surface2 s;
        button_font_weight = 500;
        button_primary_shadow = codes "none";
      };
    }

-- What the code reads of the computed tokens.
pub record DesignToken : Type 0 where
  pub color_primary : Text
  pub color_primary_hover : Text
  pub color_primary_active : Text
  pub color_primary_bg : Text
  pub color_border_secondary : Text
  pub color_bg_layout : Text
  pub color_bg_container : Text
  pub color_bg_elevated : Text
  pub color_text : Text
  pub color_text_secondary : Text

-- A token that the configuration sets is the one computed.
abbrev pub Keeps : Option Text → Text → Type 0
Keeps set computed = (v : Text) → set ≡ some v → computed ≡ v

-- `getDesignToken`: it computes every token, and keeps those that are set.
pub record DesignTheme : Type 0 where
  pub design_token : ThemeConfig → DesignToken
  pub keeps_border_secondary :
      (c : ThemeConfig)
      → Keeps c.token.color_border_secondary (design_token c).color_border_secondary
  pub keeps_bg_layout :
      (c : ThemeConfig) → Keeps c.token.color_bg_layout (design_token c).color_bg_layout
  pub keeps_bg_container :
      (c : ThemeConfig) → Keeps c.token.color_bg_container (design_token c).color_bg_container
  pub keeps_bg_elevated :
      (c : ThemeConfig) → Keeps c.token.color_bg_elevated (design_token c).color_bg_elevated

pub data CssVar : Type 0 where
  blue blue_hover blue_soft border_var border_strong_var bg text_var muted surface surface_2 :
      CssVar
  elevated row_hover dropzone_hover shadow_sm_var shadow_var shadow_lg_var gradient mono : CssVar

-- `a ?? b`
abbrev pub or_text : Option Text → Text → Option Text
or_text none t = some t
or_text (some s) t = some s

module _ (theme : DesignTheme) where
  open theme use {design_token}

  -- `computeCssVars`, in the order of its keys.
  unfoldable pub compute_css_vars :
      ThemeConfig → Scheme → Option PresetTheme → List (CssVar × Option Text)
  unfolding resolve_surfaces entry
  compute_css_vars config scheme preset =
      let t = design_token config in
      let s = resolve_surfaces scheme preset in
      (blue, some t.color_primary)
      ∷ (blue_hover, some t.color_primary_hover)
      ∷ (blue_soft, some t.color_primary_bg)
      ∷ (border_var, some t.color_border_secondary)
      ∷ (border_strong_var, entry border_strong s)
      ∷ (bg, some t.color_bg_layout)
      ∷ (text_var, or_text (entry text s) t.color_text)
      ∷ (muted, or_text (entry text_muted s) t.color_text_secondary)
      ∷ (surface, some t.color_bg_container)
      ∷ (surface_2, entry surface2 s)
      ∷ (elevated, some t.color_bg_elevated)
      ∷ (row_hover, entry surface2 s)
      ∷ (dropzone_hover, some t.color_primary_bg)
      ∷ (shadow_sm_var, entry shadow_sm s)
      ∷ (shadow_var, entry shadow s)
      ∷ (shadow_lg_var, entry shadow_lg s)
      ∷ (
        gradient,
        some (
            codes "linear-gradient(135deg, "
            ++ (t.color_primary_hover
                ++ (codes " 0%, "
                    ++ (t.color_primary
                        ++ (codes " 55%, " ++ (t.color_primary_active ++ codes " 100%)")))))),
      )
      ∷ (mono, some mono_family)
      ∷ []
