-- ===== src/Theme/Tokens/Agreement.antt =====
-- The hand-written style sheet and the component library show one palette.
use Prim.Native.String.{String}
use pier_s3_gateway.Prelude.{
  Bool, true, false, List, [], ◌∷◌, ◌++◌, ◌≡◌, refl, sym, ap, ◌∙◌, Option, none, some, Text, arith,
}
use pier_s3_gateway.Theme.{
  Scheme, light, dark, SurfaceKey, PresetTheme, bg_layout, bg_container, bg_elevated, border,
  border_secondary, surface2, border_strong, shadow_sm, shadow, shadow_lg, text, text_muted,
}
use pier_s3_gateway.Theme.Tokens.{
  surfaces, entry, overrides, resolve_surfaces, build_theme_config, DesignTheme, compute_css_vars,
  bg, surface, elevated, border_var, border_strong_var, surface_2, row_hover, shadow_sm_var,
  shadow_var, shadow_lg_var, text_var, muted, or_text,
}
use pier_s3_gateway.Theme.Tokens.Root.{Root, as_string, apply_css_vars}

abbrev pub or_else : Option Text → Option Text → Option Text
or_else none o = o
or_else (some t) o = some t

-- The properties of a spread: those of the second object, where it has them.
entry-append :
    (k : SurfaceKey) (xs ys : List (SurfaceKey × String))
    → entry k (xs ++ ys) ≡ or_else (entry k ys) (entry k xs)
unfolding entry
entry-append k [] ys = ground arith
entry-append k ((j, v) ∷ xs) ys = ground (arith, entry-append k xs ys)

-- The palette: the preset's own surface, and the scheme's where it has none.
abbrev pub palette : Scheme → Option PresetTheme → SurfaceKey → Option Text
palette scheme preset k = or_else (entry k (overrides preset)) (entry k (surfaces scheme))

resolve_surfaces-entry :
    (scheme : Scheme) (preset : Option PresetTheme) (k : SurfaceKey)
    → entry k (resolve_surfaces scheme preset) ≡ palette scheme preset k
unfolding resolve_surfaces
resolve_surfaces-entry scheme preset k = entry-append k (surfaces scheme) (overrides preset)

-- The surfaces that every scheme has.
abbrev is_required : SurfaceKey → Bool
is_required text = false
is_required text_muted = false
is_required _ = true

surfaces-entry :
    (scheme : Scheme) (k : SurfaceKey)
    → is_required k ≡ true
    → (v : Text) × (entry k (surfaces scheme) ≡ some v)
unfolding surfaces entry
surfaces-entry light k h =
    elim k as (λ k. is_required k ≡ true → (v : Text) × (entry k (surfaces light) ≡ some v)) [
      | bg_layout ↦ λ _. (_, refl)
      | bg_container ↦ λ _. (_, refl)
      | bg_elevated ↦ λ _. (_, refl)
      | border ↦ λ _. (_, refl)
      | border_secondary ↦ λ _. (_, refl)
      | surface2 ↦ λ _. (_, refl)
      | border_strong ↦ λ _. (_, refl)
      | shadow_sm ↦ λ _. (_, refl)
      | shadow ↦ λ _. (_, refl)
      | shadow_lg ↦ λ _. (_, refl)
      | text ↦ λ e. cc
      | text_muted ↦ λ e. cc
    ]
      h
surfaces-entry dark k h =
    elim k as (λ k. is_required k ≡ true → (v : Text) × (entry k (surfaces dark) ≡ some v)) [
      | bg_layout ↦ λ _. (_, refl)
      | bg_container ↦ λ _. (_, refl)
      | bg_elevated ↦ λ _. (_, refl)
      | border ↦ λ _. (_, refl)
      | border_secondary ↦ λ _. (_, refl)
      | surface2 ↦ λ _. (_, refl)
      | border_strong ↦ λ _. (_, refl)
      | shadow_sm ↦ λ _. (_, refl)
      | shadow ↦ λ _. (_, refl)
      | shadow_lg ↦ λ _. (_, refl)
      | text ↦ λ e. cc
      | text_muted ↦ λ e. cc
    ]
      h

or_else-some : (o p : Option Text) (v : Text) → p ≡ some v → (w : Text) × (or_else o p ≡ some w)
or_else-some none p v e = (v, e)
or_else-some (some t) p v e = (t, refl)

palette-required :
    (scheme : Scheme) (preset : Option PresetTheme) (k : SurfaceKey)
    → is_required k ≡ true
    → (v : Text) × (palette scheme preset k ≡ some v)
palette-required scheme preset k h =
    let (v, e) = surfaces-entry scheme k h in or_else-some (entry k (overrides preset)) _ v e

module _ (theme : DesignTheme) (scheme : Scheme) (preset : Option PresetTheme) (r : Root) where
  -- A token that is set to a surface of the palette is that surface.
  kept :
      (k : SurfaceKey) (set : Option Text) (computed : Text)
      → is_required k ≡ true
      → set ≡ entry k (resolve_surfaces scheme preset)
      → ((v : Text) → set ≡ some v → computed ≡ v)
      → some computed ≡ palette scheme preset k
  kept k set computed h e keeps =
      let (v, q) = palette-required scheme preset k h in
      ap some (keeps v (e ∙ resolve_surfaces-entry scheme preset k ∙ q)) ∙ sym q

  written :
      (k : SurfaceKey)
      → is_required k ≡ true
      → some (as_string (entry k (resolve_surfaces scheme preset))) ≡ palette scheme preset k
  written k h =
      let (v, q) = palette-required scheme preset k h in
      ap (λ o. some (as_string o)) (resolve_surfaces-entry scheme preset k ∙ q) ∙ sym q

  -- A text color: the palette's, or the one that the library computed.
  chosen :
      (k : SurfaceKey) (computed : Text)
      → some (as_string (or_text (entry k (resolve_surfaces scheme preset)) computed))
        ≡ or_else (palette scheme preset k) (some computed)
  chosen k computed =
      ap (λ o. some (as_string (or_text o computed))) (resolve_surfaces-entry scheme preset k)
      ∙ either (palette scheme preset k)
    where
      either : (o : Option Text) → some (as_string (or_text o computed)) ≡ or_else o (some computed)
      either none = refl
      either (some t) = refl

  -- What the style sheet reads, what the components are configured with, and the palette.
  pub record IsOnePalette : Type 0 where
    pub page : (apply_css_vars theme scheme preset r).style bg ≡ palette scheme preset bg_layout
    pub cards :
        (apply_css_vars theme scheme preset r).style surface ≡ palette scheme preset bg_container
    pub popups :
        (apply_css_vars theme scheme preset r).style elevated ≡ palette scheme preset bg_elevated
    pub lines :
        ((apply_css_vars theme scheme preset r).style border_var
          ≡ palette scheme preset border_secondary)
        × ((apply_css_vars theme scheme preset r).style border_strong_var
            ≡ palette scheme preset border_strong)
    pub tables :
        ((apply_css_vars theme scheme preset r).style surface_2 ≡ palette scheme preset surface2)
        × ((apply_css_vars theme scheme preset r).style row_hover ≡ palette scheme preset surface2)
        × ((build_theme_config scheme preset).components.table_header_bg
            ≡ palette scheme preset surface2)
    pub shadows :
        ((apply_css_vars theme scheme preset r).style shadow_sm_var
          ≡ palette scheme preset shadow_sm)
        × ((apply_css_vars theme scheme preset r).style shadow_var ≡ palette scheme preset shadow)
        × ((apply_css_vars theme scheme preset r).style shadow_lg_var
            ≡ palette scheme preset shadow_lg)
        × ((build_theme_config scheme preset).token.box_shadow_secondary
            ≡ palette scheme preset shadow)
    -- A text color that the palette leaves open is the library's.
    pub texts :
        ((apply_css_vars theme scheme preset r).style text_var
          ≡ or_else
              (palette scheme preset text)
              (some (theme.design_token (build_theme_config scheme preset)).color_text))
        × ((apply_css_vars theme scheme preset r).style muted
            ≡ or_else
                (palette scheme preset text_muted)
                (some (theme.design_token (build_theme_config scheme preset)).color_text_secondary))

  -- For every scheme and preset, whatever surfaces the preset overrides, provided that the component library keeps the
  -- tokens it is given: each CSS variable of a surface (the page, the
  -- cards, the popups, both lines, the tables with their hovered rows, the three shadows) is the preset's own one, or the
  -- scheme's where it has none; the two text colors are the preset's, or the component library's; and the head of
  -- tables and the shadow of popups that the library is configured with are the same as in the variables.
  pub apply_css_vars-IsOnePalette : IsOnePalette
  unfolding apply_css_vars compute_css_vars build_theme_config
  apply_css_vars-IsOnePalette = record {
    page = kept bg_layout _ _ refl refl (theme.keeps_bg_layout (build_theme_config scheme preset));
    cards =
        kept bg_container _ _ refl refl
          (theme.keeps_bg_container (build_theme_config scheme preset));
    popups =
        kept bg_elevated _ _ refl refl (theme.keeps_bg_elevated (build_theme_config scheme preset));
    lines = (
      kept border_secondary _ _ refl refl
          (theme.keeps_border_secondary (build_theme_config scheme preset)),
      written border_strong refl,
    );
    tables = (
      written surface2 refl,
      written surface2 refl,
      resolve_surfaces-entry scheme preset surface2,
    );
    shadows = (
      written shadow_sm refl,
      written shadow refl,
      written shadow_lg refl,
      resolve_surfaces-entry scheme preset shadow,
    );
    texts = (chosen text _, chosen text_muted _);
  }
