-- ===== src/Theme/Tokens/Root.antt =====
-- `applyCssVars` of web/src/theme/ThemeProvider.tsx: the style of the root element.
use pier_s3_gateway.Prelude.{
  ℕ, Bool, true, false, List, [], ◌∷◌, ◌≡◌, ◌≢◌, ◌∙◌, sym, refl, ◌||◌, Bool-cases, inl, inr, Option,
  none, some, ◌==◌, if◌then◌else◌, Text, codes, arith,
}
use pier_s3_gateway.Theme.{Scheme, PresetTheme}
use pier_s3_gateway.Theme.Tokens.{
  CssVar, blue, blue_hover, blue_soft, border_var, border_strong_var, bg, text_var, muted, surface,
  surface_2, elevated, row_hover, dropzone_hover, shadow_sm_var, shadow_var, shadow_lg_var,
  gradient, mono, DesignTheme, compute_css_vars, build_theme_config,
}

abbrev pub var_index : CssVar → ℕ
var_index blue = 0
var_index blue_hover = 1
var_index blue_soft = 2
var_index border_var = 3
var_index border_strong_var = 4
var_index bg = 5
var_index text_var = 6
var_index muted = 7
var_index surface = 8
var_index surface_2 = 9
var_index elevated = 10
var_index row_hover = 11
var_index dropzone_hover = 12
var_index shadow_sm_var = 13
var_index shadow_var = 14
var_index shadow_lg_var = 15
var_index gradient = 16
var_index mono = 17

-- The properties that are set on the root element, and its `data-theme`.
pub record Root : Type 0 where
  pub style : CssVar → Option Text
  pub data_theme : Option Scheme

-- `setProperty` writes its value as a string.
abbrev pub as_string : Option Text → Text
as_string none = codes "undefined"
as_string (some t) = t

unfoldable pub set_property : CssVar → Option Text → Root → Root
set_property v value r = record r {
  style = λ w. if var_index v == var_index w then some (as_string value) else r.style w;
}

unfoldable pub set_properties : List (CssVar × Option Text) → Root → Root
unfolding set_property
set_properties [] r = r
set_properties ((v, value) ∷ vars) r = set_properties vars (set_property v value r)

-- The value that the last entry for a variable gives it.
abbrev pub last_value : CssVar → List (CssVar × Option Text) → Option Text → Option Text
last_value v [] before = before
last_value v ((w, value) ∷ vars) before =
    last_value v vars (if var_index w == var_index v then some (as_string value) else before)

pub set_properties-style :
    (vars : List (CssVar × Option Text)) (r : Root) (v : CssVar)
    → (set_properties vars r).style v ≡ last_value v vars (r.style v)
unfolding set_properties
set_properties-style [] r v = refl
set_properties-style ((w, value) ∷ vars) r v =
    set_properties-style vars
      (record r {
        style = λ u. if var_index w == var_index u then some (as_string value) else r.style u;
      })
      v

abbrev names : CssVar → List (CssVar × Option Text) → Bool
names v [] = false
names v ((w, _) ∷ vars) = var_index w == var_index v || names v vars

last_value-names :
    (v : CssVar) (vars : List (CssVar × Option Text)) (before other : Option Text)
    → names v vars ≡ true
    → (last_value v vars before ≡ last_value v vars other) × (last_value v vars before ≢ none)
last_value-names v [] before other h = cc
last_value-names v ((w, value) ∷ vars) before other h =
    elim (Bool-cases (var_index w == var_index v)) [
      | inl here ↦ rw here (kept v vars (as_string value))
      | inr there ↦ rw there (last_value-names v vars before other (ground arith))
    ]
  where
    kept :
        (v : CssVar) (vars : List (CssVar × Option Text)) (t : Text)
        → (last_value v vars (some t) ≡ last_value v vars (some t))
          × (last_value v vars (some t) ≢ none)
    kept v [] t = (refl, λ e. cc)
    kept v ((w, value) ∷ vars) t = elim (Bool-cases (var_index w == var_index v)) [
      | inl here ↦ rw here (kept v vars (as_string value))
      | inr there ↦ rw there (kept v vars t)
    ]

module _ (theme : DesignTheme) where
  -- The effect of the provider: the configuration of the scheme and preset, applied.
  unfoldable pub apply_css_vars : Scheme → Option PresetTheme → Root → Root
  unfolding set_properties
  apply_css_vars scheme preset r =
      record (set_properties
        (compute_css_vars theme (build_theme_config scheme preset) scheme preset) r) {
          data_theme = some scheme;
        }

  all_named :
      (scheme : Scheme) (preset : Option PresetTheme) (v : CssVar)
      → names v (compute_css_vars theme (build_theme_config scheme preset) scheme preset) ≡ true
  unfolding compute_css_vars
  all_named scheme preset v =
      elim v
        as (λ w.
          names w (compute_css_vars theme (build_theme_config scheme preset) scheme preset)
          ≡ true) [
            | blue ↦ refl
            | blue_hover ↦ refl
            | blue_soft ↦ refl
            | border_var ↦ refl
            | border_strong_var ↦ refl
            | bg ↦ refl
            | text_var ↦ refl
            | muted ↦ refl
            | surface ↦ refl
            | surface_2 ↦ refl
            | elevated ↦ refl
            | row_hover ↦ refl
            | dropzone_hover ↦ refl
            | shadow_sm_var ↦ refl
            | shadow_var ↦ refl
            | shadow_lg_var ↦ refl
            | gradient ↦ refl
            | mono ↦ refl
          ]

  -- Whatever was applied before, applying a scheme and a preset sets every variable and the attribute: nothing of
  -- another theme is left.
  pub apply_css_vars-again :
      (scheme : Scheme) (preset : Option PresetTheme) (r r' : Root) (v : CssVar)
      → ((apply_css_vars scheme preset r).style v ≡ (apply_css_vars scheme preset r').style v)
        × ((apply_css_vars scheme preset r).style v ≢ none)
        × ((apply_css_vars scheme preset r).data_theme ≡ some scheme)
  unfolding apply_css_vars
  apply_css_vars-again scheme preset r r' v =
      let vars = compute_css_vars theme (build_theme_config scheme preset) scheme preset in
      let (same, set) =
        last_value-names v vars (r.style v) (r'.style v) (all_named scheme preset v) in
      (
        set_properties-style vars r v ∙ same ∙ sym (set_properties-style vars r' v),
        (λ e. set (sym (set_properties-style vars r v) ∙ e)),
        refl,
      )
