-- ===== src/Tests/Witnesses/ShellCases.antt =====
-- web/src/components/AppShell.tsx and web/src/theme: the theorems at a concrete menu and theme.
use pier_s3_gateway.Prelude.{
  true, false, ◌≡◌, refl, none, some, Option, Text, codes, drop, if◌then◌else◌,
}
use pier_s3_gateway.Auth.Routes.{Route, buckets, bucket}
use pier_s3_gateway.Preview.Kind.{starts_with}
use pier_s3_gateway.Store.Buckets.{BucketInfo}
use pier_s3_gateway.Theme.{dark}
use pier_s3_gateway.Theme.Presets.{ocean}
use pier_s3_gateway.Theme.Tokens.{ThemeConfig, DesignToken, DesignTheme}
use pier_s3_gateway.Theme.Tokens.Root.{Root}
use pier_s3_gateway.Theme.Tokens.Agreement.{IsOnePalette, apply_css_vars-IsOnePalette}
use pier_s3_gateway.View.Shell.{Shell, bucket_path}
use pier_s3_gateway.View.Shell.Menu.{Router, IsPlainName}

-- A router for the two routes under `/buckets`.
abbrev after_buckets : Text → Route
after_buckets path = if starts_with (codes "/buckets/") path then bucket (drop 9 path) else buckets

after_buckets-bucket_path :
    (name : Text) → IsPlainName name → after_buckets (bucket_path name) ≡ bucket name
unfolding starts_with
after_buckets-bucket_path name h = refl

after_buckets-root : after_buckets (codes "/buckets") ≡ buckets
unfolding starts_with
after_buckets-root = refl

abbrev two_routes : Router
two_routes = record {
  match_path = after_buckets;
  match_buckets = after_buckets-root;
  match_bucket = after_buckets-bucket_path;
}

abbrev data_bucket : BucketInfo
data_bucket = record {
  name = codes "data";
  permissions = record { read = true; write = false; delete = none };
  object_count = none;
  size_bytes = none;
  stats_truncated = none;
  quota_bytes = none;
}

abbrev shell : Shell
shell = record { path = codes "/buckets"; mobile_nav_open = true }

-- The tokens that are set, and black for the others.
abbrev or_black : Option Text → Text
or_black none = codes "#000"
or_black (some t) = t

or_black-keeps : (o : Option Text) (v : Text) → o ≡ some v → or_black o ≡ v
or_black-keeps none v e = cc e
or_black-keeps (some t) v e = cc e

abbrev tokens_of : ThemeConfig → DesignToken
tokens_of c = record {
  color_primary = c.token.color_primary;
  color_primary_hover = c.token.color_primary;
  color_primary_active = c.token.color_primary;
  color_primary_bg = c.token.color_primary;
  color_border_secondary = or_black c.token.color_border_secondary;
  color_bg_layout = or_black c.token.color_bg_layout;
  color_bg_container = or_black c.token.color_bg_container;
  color_bg_elevated = or_black c.token.color_bg_elevated;
  color_text = or_black c.token.color_text;
  color_text_secondary = or_black c.token.color_text_secondary;
}

abbrev plain_theme : DesignTheme
plain_theme = record {
  design_token = tokens_of;
  keeps_border_secondary = λ c. or_black-keeps c.token.color_border_secondary;
  keeps_bg_layout = λ c. or_black-keeps c.token.color_bg_layout;
  keeps_bg_container = λ c. or_black-keeps c.token.color_bg_container;
  keeps_bg_elevated = λ c. or_black-keeps c.token.color_bg_elevated;
}

abbrev bare : Root
bare = record { style = λ v. none; data_theme = none }

apply_css_vars-IsOnePalette_example : IsOnePalette plain_theme dark (some ocean) bare
apply_css_vars-IsOnePalette_example = apply_css_vars-IsOnePalette plain_theme dark (some ocean) bare
