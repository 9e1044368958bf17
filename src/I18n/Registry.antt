-- ===== src/I18n/Registry.antt =====
-- web/src/i18n/index.ts: the languages, and what is derived from their list.
use Prim.Native.String.{String}
use pier_s3_gateway.Prelude.{Bool, true, false, List, [], ◌∷◌, Option, none, some, Text, codes}
use pier_s3_gateway.I18n.{Bundle, find}
use pier_s3_gateway.I18n.En
use pier_s3_gateway.I18n.Ru
use pier_s3_gateway.I18n.Es
use pier_s3_gateway.I18n.It
use pier_s3_gateway.I18n.Fr

pub record LanguageDef : Type 0 where
  pub code : Text
  pub label : Text
  pub bundle : Bundle

abbrev or_empty : Option Text → Text
or_empty none = []
or_empty (some t) = t

-- `common?.nativeName ?? ''`
unfoldable pub endonym : Bundle → Text
unfolding find
endonym bundle = or_empty (find (codes "common") (codes "nativeName") bundle)

unfoldable pub registry : List (String × Bundle)
registry =
    ("en", En.bundle)
    ∷ ("ru", Ru.bundle)
    ∷ ("es", Es.bundle)
    ∷ ("it", It.bundle)
    ∷ ("fr", Fr.bundle)
    ∷ []

abbrev language_defs : List (String × Bundle) → List LanguageDef
language_defs [] = []
language_defs ((code, bundle) ∷ rest) =
    record { code = codes code; label = endonym bundle; bundle = bundle } ∷ language_defs rest

unfoldable pub languages : List LanguageDef
unfolding registry endonym
languages = language_defs registry

abbrev language_codes : List LanguageDef → List Text
language_codes [] = []
language_codes (l ∷ ls) = l.code ∷ language_codes ls

unfoldable pub supported_languages : List Text
unfolding languages
supported_languages = language_codes languages

abbrev options_of : List LanguageDef → List (Text × Text)
options_of [] = []
options_of (l ∷ ls) = (l.code, l.label) ∷ options_of ls

-- The value and the label of each option.
unfoldable pub language_options : List (Text × Text)
unfolding languages
language_options = options_of languages

abbrev resources_of : List LanguageDef → List (Text × Bundle)
resources_of [] = []
resources_of (l ∷ ls) = (l.code, l.bundle) ∷ resources_of ls

-- The bundle of each code, which i18next is given.
unfoldable pub resources : List (Text × Bundle)
unfolding languages
resources = resources_of languages

pub record InitOptions : Type 0 where
  pub fallback_lng : Text
  pub supported_lngs : List Text
  pub non_explicit_supported_lngs : Bool
  pub escape_value : Bool
  pub order : List Text
  pub lookup_local_storage : Text
  pub caches : List Text

unfoldable pub init_options : InitOptions
unfolding supported_languages
init_options = record {
  fallback_lng = codes "en";
  supported_lngs = supported_languages;
  non_explicit_supported_lngs = true;
  escape_value = false;
  order = codes "localStorage" ∷ codes "navigator" ∷ [];
  lookup_local_storage = codes "lang";
  caches = codes "localStorage" ∷ [];
}
