-- ===== src/I18n/Complete.antt =====
-- web/src/i18n: every bundle has the texts of the English one, with the same placeholders.
use pier_s3_gateway.Prelude.{
  Bool, true, false, not, ◌&&◌, List, [], ◌∷◌, ◌≡◌, refl, subst, Option, none, some, ◌==◌,
  if◌then◌else◌, Text, codes, text_eq, text_eq_iff, any, arith, All, Bool-cases, inl, inr, is_empty,
}
use pier_s3_gateway.I18n.{
  Bundle, Group, find, find_group, find_text, group_or_none, placeholders, outside,
}
use pier_s3_gateway.I18n.En
use pier_s3_gateway.I18n.Ru
use pier_s3_gateway.I18n.Es
use pier_s3_gateway.I18n.It
use pier_s3_gateway.I18n.Fr
use pier_s3_gateway.I18n.Registry.{LanguageDef, languages}

-- Without a suffix from its underscore on: the key that a plural form belongs to.
abbrev base_key : Text → Text
base_key [] = []
base_key (c ∷ s) = let rest = base_key s in if c == b'_' then [] else c ∷ rest

abbrev covers : List Text → List Text → Bool
covers names [] = true
covers names (n ∷ ns) = any (text_eq n) names && covers names ns

-- Two texts have values put in for the same names.
abbrev pub same_names : Text → Text → Bool
same_names a b =
    covers (placeholders outside a) (placeholders outside b)
    && covers (placeholders outside b) (placeholders outside a)

-- The text is there, is not empty, and has the same placeholders.
abbrev is_translated : Text → Option Text → Bool
is_translated text none = false
is_translated text (some t) = not (is_empty t) && same_names text t

abbrev is_plural : Text → Bool
is_plural key = not (text_eq (base_key key) key)

-- Each text of the group is in the other bundle, under its key or, for a plural form, that it belongs to.
abbrev group_in : Text → Group → Bundle → Bool
group_in group [] bundle = true
group_in group ((k, v) ∷ texts) bundle =
    is_translated (codes v) (find group (base_key (codes k)) bundle) && group_in group texts bundle

abbrev bundle_in : Bundle → Bundle → Bool
bundle_in [] bundle = true
bundle_in ((n, g) ∷ groups) bundle = group_in (codes n) g bundle && bundle_in groups bundle

find_text-group_in :
    (group key : Text) (texts : Group) (bundle : Bundle) (v : Text)
    → group_in group texts bundle ≡ true
    → find_text key texts ≡ some v
    → is_translated v (find group (base_key key) bundle) ≡ true
unfolding find_text
find_text-group_in group key [] bundle v h e = cc
find_text-group_in group key ((k, w) ∷ texts) bundle v h e =
    elim (Bool-cases (text_eq (codes k) key)) [
      | inl here ↦
          let own : is_translated (codes w) (find group (base_key (codes k)) bundle) ≡ true =
            ground arith in
          let same : codes w ≡ v = cc (rw here at e) in
          subst (λ t. is_translated t (find group (base_key key) bundle) ≡ true) same
            (subst (λ c. is_translated (codes w) (find group (base_key c) bundle) ≡ true)
              ((text_eq_iff (codes k) key).0 here) own)
      | inr there ↦ find_text-group_in group key texts bundle v (ground arith) (rw there at e)
    ]

find_group-bundle_in :
    (group key : Text) (groups : Bundle) (bundle : Bundle) (v : Text)
    → bundle_in groups bundle ≡ true
    → find_text key (group_or_none (find_group group groups)) ≡ some v
    → is_translated v (find group (base_key key) bundle) ≡ true
unfolding find_group
find_group-bundle_in group key [] bundle v h e = unfold find_text in cc e
find_group-bundle_in group key ((n, g) ∷ groups) bundle v h e =
    elim (Bool-cases (text_eq (codes n) group)) [
      | inl here ↦
          subst (λ c. is_translated v (find c (base_key key) bundle) ≡ true)
            ((text_eq_iff (codes n) group).0 here)
            (find_text-group_in (codes n) key g bundle v (ground arith) (rw here at e))
      | inr there ↦ find_group-bundle_in group key groups bundle v (ground arith) (rw there at e)
    ]

-- Each text of a bundle has a counterpart in the other.
abbrev pub IsCovered : Bundle → Bundle → Type 0
IsCovered a b =
    (group key v : Text)
    → find group key a ≡ some v
    → (w : Text) × (find group (base_key key) b ≡ some w)
      × (is_empty w ≡ false)
      × (same_names v w ≡ true)

translated :
    (v : Text) (o : Option Text)
    → is_translated v o ≡ true
    → (w : Text) × (o ≡ some w) × (is_empty w ≡ false) × (same_names v w ≡ true)
translated v none h = cc
translated v (some w) h = (w, refl, ground arith, ground arith)

bundle_in-IsCovered : (a b : Bundle) → bundle_in a b ≡ true → IsCovered a b
unfolding find
bundle_in-IsCovered a b h group key v e =
    translated v (find group (base_key key) b) (find_group-bundle_in group key a b v h e)

abbrev pub IsComplete : LanguageDef → Type 0
IsComplete l =
    IsCovered En.bundle l.bundle × IsCovered l.bundle En.bundle × (is_empty l.label ≡ false)

-- In every language of the registry each text of the English bundle has a counterpart that is not
-- empty and has the same placeholders, and each text of the language has one in English, a plural form under the key
-- that it belongs to; and the language has a name for the menu.
pub languages-IsComplete : All IsComplete languages
unfolding languages find find_text find_group placeholders En.bundle Ru.bundle Es.bundle It.bundle
    Fr.bundle
languages-IsComplete = (
  (
    bundle_in-IsCovered En.bundle En.bundle refl,
    bundle_in-IsCovered En.bundle En.bundle refl,
    refl,
  ),
  (
    (
      bundle_in-IsCovered En.bundle Ru.bundle refl,
      bundle_in-IsCovered Ru.bundle En.bundle refl,
      refl,
    ),
    (
      (
        bundle_in-IsCovered En.bundle Es.bundle refl,
        bundle_in-IsCovered Es.bundle En.bundle refl,
        refl,
      ),
      (
        (
          bundle_in-IsCovered En.bundle It.bundle refl,
          bundle_in-IsCovered It.bundle En.bundle refl,
          refl,
        ),
        (
          (
            bundle_in-IsCovered En.bundle Fr.bundle refl,
            bundle_in-IsCovered Fr.bundle En.bundle refl,
            refl,
          ),
          tt,
        ),
      ),
    ),
  ),
)
