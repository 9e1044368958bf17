-- ===== src/View/Rows/Search.antt =====
-- web/src/components/ObjectBrowser.tsx: what a search leaves of the listing.
use pier_s3_gateway.Prelude.{
  Bool, true, false, List, [], ◌∷◌, ◌++◌, ◌≡◌, refl, ap, sym, ◌∙◌, arith, map, Text, Bool-cases,
  inl, inr, if◌then◌else◌,
}
use pier_s3_gateway.Preview.Kind.{LowerCase}
use pier_s3_gateway.Store.Browser.{ObjectInfo}
use pier_s3_gateway.View.Rows.{
  Row, matches, prefix_row, object_row, data_source, filter_texts, filter_objects,
}

-- The key of a row, and whether it is a folder's.
abbrev pub folder_key : Text → Text × Bool
folder_key p = (p, true)

abbrev pub object_key : ObjectInfo → Text × Bool
object_key o = (o.key, false)

abbrev pub row_key : Row → Text × Bool
row_key r = (r.key, r.is_prefix)

abbrev pub keep : (Text × Bool → Bool) → List (Text × Bool) → List (Text × Bool)
keep f [] = []
keep f (k ∷ ks) = let rest = keep f ks in if f k then k ∷ rest else rest

keep-append :
    (f : Text × Bool → Bool) (xs ys : List (Text × Bool))
    → keep f (xs ++ ys) ≡ keep f xs ++ keep f ys
keep-append f [] ys = refl
keep-append f (x ∷ xs) ys = rw (keep-append f xs ys) (ground arith)

map-append_keys : (xs ys : List Row) → map row_key (xs ++ ys) ≡ map row_key xs ++ map row_key ys
map-append_keys [] ys = refl
map-append_keys (x ∷ xs) ys = ap (λ ks. row_key x ∷ ks) (map-append_keys xs ys)

module _ (locale : LowerCase) (to_locale_string : Text → Text) where
  abbrev matches_key : Text → Text × Bool → Bool
  matches_key search_text k = matches locale to_locale_string search_text k.0

  folder_keys :
      (search_text prefix : Text) (ps : List Text)
      → map row_key (
          map
            (prefix_row locale to_locale_string prefix)
            (filter_texts (matches locale to_locale_string search_text) ps))
        ≡ keep (matches_key search_text) (map folder_key ps)
  unfolding prefix_row
  folder_keys search_text prefix [] = refl
  folder_keys search_text prefix (p ∷ ps) =
      elim (Bool-cases (matches locale to_locale_string search_text p)) [
        | inl e ↦ rw e (ap (λ ks. folder_key p ∷ ks) (folder_keys search_text prefix ps))
        | inr e ↦ rw e (folder_keys search_text prefix ps)
      ]

  object_keys :
      (search_text : Text) (os : List ObjectInfo)
      → map row_key (
          map
            (object_row locale to_locale_string)
            (filter_objects (matches locale to_locale_string search_text) os))
        ≡ keep (matches_key search_text) (map object_key os)
  unfolding object_row
  object_keys search_text [] = refl
  object_keys search_text (o ∷ os) =
      elim (Bool-cases (matches locale to_locale_string search_text o.key)) [
        | inl e ↦ rw e (ap (λ ks. object_key o ∷ ks) (object_keys search_text os))
        | inr e ↦ rw e (object_keys search_text os)
      ]

  -- The rows are the folders and then the objects of the listing whose key matches the search, each
  -- once for each time that it is listed, and in the listing's order.
  pub data_source-keys :
      (search_text prefix : Text) (prefixes : List Text) (objects : List ObjectInfo)
      → map row_key (data_source locale to_locale_string search_text prefix prefixes objects)
        ≡ keep
            (λ k. matches locale to_locale_string search_text k.0)
            (map folder_key prefixes ++ map object_key objects)
  unfolding data_source
  data_source-keys search_text prefix prefixes objects =
      map-append_keys
        (map (prefix_row locale to_locale_string prefix)
          (filter_texts (matches locale to_locale_string search_text) prefixes))
        (map (object_row locale to_locale_string)
          (filter_objects (matches locale to_locale_string search_text) objects))
      ∙ rw (folder_keys search_text prefix prefixes, object_keys search_text objects)
          (sym (keep-append (matches_key search_text) _ _))
