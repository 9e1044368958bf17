-- ===== src/View/Rows.antt =====
-- web/src/components/ObjectBrowser.tsx: the rows of the listing, what a row offers, and `fileName`.
pub mod Cells
pub mod Search
pub mod Sorted
use mathlib.Core.Option
use pier_s3_gateway.Prelude.{
  same_bool, ℤ, pos, negsuc, Ordering, compare_int, ℕ, Bool, true, false, not, ◌&&◌, ◌||◌, List, [],
  ◌∷◌, ◌++◌, ◌≡◌, Option, none, some, ◌==◌, if◌then◌else◌, map, Text, codes, text_eq, is_empty,
  split,
}
use pier_s3_gateway.Client.{truthy}
use pier_s3_gateway.Preview.Kind.{starts_with, LowerCase}
use pier_s3_gateway.Store.Browser.{ObjectInfo}

pub record Row : Type 0 where
  pub key : Text
  pub name : Text
  pub size : ℤ
  pub last_modified : Text
  pub is_prefix : Bool

-- `s.replace(/\/$/, '')`: without one slash at the end.
unfoldable pub strip_slash : Text → Text
strip_slash [] = []
strip_slash (c ∷ s) = let rest = strip_slash s in if c == b'/' && is_empty s then [] else c ∷ rest

abbrev last_or_empty : List Text → Text
last_or_empty [] = []
last_or_empty (s ∷ []) = s
last_or_empty (s ∷ t ∷ ss) = last_or_empty (t ∷ ss)

abbrev or_key : Text → Text → Text
or_key t key = if is_empty t then key else t

unfoldable pub file_name : Text → Text
unfolding strip_slash
file_name key = or_key (last_or_empty (split b'/' (strip_slash key))) key

-- `s.includes(needle)`
unfoldable pub includes : Text → Text → Bool
unfolding starts_with
includes needle [] = starts_with needle []
includes needle (c ∷ s) = starts_with needle (c ∷ s) || includes needle s

abbrev drop_prefix : Text → Text → Text
drop_prefix [] s = s
drop_prefix (c ∷ p) [] = []
drop_prefix (c ∷ p) (x ∷ s) = drop_prefix p s

-- `s.replace(pattern, '')`: without the first occurrence.
unfoldable pub remove_first : Text → Text → Text
unfolding starts_with
remove_first pattern [] = []
remove_first pattern (c ∷ s) =
    let rest = remove_first pattern s in
    if starts_with pattern (c ∷ s) then drop_prefix pattern (c ∷ s) else c ∷ rest

abbrev filter_texts : (Text → Bool) → List Text → List Text
filter_texts keep [] = []
filter_texts keep (p ∷ ps) = let rest = filter_texts keep ps in if keep p then p ∷ rest else rest

abbrev filter_objects : (Text → Bool) → List ObjectInfo → List ObjectInfo
filter_objects keep [] = []
filter_objects keep (o ∷ os) =
    let rest = filter_objects keep os in if keep o.key then o ∷ rest else rest

-- `toLocaleString` of a date is the engine's.
module _ (locale : LowerCase) (to_locale_string : Text → Text) where
  open locale use {lower}

  -- `!needle || s.toLowerCase().includes(needle)`
  unfoldable pub matches : Text → Text → Bool
  unfolding includes
  matches search_text s = is_empty (lower search_text) || includes (lower search_text) (lower s)

  unfoldable pub prefix_row : Text → Text → Row
  unfolding remove_first strip_slash
  prefix_row prefix p = record {
    key = p;
    name = strip_slash (remove_first prefix p);
    size = negsuc 0;
    last_modified = [];
    is_prefix = true;
  }

  unfoldable pub object_row : ObjectInfo → Row
  unfolding file_name
  object_row o = record {
    key = o.key;
    name = file_name o.key;
    size = pos o.size_bytes;
    last_modified = if is_empty o.last_modified then [] else to_locale_string o.last_modified;
    is_prefix = false;
  }

  unfoldable pub data_source : Text → Text → List Text → List ObjectInfo → List Row
  unfolding matches prefix_row object_row
  data_source search_text prefix prefixes objects =
      map (prefix_row prefix) (filter_texts (matches search_text) prefixes)
      ++ map object_row (filter_objects (matches search_text) objects)

-- The sorter of the column of names: folders first.
unfoldable pub sort_names : (Text → Text → Ordering) → Row → Row → Ordering
sort_names locale_compare a b =
    if same_bool a.is_prefix b.is_prefix
    then locale_compare a.name b.name
    else if a.is_prefix
    then Ordering.lt
    else Ordering.gt

unfoldable pub sort_dates : (Text → Text → Ordering) → Row → Row → Ordering
sort_dates locale_compare a b = locale_compare a.last_modified b.last_modified

unfoldable pub sort_sizes : Row → Row → Ordering
sort_sizes a b = compare_int a.size b.size

pub data Activation : Type 0 where
  navigate : Text → Activation
  open_preview : Text → ℤ → Activation

-- A click on a row.
unfoldable pub handle_row_activate : Row → Activation
handle_row_activate r = if r.is_prefix then navigate r.key else open_preview r.key r.size

pub data Action : Type 0 where
  download info delete : Action

unfoldable pub row_actions : Bool → Row → List Action
row_actions can_write r =
    if r.is_prefix then [] else download ∷ info ∷ (if can_write then delete ∷ [] else [])

pub data Content : Type 0 where
  skeleton empty_notice : Content
  table : List Row → Content

unfoldable pub content : Bool → List Row → Content
content loading [] = if loading then skeleton else empty_notice
content loading (r ∷ rows) = table (r ∷ rows)
