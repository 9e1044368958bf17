-- ===== src/I18n.antt =====
-- web/src/i18n: the bundles and what is read of them. Choosing a plural form and filling in values is
-- i18next's.
pub mod Complete
pub mod En
pub mod Es
pub mod Fr
pub mod It
pub mod Registry
pub mod Ru
use Prim.Native.String.{String}
use pier_s3_gateway.Prelude.{
  Bool, true, false, not, ◌&&◌, ◌||◌, List, [], ◌∷◌, ◌++◌, Option, none, some, ◌==◌, if◌then◌else◌,
  Text, codes, text_eq, any,
}

-- A group of texts by their names, and a bundle of groups.
abbrev pub Group : Type 0
Group = List (String × String)

abbrev pub Bundle : Type 0
Bundle = List (String × Group)

-- `group.key`
unfoldable pub find_text : Text → Group → Option Text
unfolding text_eq
find_text key [] = none
find_text key ((k, v) ∷ texts) =
    if text_eq (codes k) key then some (codes v) else find_text key texts

abbrev group_or_none : Option Group → Group
group_or_none none = []
group_or_none (some g) = g

unfoldable pub find_group : Text → Bundle → Option Group
unfolding text_eq
find_group name [] = none
find_group name ((n, g) ∷ groups) =
    if text_eq (codes n) name then some g else find_group name groups

-- The text behind `t('group.key')`.
unfoldable pub find : Text → Text → Bundle → Option Text
unfolding find_group find_text
find group key bundle = find_text key (group_or_none (find_group group bundle))

-- Reading `{{name}}` in a text.
pub data Reading : Type 0 where
  outside one_brace : Reading
  inside closing : Text → Reading

-- The names that a text has values put in for.
unfoldable pub placeholders : Reading → Text → List Text
placeholders r [] = []
placeholders outside (c ∷ s) = placeholders (if c == b'{' then one_brace else outside) s
placeholders one_brace (c ∷ s) = placeholders (if c == b'{' then inside [] else outside) s
placeholders (inside name) (c ∷ s) =
    placeholders (if c == b'}' then closing name else inside (name ++ c ∷ [])) s
placeholders (closing name) (c ∷ s) =
    let rest = placeholders outside s in
    let more = placeholders (inside (name ++ b'}' ∷ c ∷ [])) s in
    if c == b'}' then name ∷ rest else more
