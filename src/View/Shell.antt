-- ===== src/View/Shell.antt =====
-- web/src/components/AppShell.tsx: the menu, the drawer and the header; and the language menu of
-- web/src/components/LanguageSwitcher.tsx. Matching a path with a route is the router's.
pub mod Frame
pub mod Menu
use pier_s3_gateway.Prelude.{
  ℕ, Bool, true, false, List, [], ◌∷◌, ◌++◌, ◌≡◌, Option, none, some, if◌then◌else◌, Text, codes,
  text_eq, is_empty, drop, length, any,
}
use pier_s3_gateway.Client.{truthy, text_of}
use pier_s3_gateway.Preview.Kind.{starts_with}
use pier_s3_gateway.Store.Buckets.{BucketInfo}
use pier_s3_gateway.Auth.{UserInfo}

abbrev pub bucket_prefix : Text
bucket_prefix = codes "bucket:"

unfoldable pub selected_key : Option Text → Text
selected_key bucket = if truthy bucket then bucket_prefix ++ text_of bucket else codes "all"

-- `bucket ?? t('buckets.title')`
abbrev pub header_title : Option Text → Text → Text
header_title none title = title
header_title (some bucket) title = bucket

abbrev bucket_keys : List BucketInfo → List Text
bucket_keys [] = []
bucket_keys (b ∷ buckets) = (bucket_prefix ++ b.name) ∷ bucket_keys buckets

-- The keys of the items.
unfoldable pub menu_items : List BucketInfo → List Text
menu_items buckets = codes "all" ∷ bucket_keys buckets

-- The path of a bucket, as the menu and the cards of BucketList.tsx put it together.
abbrev pub bucket_path : Text → Text
bucket_path name = codes "/buckets/" ++ name

-- Where a click on the menu leads, if anywhere.
unfoldable pub on_menu_click : Text → Option Text
unfolding text_eq starts_with
on_menu_click key =
    if text_eq key (codes "all")
    then some (codes "/buckets")
    else if starts_with bucket_prefix key
    then some (bucket_path (drop (length bucket_prefix) key))
    else none

pub record Shell : Type 0 where
  pub path : Text
  pub mobile_nav_open : Bool

abbrev navigate : Option Text → Shell → Shell
navigate none s = s
navigate (some path) s = record s { path = path }

pub data Event : Type 0 where
  open_nav close_nav : Event
  menu_click : Text → Event

unfoldable pub step : Event → Shell → Shell
unfolding on_menu_click
step open_nav s = record s { mobile_nav_open = true }
step close_nav s = record s { mobile_nav_open = false }
step (menu_click key) s = record (navigate (on_menu_click key) s) { mobile_nav_open = false }

-- `user?.username?.charAt(0).toUpperCase() ?? '?'`; `toUpperCase` is the engine's.
abbrev pub initial : (Text → Text) → Option UserInfo → Text
initial upper none = codes "?"
initial upper (some user) = elim user.username [ [] ↦ upper [] | c ∷ _ ↦ upper (c ∷ []) ]

-- The value of the language menu: the language in force if it is supported, and English.
unfoldable pub current_language : List Text → Option Text → Text
unfolding text_eq
current_language supported resolved =
    if any (text_eq (text_of resolved)) supported then text_of resolved else codes "en"
