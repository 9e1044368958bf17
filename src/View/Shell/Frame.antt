-- ===== src/View/Shell/Frame.antt =====
-- web/src/components/AppShell.tsx: the navigation, the header and the menu of the user.
use pier_s3_gateway.Prelude.{
  Bool, true, false, List, [], ◌∷◌, Option, none, some, Text, codes, text_eq,
}
use pier_s3_gateway.Auth.{UserInfo}
use pier_s3_gateway.Store.Buckets.{BucketInfo}
use pier_s3_gateway.View.Shell.{selected_key, menu_items, header_title, initial}

-- The effect that asks for the list of buckets.
unfoldable pub needs_buckets : List BucketInfo → Bool
needs_buckets [] = true
needs_buckets (_ ∷ _) = false

-- `navContent`, which the sidebar and the drawer share: the key that is selected and those of the items.
pub record NavContent : Type 0 where
  pub selected : Text
  pub items : List Text

unfoldable pub nav_content : Option Text → List BucketInfo → NavContent
unfolding selected_key menu_items
nav_content bucket buckets = record { selected = selected_key bucket; items = menu_items buckets }

-- The items of the menu of the user, and whether a click on one signs out.
abbrev pub user_menu : List Text
user_menu = codes "logout" ∷ []

unfoldable pub on_user_menu : Text → Bool
unfolding text_eq
on_user_menu key = text_eq key (codes "logout")

pub data HeaderItem : Type 0 where
  menu_toggle : HeaderItem
  title : Text → HeaderItem
  theme_switcher language_switcher : HeaderItem
  -- The letter of the avatar and the name.
  user_menu_trigger : Text → Text → HeaderItem

abbrev user_items : (Text → Text) → Option UserInfo → List HeaderItem
user_items upper none = []
user_items upper (some user) = user_menu_trigger (initial upper (some user)) user.username ∷ []

unfoldable pub header : (Text → Text) → Text → Option Text → Option UserInfo → List HeaderItem
header upper all_buckets bucket user =
    menu_toggle
    ∷ title (header_title bucket all_buckets)
    ∷ theme_switcher
    ∷ language_switcher
    ∷ user_items upper user
