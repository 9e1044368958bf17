-- ===== src/View/Shell/Menu.antt =====
-- web/src/components/AppShell.tsx with the routes of web/src/App.tsx: from the menu to a page and back.
use pier_s3_gateway.Prelude.{
  false, List, [], ◌∷◌, ◌++◌, ◌≡◌, refl, ap, ◌∙◌, Option, none, some, Text, codes, is_empty, Lacks,
  All,
}
use pier_s3_gateway.Auth.Routes.{Route, buckets, bucket}
use pier_s3_gateway.Store.Buckets.{BucketInfo}
use pier_s3_gateway.View.Shell.{
  selected_key, menu_items, bucket_keys, on_menu_click, bucket_path, bucket_prefix, Shell, step,
  menu_click,
}

-- A name of which the path is made as it is: not empty, without a character that a path reads otherwise.
abbrev pub IsPlainName : Text → Type 0
IsPlainName name =
    (is_empty name ≡ false) × Lacks b'/' name × Lacks b'?' name × Lacks b'#' name × Lacks b'%' name

-- The router: what it makes of the paths of the two routes under `/buckets`.
pub record Router : Type 0 where
  pub match_path : Text → Route
  pub match_buckets : match_path (codes "/buckets") ≡ buckets
  pub match_bucket : (name : Text) → IsPlainName name → match_path (bucket_path name) ≡ bucket name

-- The parameter of the route.
abbrev pub route_bucket : Route → Option Text
route_bucket (bucket name) = some name
route_bucket _ = none

click-bucket :
    (s : Shell) (name : Text)
    → (step (menu_click (bucket_prefix ++ name)) s).path ≡ bucket_path name
unfolding step on_menu_click
click-bucket s name = refl

selected_key-bucket :
    (name : Text) → is_empty name ≡ false → selected_key (some name) ≡ bucket_prefix ++ name
unfolding selected_key
selected_key-bucket name h = rw h refl

-- The item that is selected on the page that a key leads to.
abbrev pub selected_after : Router → Text → Shell → Text
selected_after router key s =
    selected_key (route_bucket (router.match_path (step (menu_click key) s).path))

abbrev Returns : Router → Shell → Text → Type 0
Returns router s key =
    (selected_after router key s ≡ key) × ((step (menu_click key) s).mobile_nav_open ≡ false)

bucket_key-Returns :
    (router : Router) (s : Shell) (name : Text)
    → IsPlainName name
    → Returns router s (bucket_prefix ++ name)
unfolding step
bucket_key-Returns router s name h = (
  ap (λ path. selected_key (route_bucket (router.match_path path))) (click-bucket s name)
      ∙ ap (λ route. selected_key (route_bucket route)) (router.match_bucket name h)
      ∙ selected_key-bucket name h.0,
  refl,
)

all-Returns : (router : Router) (s : Shell) → Returns router s (codes "all")
unfolding step on_menu_click selected_key
all-Returns router s = (rw router.match_buckets refl, refl)

bucket_keys-Returns :
    (router : Router) (s : Shell) (bs : List BucketInfo)
    → All (λ b. IsPlainName b.name) bs
    → All (Returns router s) (bucket_keys bs)
bucket_keys-Returns router s [] h = tt
bucket_keys-Returns router s (b ∷ bs) (h, hs) =
    (bucket_key-Returns router s b.name h, bucket_keys-Returns router s bs hs)

-- Clicking any item of the menu closes the drawer and leads to a page on which the selected item is the one that
-- was clicked, for buckets whose names a path holds as they are.
pub menu_items-Returns :
    (router : Router) (s : Shell) (buckets : List BucketInfo)
    → All (λ b. IsPlainName b.name) buckets
    → All
        (λ key.
          (selected_after router key s ≡ key) × ((step (menu_click key) s).mobile_nav_open ≡ false))
        (menu_items buckets)
unfolding menu_items
menu_items-Returns router s bs h = (all-Returns router s, bucket_keys-Returns router s bs h)
