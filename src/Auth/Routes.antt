-- ===== src/Auth/Routes.antt =====
-- The routes of web/src/App.tsx and the pages that redirect: web/src/pages/Callback.tsx and Login.tsx.
use pier_s3_gateway.Prelude.{ℕ, zero, suc, Bool, true, false, ◌≡◌, arith, if◌then◌else◌, Text}

-- The paths of `AppRoutes`, `/buckets/:bucket` with its parameter, and `*`.
pub data Route : Type 0 where
  login callback buckets : Route
  bucket : Text → Route
  unknown : Route

pub data View : Type 0 where
  spinner login_form buckets_page : View
  browser_page : Text → View
  navigate : Route → View

module _ (is_loading is_authenticated : Bool) where
  unfoldable pub protected_route : View → View
  protected_route page =
      if is_loading then spinner else if is_authenticated then page else navigate login

  -- `Login`, its effect included: it navigates as soon as the user is authenticated.
  unfoldable pub login_page : View
  login_page =
      if is_authenticated then navigate buckets else if is_loading then spinner else login_form

  unfoldable pub callback_page : View
  callback_page =
      if is_loading then spinner else navigate (if is_authenticated then buckets else login)

  unfoldable pub render : Route → View
  unfolding protected_route login_page callback_page
  render login = login_page
  render callback = callback_page
  render buckets = protected_route buckets_page
  render (bucket name) = protected_route (browser_page name)
  render unknown = navigate buckets

  -- The router follows at most so many redirects.
  unfoldable pub follow : ℕ → Route → View
  unfolding render
  follow zero r = render r
  follow (suc n) r =
      let next = follow n in
      elim (render r) [
        | navigate to ↦ next to
        | spinner ↦ spinner
        | login_form ↦ login_form
        | buckets_page ↦ buckets_page
        | browser_page name ↦ browser_page name
      ]

abbrev pub is_redirect : View → Bool
is_redirect (navigate _) = true
is_redirect _ = false

-- From every route at most two redirects lead to a view that stays: no user is sent in circles. What
-- stays is the spinner only while loading, the form only for nobody, and a page of data only for
-- an authenticated user.
pub follow_lem :
    (is_loading is_authenticated : Bool) (r : Route)
    → let v = follow is_loading is_authenticated 2 r in
      (is_redirect v ≡ false)
      × (v ≡ spinner → is_loading ≡ true)
      × (v ≡ login_form → (is_loading ≡ false) × (is_authenticated ≡ false))
      × (v ≡ buckets_page → (is_loading ≡ false) × (is_authenticated ≡ true))
      × ((name : Text) → v ≡ browser_page name → (is_loading ≡ false) × (is_authenticated ≡ true))
unfolding follow
follow_lem true true r = elim r [
  | login ↦ ground arith
  | callback ↦ ground arith
  | buckets ↦ ground arith
  | bucket b ↦ ground arith
  | unknown ↦ ground arith
]
follow_lem true false r = elim r [
  | login ↦ ground arith
  | callback ↦ ground arith
  | buckets ↦ ground arith
  | bucket b ↦ ground arith
  | unknown ↦ ground arith
]
follow_lem false true r = elim r [
  | login ↦ ground arith
  | callback ↦ ground arith
  | buckets ↦ ground arith
  | bucket b ↦ ground arith
  | unknown ↦ ground arith
]
follow_lem false false r = elim r [
  | login ↦ ground arith
  | callback ↦ ground arith
  | buckets ↦ ground arith
  | bucket b ↦ ground arith
  | unknown ↦ ground arith
]
