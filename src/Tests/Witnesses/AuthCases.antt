-- ===== src/Tests/Witnesses/AuthCases.antt =====
-- web/src/auth/AuthProvider.tsx and web/src/App.tsx: the theorems at concrete events and routes.
use pier_s3_gateway.Prelude.{true, false, [], ◌∷◌, ◌≡◌, refl, none, some, Text, codes}
use pier_s3_gateway.Client.{success}
use pier_s3_gateway.Auth.{OidcUser, UserInfo, initial_user, loaded, me, steps, mounted}
use pier_s3_gateway.Auth.Signing.{HasToken, steps-HasToken}
use pier_s3_gateway.Auth.Expiry.{IsReloaded, refused-IsReloaded}
use pier_s3_gateway.Auth.Routes.{
  unknown, follow, is_redirect, follow_lem, spinner, login_form, buckets_page, browser_page,
}

abbrev alice : OidcUser
alice = record {
  access_token = codes "t";
  expired = some false;
  preferred_username = some (codes "alice");
}

abbrev alice_info : UserInfo
alice_info = record { username = codes "alice"; groups = [] }

steps-HasToken_example :
    HasToken (steps (initial_user none ∷ loaded alice ∷ me 0 (success alice_info) ∷ []) mounted)
steps-HasToken_example =
    steps-HasToken (initial_user none ∷ loaded alice ∷ me 0 (success alice_info) ∷ [])
      ((λ _. refl), ((λ e. cc), ((λ e. cc), tt)))

follow_lem_example :
    let v = follow false false 2 unknown in
    (is_redirect v ≡ false)
    × (v ≡ spinner → false ≡ true)
    × (v ≡ login_form → (false ≡ false) × (false ≡ false))
    × (v ≡ buckets_page → (false ≡ false) × (false ≡ true))
    × ((name : Text) → v ≡ browser_page name → (false ≡ false) × (false ≡ true))
follow_lem_example = follow_lem false false unknown

refused-IsReloaded_example : IsReloaded (some (codes "expired"))
refused-IsReloaded_example = refused-IsReloaded (some (codes "expired"))
