-- ===== src/Auth/Expiry.antt =====
-- web/src/auth/AuthProvider.tsx, App.tsx and the interceptor of web/src/api/client.ts together: what a refused
-- request leads to.
use pier_s3_gateway.Prelude.{
  true, false, [], ◌∷◌, ◌++◌, ◌≡◌, refl, arith, Option, none, some, Text, codes,
}
use pier_s3_gateway.Client.{Failure, axios, other, failure, redirect}
use pier_s3_gateway.Auth.{
  OidcUser, AuthState, usable, initial_user, me, mounted, handle_user, me_answered, steps,
  is_authenticated,
}
use pier_s3_gateway.Auth.Manager.{first_call, get_user}
use pier_s3_gateway.Auth.Routes.{login, View, login_form, buckets_page, follow}

-- The gateway refuses a request for its token.
abbrev pub refused : Option Text → Failure
refused message = axios (some (record { status = 401; message = message }))

-- What is on screen on the route of the login page.
abbrev pub on_login : AuthState → View
on_login s = follow s.is_loading (is_authenticated s) 2 login

-- A load of the login page, after a refusal elsewhere.
pub record IsReloaded (message : Option Text) : Type 0 where
  -- A refusal on the page of buckets, or of one of them, leads to the login page.
  pub leaves :
      (redirect (codes "/buckets") (refused message) ≡ some (codes "/login"))
      × ((name : Text)
          → redirect (codes "/buckets/" ++ name) (refused message) ≡ some (codes "/login"))
  -- There the provider looks for a user, and no refusal leads away.
  pub looks :
      (first_call (codes "/login") ≡ get_user)
      × ((f : Failure) → redirect (codes "/login") f ≡ none)
  -- Without a user of the library that can be used, the form is shown.
  pub ends :
      (o : Option OidcUser)
      → usable o ≡ false
      → on_login (steps (initial_user o ∷ []) mounted) ≡ login_form
  -- With one, the page of buckets is shown again, though the gateway refuses `/me` too.
  pub returns :
      (u : OidcUser)
      → usable (some u) ≡ true
      → on_login (steps (initial_user (some u) ∷ me 0 (failure (refused message)) ∷ []) mounted)
        ≡ buckets_page

redirect-login : (f : Failure) → redirect (codes "/login") f ≡ none
unfolding redirect
redirect-login (axios (some r)) = ground arith
redirect-login (axios none) = refl
redirect-login other = refl

on_login-unusable :
    (o : Option OidcUser)
    → usable o ≡ false
    → on_login (steps (initial_user o ∷ []) mounted) ≡ login_form
unfolding steps follow handle_user
on_login-unusable o h = rw h refl

on_login-refused :
    (u : OidcUser) (message : Option Text)
    → usable (some u) ≡ true
    → on_login (steps (initial_user (some u) ∷ me 0 (failure (refused message)) ∷ []) mounted)
      ≡ buckets_page
unfolding steps follow handle_user me_answered
on_login-refused u message h = rw h refl

-- A refused request leads to the login page, from where no refusal leads away. Once no user can be used any more the
-- form stays there; as long as the library holds one that has not expired, the page of buckets is shown again, from
-- which the next refusal leads back.
pub refused-IsReloaded : (message : Option Text) → IsReloaded message
unfolding redirect first_call
refused-IsReloaded message = record {
  leaves = (refl, λ name. refl);
  looks = (refl, redirect-login);
  ends = on_login-unusable;
  returns = λ u h. on_login-refused u message h;
}
