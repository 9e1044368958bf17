-- ===== src/Auth/Manager.antt =====
-- web/src/auth/AuthProvider.tsx: the settings of the OIDC library, and the calls of it. What the library
-- does is its own; the environment and the origin of the page are arguments.
use pier_s3_gateway.Prelude.{
  Bool, true, List, [], ◌∷◌, ◌++◌, ◌≡◌, refl, Option, none, some, if◌then◌else◌, Text, codes,
  text_eq, arith,
}
use pier_s3_gateway.Client.{
  axios, ErrorResponse, Answer, success, failure, truthy, text_of, redirect,
}

pub record Environment : Type 0 where
  pub keycloak_url : Option Text
  pub keycloak_client_id : Option Text
  pub oidc_scope : Option Text

-- What `UserManager` is created with; the response type is `code`, tokens are renewed silently and users
-- kept in the session storage.
pub record Settings : Type 0 where
  pub authority : Text
  pub client_id : Text
  pub redirect_uri : Text
  pub post_logout_redirect_uri : Text
  pub response_type : Text
  pub scope : Text
  pub automatic_silent_renew : Bool

-- `a || b`
abbrev or_text : Option Text → Text → Text
or_text o fallback = if truthy o then text_of o else fallback

unfoldable pub create_user_manager : Environment → Text → Settings
create_user_manager env origin = record {
  authority = or_text env.keycloak_url (codes "https://keycloak.example.com/realms/myrealm");
  client_id = or_text env.keycloak_client_id (codes "s3-proxy");
  redirect_uri = origin ++ codes "/callback";
  post_logout_redirect_uri = origin;
  response_type = codes "code";
  scope = or_text env.oidc_scope (codes "openid profile");
  automatic_silent_renew = true;
}

pub data Call : Type 0 where
  signin_redirect signout_redirect signin_redirect_callback get_user post_logout : Call

-- The call that the effect of the provider begins with, by the path of the page.
unfoldable pub first_call : Text → Call
unfolding text_eq
first_call path = if text_eq path (codes "/callback") then signin_redirect_callback else get_user

unfoldable pub login : List Call
login = signin_redirect ∷ []

-- The calls of `logout`, by the answer to the first; a failure is passed over.
unfoldable pub logout : Answer Text → List Call
logout (success _) = post_logout ∷ signout_redirect ∷ []
logout (failure err) = post_logout ∷ signout_redirect ∷ []

-- On the path that a sign-in comes back to the provider completes the sign-in, and no refused request
-- leads away from there.
create_user_manager-first_call :
    (env : Environment) (origin : Text) (response : Option ErrorResponse)
    → (path : Text) × ((create_user_manager env origin).redirect_uri ≡ origin ++ path)
      × (first_call path ≡ signin_redirect_callback)
      × (redirect path (axios response) ≡ none)
unfolding create_user_manager first_call redirect
create_user_manager-first_call env origin none = (codes "/callback", refl, refl, refl)
create_user_manager-first_call env origin (some r) = (codes "/callback", refl, refl, ground arith)
