-- ===== src/Auth.antt =====
-- web/src/auth/AuthProvider.tsx: the user, the token and the loading flag. `handleUser` waits for
-- `/api/v1/auth/me` once it has stored the token; the answers come at any time, in any order.
pub mod Context
pub mod Expiry
pub mod Manager
pub mod Routes
pub mod Signing
use pier_s3_gateway.Prelude.{
  taken, ℕ, zero, suc, Bool, true, false, not, ◌&&◌, List, [], ◌∷◌, ◌++◌, Option, none, some,
  if◌then◌else◌, Text, codes,
}
use pier_s3_gateway.Client.{Answer, success, failure, truthy, text_of}

pub record UserInfo : Type 0 where
  pub username : Text
  pub groups : List Text

-- What the provider reads of the OIDC library's `User`.
pub record OidcUser : Type 0 where
  pub access_token : Text
  pub expired : Option Bool
  pub preferred_username : Option Text

pub record AuthState : Type 0 where
  pub token : Option Text
  pub user : Option UserInfo
  pub is_loading : Bool
  -- The OIDC users whose `/me` is awaited, the latest in front.
  pub pending : List OidcUser
  -- The effect is mounted.
  pub active : Bool

abbrev is_true : Option Bool → Bool
is_true none = false
is_true (some b) = b

-- `oidcUser && !oidcUser.expired`
abbrev pub usable : Option OidcUser → Bool
usable none = false
usable (some u) = not (is_true u.expired)

abbrev accept : Option OidcUser → AuthState → AuthState
accept none s = s
accept (some u) s = record s { token = some u.access_token; pending = u ∷ s.pending }

-- `handleUser` up to its wait.
unfoldable pub handle_user : Option OidcUser → AuthState → AuthState
handle_user o s =
    if usable o then accept o s else record s { token = none; user = none; is_loading = false }

-- The user shown after `/me`: its answer, or the claims of the profile.
unfoldable pub me_user : OidcUser → Answer UserInfo → UserInfo
me_user u (success info) = info
me_user u (failure err) = record {
  username = if truthy u.preferred_username then text_of u.preferred_username else codes "unknown";
  groups = [];
}

-- `handleUser` behind the wait, for the `n`-th of those that wait.
abbrev finish : Option (OidcUser × List OidcUser) → Answer UserInfo → AuthState → AuthState
finish none a s = s
finish (some (u, us)) a s = record s { user = some (me_user u a); is_loading = false; pending = us }

unfoldable pub me_answered : ℕ → Answer UserInfo → AuthState → AuthState
me_answered n a s = finish (taken n s.pending) a s

-- `onUser`
unfoldable pub on_user : Option OidcUser → AuthState → AuthState
unfolding handle_user
on_user o s = if s.active then handle_user o s else s

pub data Event : Type 0 where
  -- The first user that the library finds, and the failure to find one.
  initial_user : Option OidcUser → Event
  initial_failed : Event
  -- The three events of the library the provider listens to.
  loaded : OidcUser → Event
  unloaded silent_renew_error : Event
  me : ℕ → Answer UserInfo → Event
  unmount : Event

unfoldable pub step : Event → AuthState → AuthState
unfolding on_user me_answered
step (initial_user o) s = on_user o s
step initial_failed s = if s.active then record s { is_loading = false } else s
step (loaded u) s = on_user (some u) s
step unloaded s = on_user none s
step silent_renew_error s = on_user none s
step (me n a) s = me_answered n a s
step unmount s = record s { active = false }

unfoldable pub steps : List Event → AuthState → AuthState
unfolding step
steps [] s = s
steps (e ∷ es) s = steps es (step e s)

abbrev pub mounted : AuthState
mounted = record { token = none; user = none; is_loading = true; pending = []; active = true }

-- `isAuthenticated: !!user`
abbrev pub is_authenticated : AuthState → Bool
is_authenticated s = elim s.user [ none ↦ false | some _ ↦ true ]
