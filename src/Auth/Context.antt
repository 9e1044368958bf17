-- ===== src/Auth/Context.antt =====
-- web/src/auth/AuthProvider.tsx: what the components read of the provider.
use pier_s3_gateway.Prelude.{Bool, true, false, Option, none}
use pier_s3_gateway.Auth.{UserInfo, AuthState, is_authenticated}

pub record AuthContextValue : Type 0 where
  pub authenticated : Bool
  pub is_loading : Bool
  pub user : Option UserInfo

unfoldable pub context_value : AuthState → AuthContextValue
context_value s = record {
  authenticated = is_authenticated s;
  is_loading = s.is_loading;
  user = s.user;
}

-- Outside a provider.
abbrev pub default_context : AuthContextValue
default_context = record { authenticated = false; is_loading = true; user = none }
