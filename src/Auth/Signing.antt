-- ===== src/Auth/Signing.antt =====
-- web/src/auth/AuthProvider.tsx: who is signed in, and with which token.
use pier_s3_gateway.Prelude.{
  taken, ℕ, zero, suc, Bool, true, false, List, [], ◌∷◌, ◌≡◌, ◌≢◌, refl, Option, none, some, arith,
}
use pier_s3_gateway.Client.{Answer}
use pier_s3_gateway.Auth.{
  UserInfo, OidcUser, AuthState, usable, me_user, finish, Event, initial_user, initial_failed,
  loaded, unloaded, silent_renew_error, me, unmount, step, steps, mounted, is_authenticated,
}

-- A user is shown only behind the end of loading; as long as nothing is loaded and no answer is
-- awaited, none was found.
pub record IsSettled (s : AuthState) : Type 0 where
  pub no_user : s.is_loading ≡ true → s.user ≡ none
  pub no_token : s.is_loading ≡ true → s.pending ≡ [] → s.token ≡ none

taken-some :
    (n : ℕ) (us : List OidcUser) (u : OidcUser) (vs : List OidcUser)
    → taken n us ≡ some (u, vs)
    → us ≢ []
taken-some n [] u vs e = cc
taken-some zero (x ∷ us) u vs e = λ q. cc
taken-some (suc n) (x ∷ us) u vs e = λ q. cc

step-IsSettled : (e : Event) (s : AuthState) → IsSettled s → IsSettled (step e s)
unfolding step
step-IsSettled (initial_user none) s v = ground arith
step-IsSettled (initial_user (some u)) s v = ground arith
step-IsSettled initial_failed s v = ground arith
step-IsSettled (loaded u) s v = ground arith
step-IsSettled unloaded s v = ground arith
step-IsSettled silent_renew_error s v = ground arith
step-IsSettled (me n a) s v = ground arith
step-IsSettled unmount s v = ground arith

steps-IsSettled-from : (es : List Event) (s : AuthState) → IsSettled s → IsSettled (steps es s)
unfolding steps
steps-IsSettled-from [] s v = v
steps-IsSettled-from (e ∷ es) s v = steps-IsSettled-from es (step e s) (step-IsSettled e s v)

-- Whatever the library reports and the server answers, and in whatever order: while the provider is loading there
-- is no user, and no token either unless an answer of `/me` is awaited.
pub steps-IsSettled : (es : List Event) → IsSettled (steps es mounted)
steps-IsSettled es =
    steps-IsSettled-from es mounted (record { no_user = λ _. refl; no_token = λ _ _. refl })

-- The events that sign out: a missing or expired user.
abbrev pub signs_out : Event → Bool
signs_out (initial_user none) = true
signs_out (initial_user (some u)) = elim (usable (some u)) [ true ↦ false | false ↦ true ]
signs_out (loaded u) = elim (usable (some u)) [ true ↦ false | false ↦ true ]
signs_out unloaded = true
signs_out silent_renew_error = true
signs_out _ = false

-- No sign-out happens while an answer of `/me` is awaited.
abbrev pub IsOrderly : List Event → AuthState → Type 0
IsOrderly [] s = Unit
IsOrderly (e ∷ es) s = (signs_out e ≡ true → s.pending ≡ []) × IsOrderly es (step e s)

-- A user who is shown, or is about to be, has a token.
pub record HasToken (s : AuthState) : Type 0 where
  pub shown : s.user ≢ none → s.token ≢ none
  pub awaited : s.pending ≢ [] → s.token ≢ none

step-HasToken :
    (e : Event) (s : AuthState)
    → (signs_out e ≡ true → s.pending ≡ [])
    → HasToken s
    → HasToken (step e s)
unfolding step
step-HasToken (initial_user none) s q v = ground arith
step-HasToken (initial_user (some u)) s q v = ground arith
step-HasToken initial_failed s q v = ground arith
step-HasToken (loaded u) s q v = ground arith
step-HasToken unloaded s q v = ground arith
step-HasToken silent_renew_error s q v = ground arith
step-HasToken (me n a) s q v = me-HasToken (taken n s.pending) refl
  where
    me-HasToken :
        (o : Option (OidcUser × List OidcUser)) → taken n s.pending ≡ o → HasToken (finish o a s)
    me-HasToken none e = v
    me-HasToken (some (u, us)) e =
        let here = v.awaited (taken-some n s.pending u us e) in
        record { shown = λ _. here; awaited = λ _. here }
step-HasToken unmount s q v = ground arith

steps-HasToken-from :
    (es : List Event) (s : AuthState) → IsOrderly es s → HasToken s → HasToken (steps es s)
unfolding steps
steps-HasToken-from [] s q v = v
steps-HasToken-from (e ∷ es) s (q, qs) v =
    steps-HasToken-from es (step e s) qs (step-HasToken e s q v)

-- As long as no sign-out is reported while an answer of `/me` is awaited, a user is shown only with
-- a token that requests can carry.
pub steps-HasToken : (es : List Event) → IsOrderly es mounted → HasToken (steps es mounted)
steps-HasToken es q =
    steps-HasToken-from es mounted q
      (record { shown = λ n. absurd (n refl); awaited = λ n. absurd (n refl) })

-- A sign-out that is reported while the answer of `/me` is awaited is undone by that answer: the user is shown
-- as signed in, and has no token.
pub late_me :
    (u : OidcUser) (a : Answer UserInfo)
    → usable (some u) ≡ true
    → let s = steps (loaded u ∷ unloaded ∷ me 0 a ∷ []) mounted in
      (is_authenticated s ≡ true) × (s.user ≡ some (me_user u a)) × (s.token ≡ none)
unfolding steps
late_me u a h = ground arith
