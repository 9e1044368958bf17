-- ===== src/Server/RateLimit/Ideal.antt =====
-- internal/webui/ratelimit.go: what the limiter answers for a key, by one bucket that is never evicted.
use native.Mathlib.Nat.{mul-le-mul}
use pier_s3_gateway.Prelude.{
  ℕ, ◌+◌, ◌-◌, ◌*◌, ◌≤◌, Bool, true, false, List, [], ◌∷◌, ◌≡◌, refl, arith, Option, none, some,
  ltb, if◌then◌else◌, Text, text_eq, Bool-cases, inl, inr,
}
use pier_s3_gateway.Server.RateLimit.{
  TokenBucket, RateLimiter, token, idle_for, unless_idle, capped, allow,
}

-- A request: its time and its key.
abbrev pub Event : Type 0
Event = ℕ × Text

abbrev pub next_if : Bool → Bool → List Bool → List Bool
next_if own allowed rest = if own then allowed ∷ rest else rest

-- What the requests of a key are answered, among those of all keys.
unfoldable pub answers : Text → List Event → RateLimiter → List Bool
unfolding allow
answers key [] l = []
answers key ((now, k) ∷ events) l =
    next_if (text_eq key k) (allow now k l).0 (answers key events (allow now k l).1)

unfoldable pub times_of : Text → List Event → List ℕ
times_of key [] = []
times_of key ((now, k) ∷ events) =
    let rest = times_of key events in if text_eq key k then now ∷ rest else rest

-- The clock does not run back.
abbrev pub IsOrdered : ℕ → List Event → Type 0
IsOrdered start [] = Unit
IsOrdered start ((now, k) ∷ events) = (start ≤ now) × IsOrdered now events

module _ (most rate : ℕ) where
  -- One bucket: it grows with the time up to its size, and a request takes a token if there is one.
  abbrev pub grown : ℕ → TokenBucket → ℕ
  grown now v = capped most (v.tokens + (now - v.last) * rate)

  abbrev pub ideal_take : ℕ → ℕ → Bool × TokenBucket
  ideal_take now n =
      if ltb n token
      then (false, record { tokens = n; last = now })
      else (true, record { tokens = n - token; last = now })

  unfoldable pub ideal : List ℕ → TokenBucket → List Bool
  ideal [] v = []
  ideal (now ∷ times) v =
      (ideal_take now (grown now v)).0 ∷ ideal times (ideal_take now (grown now v)).1

  abbrev pub level : ℕ → Option TokenBucket → ℕ
  level now none = most
  level now (some b) = grown now b

  abbrev pub IsValid : ℕ → Option TokenBucket → Type 0
  IsValid now none = Unit
  IsValid now (some b) = (b.last ≤ now) × (b.tokens ≤ most)

  -- The bucket of a key holds from now on what the ideal one does.
  abbrev pub Agrees : ℕ → Option TokenBucket → TokenBucket → Type 0
  Agrees now o v = (later : ℕ) → now ≤ later → level later o ≡ grown later v

  capped-full : (n : ℕ) → most ≤ n → most ≡ capped most n
  capped-full n h = ground arith

  pub capped-part : (n : ℕ) → n ≤ most → capped most n ≡ n
  capped-part n h = ground arith

  module _ (enough : most ≤ idle_for * rate) where
    pub level-unless_idle :
        (now later : ℕ) (o : Option TokenBucket)
        → now ≤ later
        → level later (unless_idle now o) ≡ level later o
    level-unless_idle now later none h = refl
    level-unless_idle now later (some b) h = elim (Bool-cases (ltb idle_for (now - b.last))) [
      | inl e ↦ rw e (capped-full _ (idle_enough (ground arith)))
      | inr e ↦ rw e refl
    ]
      where
        idle_enough : idle_for ≤ later - b.last → most ≤ b.tokens + (later - b.last) * rate
        idle_enough k =
            let grows : idle_for * rate ≤ (later - b.last) * rate = mul-le-mul k (omega arith) in
            omega arith

  pub IsValid-unless_idle :
      (now : ℕ) (o : Option TokenBucket) → IsValid now o → IsValid now (unless_idle now o)
  IsValid-unless_idle now none h = tt
  IsValid-unless_idle now (some b) h = elim (Bool-cases (ltb idle_for (now - b.last))) [
    | inl e ↦ rw e tt
    | inr e ↦ rw e h
  ]

  pub IsValid-later :
      (now later : ℕ) (o : Option TokenBucket) → now ≤ later → IsValid now o → IsValid later o
  IsValid-later now later none l h = tt
  IsValid-later now later (some b) l (h, k) = (omega arith, k)
