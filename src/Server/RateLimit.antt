-- ===== src/Server/RateLimit.antt =====
-- internal/webui/ratelimit.go: the token buckets of the unauthenticated routes. Times are nanoseconds. A bucket counts
-- in parts of a token, as many as a minute has nanoseconds, so that a minute's rate gives whole parts; the
-- rounding of float64 is left out.
pub mod Ideal
pub mod Simulation
pub mod Window
use pier_s3_gateway.Prelude.{
  ℕ, ◌+◌, ◌-◌, ◌*◌, Bool, true, false, List, [], ◌∷◌, Option, none, some, leb, ltb, ◌==◌,
  if◌then◌else◌, Text, codes, text_eq, is_empty, split,
}
use pier_s3_gateway.Server.Replies.{Reply, ok, fail, error}
use pier_s3_gateway.Server.Utf8.{trim_space}

pub record TokenBucket : Type 0 where
  pub tokens : ℕ
  pub last : ℕ

-- A map of buckets; none stands for the zero time.
pub record RateLimiter : Type 0 where
  pub buckets : Text → Option TokenBucket
  pub rate : ℕ
  pub burst : ℕ
  pub last_gc : Option ℕ

abbrev pub minute : ℕ
minute = 60 * 1000000000

-- `idleFor`
abbrev pub idle_for : ℕ
idle_for = 10 * minute

-- A token, in the parts in which a bucket counts.
abbrev pub token : ℕ
token = minute

abbrev pub new_rate_limiter : (rate_per_minute burst : ℕ) → RateLimiter
new_rate_limiter rate_per_minute burst = record {
  buckets = λ k. none;
  rate = rate_per_minute;
  burst = burst;
  last_gc = none;
}

abbrev unless_idle : ℕ → Option TokenBucket → Option TokenBucket
unless_idle now none = none
unless_idle now (some b) = if ltb idle_for (now - b.last) then none else some b

abbrev collected : ℕ → RateLimiter → RateLimiter
collected now l = record l { buckets = λ k. unless_idle now (l.buckets k); last_gc = some now }

abbrev is_early : ℕ → Option ℕ → Bool
is_early now none = false
is_early now (some t) = ltb (now - t) idle_for

-- `gcLocked`
unfoldable pub gc : ℕ → RateLimiter → RateLimiter
gc now l = if is_early now l.last_gc then l else collected now l

abbrev pub or_full : RateLimiter → ℕ → Option TokenBucket → TokenBucket
or_full l now none = record { tokens = l.burst * token; last = now }
or_full l now (some b) = b

abbrev pub capped : ℕ → ℕ → ℕ
capped most n = if ltb most n then most else n

unfoldable pub refill : RateLimiter → ℕ → TokenBucket → TokenBucket
refill l now b =
    if ltb 0 (now - b.last)
    then record {
      tokens = capped (l.burst * token) (b.tokens + (now - b.last) * l.rate);
      last = now;
    }
    else b

abbrev pub put_bucket : Text → TokenBucket → RateLimiter → RateLimiter
put_bucket key b l = record l { buckets = λ k. if text_eq k key then some b else l.buckets k }

abbrev pub take_token : Text → TokenBucket → RateLimiter → Bool × RateLimiter
take_token key b l =
    if ltb b.tokens token
    then (false, put_bucket key b l)
    else (true, put_bucket key (record b { tokens = b.tokens - token }) l)

-- Whether a request may proceed, and the limiter after it.
unfoldable pub allow : ℕ → Text → RateLimiter → Bool × RateLimiter
unfolding gc refill
allow now key l =
    let swept = gc now l in
    take_token key (refill swept now (or_full swept now (swept.buckets key))) swept

-- The middleware before the handler of a route, by the address of the client.
unfoldable pub rate_limit_middleware {ℓ} :
    {A : Type ℓ} → ℕ → Text → RateLimiter → Reply A → Reply A × RateLimiter
unfolding allow
rate_limit_middleware now ip l next =
    let (allowed, after) = allow now ip l in
    (
      if allowed
          then next
          else fail (record {
            status = 429;
            code = codes "rate_limited";
            message = codes "too many requests";
          }),
      after,
    )

abbrev last_of : Text → List Text → Text
last_of s [] = s
last_of s (t ∷ ts) = last_of t ts

-- `clientIP`: the header X-Forwarded-For, the address of the transport and `net.SplitHostPort` of it.
unfoldable pub client_ip : Text → Text → (Text → Option Text) → Text
unfolding split trim_space
client_ip forwarded_for remote_addr host_of =
    if is_empty forwarded_for
    then elim (host_of remote_addr) [ none ↦ remote_addr | some host ↦ host ]
    else trim_space (last_of [] (split b',' forwarded_for))
