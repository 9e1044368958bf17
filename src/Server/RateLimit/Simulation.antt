-- ===== src/Server/RateLimit/Simulation.antt =====
-- internal/webui/ratelimit.go: the limiter with its map and evictions beside the ideal bucket of each key.
use native.Mathlib.Nat.{zero-mul}
use pier_s3_gateway.Prelude.{
  subst, ℕ, ◌-◌, ◌*◌, ◌≤◌, true, false, List, [], ◌∷◌, ◌≡◌, refl, ◌∙◌, arith, Option, none, some,
  ltb, Text, text_eq, text_eq_iff, Bool-cases, inl, inr,
}
use pier_s3_gateway.Server.RateLimit.{
  TokenBucket, RateLimiter, token, idle_for, is_early, gc, or_full, refill, put_bucket, take_token,
  allow,
}
use pier_s3_gateway.Server.RateLimit.Ideal.{
  Event, answers, times_of, IsOrdered, grown, ideal_take, ideal, level, IsValid, Agrees,
  level-unless_idle, IsValid-unless_idle, IsValid-later,
}

module _ (most rate : ℕ) (enough : most ≤ idle_for * rate) where
  -- The limiter at a time, for a key and its ideal bucket.
  pub record IsSame (key : Text) (now : ℕ) (l : RateLimiter) (v : TokenBucket) : Type 0 where
    pub size : l.burst * token ≡ most
    pub speed : l.rate ≡ rate
    pub valid : IsValid most rate now (l.buckets key)
    pub agrees : Agrees most rate now (l.buckets key) v

  pub IsSame-later :
      (key : Text) (cur now : ℕ) (l : RateLimiter) (v : TokenBucket)
      → cur ≤ now
      → IsSame key cur l v
      → IsSame key now l v
  IsSame-later key cur now l v h s = record {
    size = s.size;
    speed = s.speed;
    valid = IsValid-later most rate cur now (l.buckets key) h s.valid;
    agrees = λ later k. s.agrees later (omega arith);
  }

  -- The clock runs and the map is swept.
  pub IsSame-gc :
      (key : Text) (cur now : ℕ) (l : RateLimiter) (v : TokenBucket)
      → cur ≤ now
      → IsSame key cur l v
      → IsSame key now (gc now l) v
  unfolding gc
  IsSame-gc key cur now l v h s = elim (Bool-cases (is_early now l.last_gc)) [
    | inl e ↦ rw e (IsSame-later key cur now l v h s)
    | inr e ↦ rw e (record {
      size = s.size;
      speed = s.speed;
      valid =
          IsValid-unless_idle most rate now (l.buckets key)
            (IsValid-later most rate cur now (l.buckets key) h s.valid);
      agrees = λ later k.
          level-unless_idle most rate enough now later (l.buckets key) k
          ∙ s.agrees later (omega arith);
    })
  ]

  -- The bucket of the key before a token is taken.
  record IsRefilled (now n : ℕ) (b : TokenBucket) : Type 0 where
    amount : b.tokens ≡ n
    time : b.last ≡ now
    fits : b.tokens ≤ most

  still_full :
      (b : TokenBucket) (now : ℕ)
      → now - b.last ≡ 0
      → b.tokens ≤ most
      → b.tokens ≡ grown most rate now b
  still_full b now h k = rw (h, zero-mul rate) (ground arith)

  refill-IsRefilled :
      (now : ℕ) (l : RateLimiter) (o : Option TokenBucket)
      → l.burst * token ≡ most
      → l.rate ≡ rate
      → IsValid most rate now o
      → IsRefilled now (level most rate now o) (refill l now (or_full l now o))
  unfolding refill
  refill-IsRefilled now l none e f h =
      let nothing : ltb 0 (now - now) ≡ false = ground arith in
      rw nothing (record { amount = e; time = refl; fits = omega arith })
  refill-IsRefilled now l (some b) e f (h, k) = elim (Bool-cases (ltb 0 (now - b.last))) [
    | inl more ↦ rw more (record { amount = rw (e, f) refl; time = refl; fits = ground arith })
    | inr still ↦
        let same : now - b.last ≡ 0 = ground arith in
        rw still (record { amount = still_full b now same k; time = ground arith; fits = k })
  ]

  IsSame-put :
      (key : Text) (now : ℕ) (l : RateLimiter) (b v : TokenBucket)
      → l.burst * token ≡ most
      → l.rate ≡ rate
      → b.tokens ≤ most
      → b.last ≡ now
      → b.tokens ≡ v.tokens
      → v.last ≡ now
      → IsSame key now (put_bucket key b l) v
  IsSame-put key now l b v e f fits time amount at =
      let own = (text_eq_iff key key).1 refl in
      record {
        size = e;
        speed = f;
        valid = rw own (omega arith, fits);
        agrees = λ later k. rw (own, time, amount, at) refl;
      }

  IsSame-take :
      (key : Text) (now : ℕ) (l : RateLimiter) (b : TokenBucket)
      → l.burst * token ≡ most
      → l.rate ≡ rate
      → b.tokens ≤ most
      → b.last ≡ now
      → ((take_token key b l).0 ≡ (ideal_take most rate now b.tokens).0)
        × IsSame key now (take_token key b l).1 (ideal_take most rate now b.tokens).1
  IsSame-take key now l b e f fits time = elim (Bool-cases (ltb b.tokens token)) [
    | inl few ↦ rw few (refl, IsSame-put key now l b _ e f fits time refl refl)
    | inr enough_left ↦
        rw enough_left (refl, IsSame-put key now l _ _ e f (omega arith) time refl refl)
  ]

  IsSame-other :
      (key k : Text) (now : ℕ) (l : RateLimiter) (b v : TokenBucket)
      → text_eq key k ≡ false
      → IsSame key now l v
      → IsSame key now (put_bucket k b l) v
  IsSame-other key k now l b v other s = record {
    size = s.size;
    speed = s.speed;
    valid = rw other s.valid;
    agrees = λ later h. rw other (s.agrees later h);
  }

  pub IsSame-take_other :
      (key k : Text) (now : ℕ) (l : RateLimiter) (b v : TokenBucket)
      → text_eq key k ≡ false
      → IsSame key now l v
      → IsSame key now (take_token k b l).1 v
  IsSame-take_other key k now l b v other s = elim (Bool-cases (ltb b.tokens token)) [
    | inl few ↦ rw few (IsSame-other key k now l _ v other s)
    | inr enough_left ↦ rw enough_left (IsSame-other key k now l _ v other s)
  ]

  pub allow-IsSame :
      (key : Text) (cur now : ℕ) (l : RateLimiter) (v : TokenBucket)
      → cur ≤ now
      → IsSame key cur l v
      → ((allow now key l).0 ≡ (ideal_take most rate now (grown most rate now v)).0)
        × IsSame key now (allow now key l).1 (ideal_take most rate now (grown most rate now v)).1
  unfolding allow
  allow-IsSame key cur now l v h s =
      let swept = IsSame-gc key cur now l v h s in
      let r =
        refill-IsRefilled now (gc now l) ((gc now l).buckets key) swept.size swept.speed
          swept.valid in
      subst
        (λ n.
          ((take_token key (refill (gc now l) now (or_full (gc now l) now ((gc now l).buckets key)))
              (gc now l)).0
            ≡ (ideal_take most rate now n).0)
          × IsSame key now
              (take_token key
                (refill (gc now l) now (or_full (gc now l) now ((gc now l).buckets key)))
                (gc now l)).1
              (ideal_take most rate now n).1)
        (r.amount ∙ swept.agrees now (omega arith))
        (IsSame-take key now (gc now l) _ swept.size swept.speed r.fits r.time)

  pub own-IsSame :
      (key k : Text) (cur now : ℕ) (l : RateLimiter) (v : TokenBucket)
      → text_eq key k ≡ true
      → cur ≤ now
      → IsSame key cur l v
      → ((allow now k l).0 ≡ (ideal_take most rate now (grown most rate now v)).0)
        × IsSame key now (allow now k l).1 (ideal_take most rate now (grown most rate now v)).1
  own-IsSame key k cur now l v own h s =
      subst
        (λ k'.
          ((allow now k' l).0 ≡ (ideal_take most rate now (grown most rate now v)).0)
          × IsSame key now (allow now k' l).1 (ideal_take most rate now (grown most rate now v)).1)
        ((text_eq_iff key k).0 own) (allow-IsSame key cur now l v h s)

  pub other-IsSame :
      (key k : Text) (cur now : ℕ) (l : RateLimiter) (v : TokenBucket)
      → text_eq key k ≡ false
      → cur ≤ now
      → IsSame key cur l v
      → IsSame key now (allow now k l).1 v
  unfolding allow
  other-IsSame key k cur now l v other h s =
      IsSame-take_other key k now (gc now l) _ v other (IsSame-gc key cur now l v h s)

  pub answers-ideal :
      (key : Text) (cur : ℕ) (events : List Event) (l : RateLimiter) (v : TokenBucket)
      → IsOrdered cur events
      → IsSame key cur l v
      → answers key events l ≡ ideal most rate (times_of key events) v
  unfolding answers ideal times_of
  answers-ideal key cur [] l v h s = refl
  answers-ideal key cur ((now, k) ∷ events) l v (h, hs) s = elim (Bool-cases (text_eq key k)) [
    | inl own ↦
        let (answer, next) = own-IsSame key k cur now l v own h s in
        rw (own, answer, answers-ideal key now events _ _ hs next) refl
    | inr other ↦
        rw other (answers-ideal key now events _ v hs (other-IsSame key k cur now l v other h s))
  ]
