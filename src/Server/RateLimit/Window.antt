-- ===== src/Server/RateLimit/Window.antt =====
-- internal/webui/ratelimit.go: how many requests of a key may proceed in a span of time.
use native.Mathlib.Nat.{add-mul, zero-mul}
use pier_s3_gateway.Prelude.{
  ℕ, suc, ◌+◌, ◌-◌, ◌*◌, ◌≤◌, Bool, true, false, List, [], ◌∷◌, ◌≡◌, refl, sym, ap, ◌∙◌, subst,
  arith, ltb, Text, text_eq, Bool-cases, inl, inr,
}
use pier_s3_gateway.Server.RateLimit.{
  TokenBucket, RateLimiter, token, idle_for, new_rate_limiter, capped, allow,
}
use pier_s3_gateway.Server.RateLimit.Ideal.{
  Event, answers, times_of, IsOrdered, grown, ideal_take, ideal,
}
use pier_s3_gateway.Server.RateLimit.Simulation.{
  IsSame, IsSame-later, own-IsSame, other-IsSame, answers-ideal,
}

unfoldable pub run : List Event → RateLimiter → RateLimiter
unfolding allow
run [] l = l
run ((now, k) ∷ events) l = run events (allow now k l).1

unfoldable pub count : List Bool → ℕ
count [] = 0
count (true ∷ bs) = suc (count bs)
count (false ∷ bs) = count bs

-- Requests in order of time, from one time to another.
abbrev pub IsWithin : (start finish : ℕ) → List Event → Type 0
IsWithin start finish [] = start ≤ finish
IsWithin start finish ((now, k) ∷ events) = (start ≤ now) × IsWithin now finish events

abbrev AreWithin : (start finish : ℕ) → List ℕ → Type 0
AreWithin start finish [] = start ≤ finish
AreWithin start finish (now ∷ times) = (start ≤ now) × AreWithin now finish times

AreWithin-earlier :
    (start now finish : ℕ) (times : List ℕ)
    → start ≤ now
    → AreWithin now finish times
    → AreWithin start finish times
AreWithin-earlier start now finish [] h k = omega arith
AreWithin-earlier start now finish (t ∷ times) h (k, ks) = (omega arith, ks)

times_of-AreWithin :
    (key : Text) (start finish : ℕ) (events : List Event)
    → IsWithin start finish events
    → AreWithin start finish (times_of key events)
unfolding times_of
times_of-AreWithin key start finish [] h = h
times_of-AreWithin key start finish ((now, k) ∷ events) (h, hs) =
    elim (Bool-cases (text_eq key k)) [
      | inl own ↦ rw own (h, times_of-AreWithin key now finish events hs)
      | inr other ↦
          rw other
            (AreWithin-earlier start now finish _ h (times_of-AreWithin key now finish events hs))
    ]

AreWithin-le : (start finish : ℕ) (times : List ℕ) → AreWithin start finish times → start ≤ finish
AreWithin-le start finish [] h = h
AreWithin-le start finish (now ∷ times) (h, hs) =
    let later = AreWithin-le now finish times hs in omega arith

IsWithin-IsOrdered :
    (start finish : ℕ) (events : List Event) → IsWithin start finish events → IsOrdered start events
IsWithin-IsOrdered start finish [] h = tt
IsWithin-IsOrdered start finish ((now, k) ∷ events) (h, hs) =
    (h, IsWithin-IsOrdered now finish events hs)

-- Two spans of time give what they give together.
spans : (a b c rate : ℕ) → a ≤ b → b ≤ c → (b - a) * rate + (c - b) * rate ≡ (c - a) * rate
spans a b c rate h k =
    let whole : (b - a) + (c - b) ≡ c - a = omega arith in
    sym (add-mul (b - a) (c - b) rate) ∙ ap (λ n. n * rate) whole

module _ (most rate : ℕ) where
  grown-le : (v : TokenBucket) (now : ℕ) → grown most rate now v ≤ most
  grown-le v now = ground arith

  capped-add : (x y : ℕ) → capped most (x + y) ≤ capped most x + y
  capped-add x y = ground arith

  grown-later :
      (v : TokenBucket) (start now : ℕ)
      → v.last ≤ start
      → start ≤ now
      → grown most rate now v ≤ grown most rate start v + (now - start) * rate
  grown-later v start now h k =
      let split = spans v.last start now rate h k in
      let more = capped-add (v.tokens + (start - v.last) * rate) ((now - start) * rate) in
      let same : v.tokens + (now - v.last) * rate
          ≡ (v.tokens + (start - v.last) * rate) + (now - start) * rate =
        omega arith in
      subst (λ n. capped most n ≤ grown most rate start v + (now - start) * rate) (sym same) more

  -- What is left in a bucket at the time of its last change.
  grown-now : (n now : ℕ) → grown most rate now (record { tokens = n; last = now }) ≤ n
  grown-now n now =
      let none_yet : now - now ≡ 0 = omega arith in rw (none_yet, zero-mul rate) (ground arith)

  ideal_take-last : (now n : ℕ) → (ideal_take most rate now n).1.last ≤ now
  ideal_take-last now n = ground arith

  ideal-count :
      (start finish : ℕ) (times : List ℕ) (v : TokenBucket)
      → v.last ≤ start
      → AreWithin start finish times
      → count (ideal most rate times v) * token ≤ grown most rate start v + (finish - start) * rate
  unfolding ideal count
  ideal-count start finish [] v h k = omega arith
  ideal-count start finish (now ∷ times) v h (k, ks) =
      let before = grown-later v start now h k in
      let split = spans start now finish rate k (AreWithin-le now finish times ks) in
      elim (Bool-cases (ltb (grown most rate now v) token)) [
        | inl few ↦
            let rest =
              ideal-count now finish times (record { tokens = grown most rate now v; last = now })
                (omega arith) ks in
            let left = grown-now (grown most rate now v) now in rw few (omega arith)
        | inr some_left ↦
            let rest =
              ideal-count now finish times
                (record { tokens = grown most rate now v - token; last = now }) (omega arith) ks in
            let left = grown-now (grown most rate now v - token) now in
            let enough : token ≤ grown most rate now v = ground arith in rw some_left (omega arith)
      ]

  module _ (enough : most ≤ idle_for * rate) where
    -- The ideal bucket of a key after a run.
    record IsAfter (key : Text) (now : ℕ) (l : RateLimiter) : Type 0 where
      bucket : TokenBucket
      same : IsSame most rate enough key now l bucket
      earlier : bucket.last ≤ now

    run-IsAfter :
        (key : Text) (cur finish : ℕ) (events : List Event) (l : RateLimiter)
        → IsWithin cur finish events
        → IsAfter key cur l
        → IsAfter key finish (run events l)
    unfolding run
    run-IsAfter key cur finish [] l h a = record {
      bucket = a.bucket;
      same = IsSame-later most rate enough key cur finish l a.bucket h a.same;
      earlier = omega (arith, a.earlier, h);
    }
    run-IsAfter key cur finish ((now, k) ∷ events) l (h, hs) a = elim (Bool-cases (text_eq key k)) [
      | inl own ↦ run-IsAfter key now finish events _ hs (record {
        bucket = (ideal_take most rate now (grown most rate now a.bucket)).1;
        same = (own-IsSame most rate enough key k cur now l a.bucket own h a.same).1;
        earlier = ideal_take-last now (grown most rate now a.bucket);
      })
      | inr other ↦ run-IsAfter key now finish events _ hs (record {
        bucket = a.bucket;
        same = other-IsSame most rate enough key k cur now l a.bucket other h a.same;
        earlier = omega (arith, a.earlier);
      })
    ]

-- However many requests came before: between two times at most the burst and what the rate gives in that time are allowed
-- for a key, whatever other keys ask and whatever is evicted, provided that ten minutes fill a bucket.
pub run-IsLimited :
    (rate burst : ℕ) (key : Text) (start finish : ℕ) (before window : List Event)
    → burst ≤ 10 * rate
    → IsWithin 0 start before
    → IsWithin start finish window
    → count (answers key window (run before (new_rate_limiter rate burst))) * token
      ≤ burst * token + (finish - start) * rate
run-IsLimited rate burst key start finish before window h b w =
    let most = burst * token in
    let enough : burst * token ≤ idle_for * rate = omega arith in
    let after =
      run-IsAfter (burst * token) rate enough key 0 start before (new_rate_limiter rate burst) b
        (record {
          bucket = record { tokens = burst * token; last = 0 };
          same = record { size = refl; speed = refl; valid = tt; agrees = λ later k. ground arith };
          earlier = omega arith;
        }) in
    let bound =
      ideal-count (burst * token) rate start finish (times_of key window) after.bucket after.earlier
        (times_of-AreWithin key start finish window w) in
    let full = grown-le (burst * token) rate after.bucket start in
    let same =
      answers-ideal (burst * token) rate enough key start window _ after.bucket
        (IsWithin-IsOrdered start finish window w) after.same in
    rw same (omega arith)
