-- ===== src/View/Cards/Quota.antt =====
-- web/src/components/BucketList.tsx: the bar of the quota, with the rounding of its two divisions and its product.
use Prim.Native.Nat.pow
use pier_s3_gateway.Prelude.{
  ℕ, zero, suc, ◌+◌, ◌*◌, ◌/◌, ◌^◌, ◌≤◌, ◌<◌, ◌↔◌, true, ◌≡◌, refl, subst, none, some, arith,
}
use pier_s3_gateway.View.Bytes.{format_size}
use pier_s3_gateway.View.Cards.{
  QuotaBar, Double, nearest, exponent, rounded, double, times_hundred, math_round, percent_used,
  at_most, bar_of, quota_bar,
}

-- Rounding keeps a whole number below a quotient below it.
div_ge : (c n d : ℕ) → 0 < d → c * d ≤ n → c ≤ n / d
div_ge c n d h k = grind arith

nearest_ge : (c n d : ℕ) → 0 < d → c * d ≤ n → c ≤ nearest n d
nearest_ge c n d h k = let e = div_ge c n d h k in ground (arith, e)

mul_le : (a b c : ℕ) → a ≤ b → a * c ≤ b * c
mul_le a b c h = grind arith

pow_positive : (k : ℕ) → 0 < 2 ^ k
pow_positive zero = rw (pow.zero 2) (omega arith)
pow_positive (suc k) = rw (pow.suc 2 k) (omega (arith, pow_positive k))

swap : (c s d : ℕ) → c * s * d ≡ c * d * s
swap c s d = grind arith

rounded_ge :
    (c n d k : ℕ) → 0 < d → c * d ≤ n → c * (rounded n d k).scale ≤ (rounded n d k).significand
rounded_ge c n d k h e =
    nearest_ge (c * 2 ^ k) (n * 2 ^ k) d h
      (subst (λ x. x ≤ n * 2 ^ k) (swap c d (2 ^ k)) (mul_le (c * d) n (2 ^ k) e))

double_ge : (c n d : ℕ) → 0 < d → c * d ≤ n → c * (double n d).scale ≤ (double n d).significand
unfolding double
double_ge c n d h e = rounded_ge c n d (exponent 106 n d) h e

scale_positive : (n d : ℕ) → 0 < (double n d).scale
unfolding double
scale_positive n d = pow_positive (exponent 106 n d)

math_round_ge : (c : ℕ) (x : Double) → 0 < x.scale → c * x.scale ≤ x.significand → c ≤ math_round x
math_round_ge c x h e =
    div_ge c (x.significand * 2 + x.scale) (x.scale * 2) (omega (arith, h)) (grind arith)

-- A share of the quota that is at least so many hundredths is shown as at least so many percent.
percent_used_ge :
    (c size quota : ℕ)
    → c * (double size quota).scale ≤ (double size quota).significand * 100
    → c ≤ percent_used size quota
unfolding percent_used
percent_used_ge c size quota e =
    let x = double size quota in
    math_round_ge c (times_hundred x) (scale_positive (x.significand * 100) x.scale)
      (double_ge c (x.significand * 100) x.scale (scale_positive size quota) e)

-- What the bar says of the size and the quota.
pub record IsFaithful (size quota : ℕ) (bar : QuotaBar) : Type 0 where
  pub bounded : bar.percent ≤ 100
  pub full : quota ≤ size → (bar.percent ≡ 100) × (bar.exception ≡ true)
  pub warns : bar.exception ≡ true → 90 ≤ bar.percent
  pub label : bar.label ≡ format_size (some quota)
  pub used : bar.used ≡ format_size (some size)

at_most_bound : (n : ℕ) → at_most 100 n ≤ 100
at_most_bound n = ground arith

at_most_ge : (c n : ℕ) → c ≤ 100 → c ≤ n → c ≤ at_most 100 n
at_most_ge c n h k = ground arith

bar_of-IsFaithful : (size quota : ℕ) → 0 < quota → IsFaithful size quota (bar_of size quota)
bar_of-IsFaithful size quota h = record {
  bounded = at_most_bound (percent_used size quota);
  full = λ k.
      let whole : 1 * (double size quota).scale ≤ (double size quota).significand =
        double_ge 1 size quota h (omega (arith, k)) in
      let p : 100 ≤ percent_used size quota =
        percent_used_ge 100 size quota (omega (arith, whole)) in
      (
        omega (arith, at_most_bound (percent_used size quota), at_most_ge 100 _ (omega arith) p),
        ground (arith, whole),
      );
  warns = λ k.
      let part : 0x1ccccccccccccd * (double size quota).scale
          ≤ (double size quota).significand * 0x20000000000000 =
        ground (arith, k) in
      at_most_ge 90 _ (omega arith) (percent_used_ge 90 size quota (omega (arith, part)));
  label = refl;
  used = refl;
}

-- There is a bar exactly for a quota other than 0, when both are known. Its percentage is at most 100; from a full quota
-- on it is 100, and the bar warns; it warns only from 90 percent on, rounding included; and it is labelled with the quota
-- and the size.
pub quota_bar-IsFaithful :
    (quota size : ℕ)
    → ((quota_bar (some quota) (some size) ≡ none) ↔ (quota ≡ 0))
      × ((bar : QuotaBar)
          → quota_bar (some quota) (some size) ≡ some bar
          → IsFaithful size quota bar)
unfolding quota_bar
quota_bar-IsFaithful zero size = ((λ _. refl, λ _. refl), λ bar e. cc e)
quota_bar-IsFaithful (suc quota) size = (
  (λ e. cc e, λ e. absurd (omega (arith, e))),
  λ bar e.
      subst (IsFaithful size (suc quota)) (cc e) (bar_of-IsFaithful size (suc quota) (omega arith)),
)
