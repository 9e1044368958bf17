-- ===== src/View/Cards.antt =====
-- web/src/components/BucketList.tsx: the card of a bucket. Sizes are below 2 ^ 53, as far as a
-- number of the language is exact.
pub mod Grid
pub mod Quota
use pier_s3_gateway.Prelude.{
  ℕ, zero, suc, ◌+◌, ◌*◌, ◌/◌, ◌%◌, ◌^◌, Bool, true, false, ◌&&◌, ◌||◌, List, [], ◌∷◌, Option, none,
  some, ltb, leb, if◌then◌else◌, Text,
}
use pier_s3_gateway.Store.Buckets.{BucketInfo, Permissions}
use pier_s3_gateway.View.Bytes.{Shown, format_size}

pub data Badge : Type 0 where
  rw_badge wo_badge ro_badge : Badge

unfoldable pub access_badge : Permissions → Badge
access_badge p = if p.write && p.read then rw_badge else if p.write then wo_badge else ro_badge

-- `x !== undefined`
abbrev is_known : Option ℕ → Bool
is_known none = false
is_known (some _) = true

unfoldable pub has_stats : BucketInfo → Bool
has_stats b = is_known b.object_count || is_known b.size_bytes

-- `bucket.stats_truncated ? '≥ ' : ''`
abbrev is_true : Option Bool → Bool
is_true none = false
is_true (some b) = b

-- A line of the statistics: whether it is a lower bound, and what it shows.
pub data Stat : Type 0 where
  object_total : (at_least : Bool) → ℕ → Stat
  size_total : (at_least : Bool) → Shown → Stat

abbrev object_stat : Bool → Option ℕ → List Stat → List Stat
object_stat at_least none rest = rest
object_stat at_least (some n) rest = object_total at_least n ∷ rest

abbrev size_stat : Bool → Option ℕ → List Stat
size_stat at_least none = []
size_stat at_least (some n) = size_total at_least (format_size (some n)) ∷ []

unfoldable pub stats : BucketInfo → List Stat
unfolding has_stats format_size
stats b =
    if has_stats b
    then object_stat (is_true b.stats_truncated) b.object_count
        (size_stat (is_true b.stats_truncated) b.size_bytes)
    else []

pub record QuotaBar : Type 0 where
  pub percent : ℕ
  pub exception : Bool
  pub label : Shown
  -- The size in the tip, beside the quota.
  pub used : Shown

abbrev at_most : ℕ → ℕ → ℕ
at_most high n = if ltb high n then high else n

-- The nearest integer of a quotient, the even one of two.
abbrev nearest : ℕ → ℕ → ℕ
nearest n d =
    if ltb (n % d * 2) d then n / d else if ltb d (n % d * 2) then n / d + 1 else n / d + n / d % 2

-- How often a quotient is doubled until it has 53 bits; a quotient of sizes below 2 ^ 53 is within 105 doublings.
unfoldable pub exponent : ℕ → ℕ → ℕ → ℕ
exponent zero n d = 0
exponent (suc fuel) n d =
    let more = exponent fuel (n * 2) d in if leb (d * 0x10000000000000) n then 0 else suc more

-- A double that is not negative: `significand / scale`.
pub record Double : Type 0 where
  pub significand : ℕ
  pub scale : ℕ

-- A quotient in double precision.
abbrev rounded : ℕ → ℕ → ℕ → Double
rounded n d k = record { significand = nearest (n * 2 ^ k) d; scale = 2 ^ k }

unfoldable pub double : ℕ → ℕ → Double
unfolding exponent
double n d = rounded n d (exponent 106 n d)

-- `x * 100`
abbrev times_hundred : Double → Double
times_hundred x = double (x.significand * 100) x.scale

-- `Math.round`
abbrev math_round : Double → ℕ
math_round x = (x.significand * 2 + x.scale) / (x.scale * 2)

-- `Math.round((size / quota) * 100)`, for a quota that is not 0.
unfoldable pub percent_used : ℕ → ℕ → ℕ
unfolding double
percent_used size quota = math_round (times_hundred (double size quota))

-- The double of 0.9.
abbrev nine_tenths : Double
nine_tenths = record { significand = 0x1ccccccccccccd; scale = 0x20000000000000 }

abbrev at_least : Double → Double → Bool
at_least x y = leb (y.significand * x.scale) (x.significand * y.scale)

abbrev pub bar_of : ℕ → ℕ → QuotaBar
bar_of size quota = record {
  percent = at_most 100 (percent_used size quota);
  exception = at_least (double size quota) nine_tenths;
  label = format_size (some quota);
  used = format_size (some size);
}

-- There is a bar for a quota that is set and not 0, when the size is known.
unfoldable pub quota_bar : Option ℕ → Option ℕ → Option QuotaBar
unfolding percent_used double format_size
quota_bar none size = none
quota_bar (some quota) none = none
quota_bar (some zero) (some size) = none
quota_bar (some (suc quota)) (some size) = some (bar_of size (suc quota))
