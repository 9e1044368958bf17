-- ===== src/Store/Buckets/Merge.antt =====
-- web/src/store/buckets.ts: what the stats of one bucket change in the list.
use mathlib.Core.Option
use pier_s3_gateway.Prelude.{
  List, [], ◌∷◌, ◌≡◌, refl, ap, map, Option, none, some, if◌then◌else◌, Text, text_eq, text_eq_iff,
  arith, Bool-cases, inl, inr,
}
use pier_s3_gateway.Store.Buckets.{BucketInfo, BucketStats, Permissions, put_stats, merge_stats}

-- `buckets.find((b) => b.name === bucket)`
unfoldable pub find_bucket : Text → List BucketInfo → Option BucketInfo
find_bucket name [] = none
find_bucket name (b ∷ buckets) = if text_eq b.name name then some b else find_bucket name buckets

-- What a card shows whatever the stats.
abbrev pub identity : BucketInfo → Text × Permissions
identity b = (b.name, b.permissions)

-- Merging the stats of one bucket keeps the order of the list, and every name and permission.
pub merge_stats-identity :
    (name : Text) (stats : BucketStats) (buckets : List BucketInfo)
    → map identity (merge_stats name stats buckets) ≡ map identity buckets
unfolding merge_stats
merge_stats-identity name stats [] = refl
merge_stats-identity name stats (b ∷ buckets) = elim (Bool-cases (text_eq b.name name)) [
  | inl e ↦ rw e (ap (λ r. identity b ∷ r) (merge_stats-identity name stats buckets))
  | inr e ↦ rw e (ap (λ r. identity b ∷ r) (merge_stats-identity name stats buckets))
]

-- After the merge the bucket of that name has the stats, and every other bucket is as it was.
pub find_bucket-merge_stats :
    (k name : Text) (stats : BucketStats) (buckets : List BucketInfo)
    → find_bucket k (merge_stats name stats buckets) ≡ (
        if text_eq k name
        then Option.map (put_stats stats) (find_bucket k buckets)
        else find_bucket k buckets)
unfolding find_bucket merge_stats
find_bucket-merge_stats k name stats [] = ground arith
find_bucket-merge_stats k name stats (b ∷ buckets) = ground (
  arith,
  text_eq_iff b.name name,
  text_eq_iff b.name k,
  text_eq_iff k name,
  find_bucket-merge_stats k name stats buckets,
)
