-- ===== src/Server/Stats.antt =====
-- internal/webui/stats.go: the walk over a bucket. What the backend answers for a token is an argument, none for an
-- error; sizes are natural numbers.
pub mod Walk
use pier_s3_gateway.Prelude.{
  ℕ, zero, suc, ◌+◌, Bool, true, false, List, [], ◌∷◌, ◌++◌, ◌≡◌, refl, sym, ap, ◌∙◌, arith, Option,
  none, some, ltb, if◌then◌else◌, Text, codes, text_eq, length, take, map,
}

pub record Page : Type 0 where
  pub contents : List (Option ℕ)
  pub is_truncated : Option Bool
  pub next_continuation_token : Option Text

pub record BucketStatsResponse : Type 0 where
  pub bucket : Text
  pub object_count : ℕ
  pub size_bytes : ℕ
  pub truncated : Bool
  pub quota_bytes : ℕ

abbrev pub stats_max_pages : ℕ
stats_max_pages = 50

abbrev pub to_int64 : Option ℕ → ℕ
to_int64 none = 0
to_int64 (some n) = n

-- The loop over the objects of a page.
unfoldable pub add_contents : List (Option ℕ) → BucketStatsResponse → BucketStatsResponse
add_contents [] s = s
add_contents (size ∷ sizes) s =
    add_contents sizes
      (record s { object_count = s.object_count + 1; size_bytes = s.size_bytes + to_int64 size })

abbrev next_if : Option Bool → Option Text → Option Text
next_if (some true) token = token
next_if _ token = none

-- The token to go on with.
abbrev pub next_of : Page → Option Text
next_of p = next_if p.is_truncated p.next_continuation_token

abbrev find : Text → List (Text × ℕ) → Option ℕ
find name [] = none
find name ((k, q) ∷ quotas) = let rest = find name quotas in if text_eq k name then some q else rest

abbrev or_zero : Option ℕ → ℕ
or_zero none = 0
or_zero (some q) = q

abbrev or_default : List (Text × ℕ) → Option ℕ → ℕ
or_default quotas none = or_zero (find (codes "*") quotas)
or_default quotas (some q) = q

unfoldable pub quota_for : List (Text × ℕ) → Text → ℕ
unfolding text_eq
quota_for quotas bucket = or_default quotas (find bucket quotas)

module _ (answer : Text → Option Page) where
  abbrev pub go_on :
      Option Text
      → (Text → Option BucketStatsResponse)
      → BucketStatsResponse
      → Option BucketStatsResponse
  go_on none more s = some s
  go_on (some token) more s = more token

  abbrev pub with_page :
      Option Page
      → (BucketStatsResponse → Text → Option BucketStatsResponse)
      → BucketStatsResponse
      → Option BucketStatsResponse
  with_page none more s = none
  with_page (some p) more s =
      let counted = add_contents p.contents s in go_on (next_of p) (more counted) counted

  -- The loop, with the number of pages that are left.
  unfoldable pub walk : ℕ → Text → BucketStatsResponse → Option BucketStatsResponse
  unfolding add_contents
  walk zero token s = some (record s { truncated = true })
  walk (suc n) token s = with_page (answer token) (λ counted next. walk n next counted) s

  unfoldable pub compute_bucket_stats : List (Text × ℕ) → Text → Option BucketStatsResponse
  unfolding walk quota_for
  compute_bucket_stats quotas bucket = walk stats_max_pages [] (record {
    bucket = bucket;
    object_count = 0;
    size_bytes = 0;
    truncated = false;
    quota_bytes = quota_for quotas bucket;
  })
