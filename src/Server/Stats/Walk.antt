-- ===== src/Server/Stats/Walk.antt =====
-- internal/webui/stats.go: what the walk over a bucket counts.
use pier_s3_gateway.Prelude.{
  ℕ, zero, suc, ◌+◌, Bool, true, false, List, [], ◌∷◌, ◌++◌, ◌≡◌, refl, ap, ◌∙◌, arith, append-nil,
  Option, none, some, ltb, Text, length, length-append, take, take-nil,
}
use pier_s3_gateway.Server.Stats.{
  Page, BucketStatsResponse, stats_max_pages, to_int64, add_contents, next_of, quota_for, walk,
  compute_bucket_stats,
}

unfoldable pub total : List (Option ℕ) → ℕ
total [] = 0
total (size ∷ sizes) = to_int64 size + total sizes

abbrev pub contents_of : List Page → List (Option ℕ)
contents_of [] = []
contents_of (p ∷ ps) = p.contents ++ contents_of ps

-- The statistics with some objects more.
abbrev with_objects : List (Option ℕ) → Bool → BucketStatsResponse → BucketStatsResponse
with_objects sizes truncated s = record s {
  object_count = s.object_count + length sizes;
  size_bytes = s.size_bytes + total sizes;
  truncated = truncated;
}

total-append : (xs ys : List (Option ℕ)) → total (xs ++ ys) ≡ total xs + total ys
unfolding total
total-append [] ys = omega arith
total-append (x ∷ xs) ys = omega (arith, total-append xs ys)

add_contents_lem :
    (xs : List (Option ℕ)) (s : BucketStatsResponse) (b : Bool)
    → s.truncated ≡ b
    → add_contents xs s ≡ with_objects xs b s
unfolding add_contents total
add_contents_lem [] s b h =
    let count : s.object_count ≡ s.object_count + 0 = omega arith in
    let size : s.size_bytes ≡ s.size_bytes + 0 = omega arith in
    λ i. record s { object_count = count i; size_bytes = size i; truncated = h i }
add_contents_lem (x ∷ xs) s b h =
    let count : s.object_count + 1 + length xs ≡ s.object_count + suc (length xs) = omega arith in
    let size : s.size_bytes + to_int64 x + total xs ≡ s.size_bytes + (to_int64 x + total xs) =
      omega arith in
    add_contents_lem xs _ b h
    ∙ (λ i. record s { object_count = count i; size_bytes = size i; truncated = b })

with_objects-append :
    (xs ys : List (Option ℕ)) (b c : Bool) (s : BucketStatsResponse)
    → with_objects ys c (with_objects xs b s) ≡ with_objects (xs ++ ys) c s
with_objects-append xs ys b c s =
    let count : s.object_count + length xs + length ys ≡ s.object_count + length (xs ++ ys) =
      omega (arith, length-append xs ys) in
    let size : s.size_bytes + total xs + total ys ≡ s.size_bytes + total (xs ++ ys) =
      omega (arith, total-append xs ys) in
    λ i. record s { object_count = count i; size_bytes = size i; truncated = c }

with_objects-nil :
    (b : Bool) (s : BucketStatsResponse) → record s { truncated = b } ≡ with_objects [] b s
unfolding total
with_objects-nil b s =
    let count : s.object_count ≡ s.object_count + 0 = omega arith in
    let size : s.size_bytes ≡ s.size_bytes + 0 = omega arith in
    λ i. record s { object_count = count i; size_bytes = size i; truncated = b }

module _ (answer : Text → Option Page) where
  -- The pages that the backend gives from a token on, to the last one.
  abbrev pub IsListing : Text → List Page → Type 0
  IsListing token [] = ⊥
  IsListing token (p ∷ []) = (answer token ≡ some p) × (next_of p ≡ none)
  IsListing token (p ∷ (q ∷ ps)) =
      (answer token ≡ some p)
      × ((next : Text) × ((next_of p ≡ some next) × IsListing next (q ∷ ps)))

  walk-IsListing :
      (n : ℕ) (token : Text) (pages : List Page) (s : BucketStatsResponse)
      → IsListing token pages
      → s.truncated ≡ false
      → walk answer n token s
        ≡ some (with_objects (contents_of (take n pages)) (ltb n (length pages)) s)
  unfolding walk
  walk-IsListing n token [] s h f = absurd h
  walk-IsListing zero token (p ∷ ps) s h f =
      let more : ltb 0 (suc (length ps)) ≡ true = ground arith in
      rw more (ap some (with_objects-nil true s))
  walk-IsListing (suc n) token (p ∷ []) s (e, k) f =
      let rest = take-nil {A = Page} n in
      let last : ltb (suc n) 1 ≡ false = ground arith in
      rw (e, k, rest, last, append-nil p.contents) (ap some (add_contents_lem p.contents s false f))
  walk-IsListing (suc n) token (p ∷ (q ∷ ps)) s (e, (next, (k, h))) f =
      let counted = add_contents_lem p.contents s false f in
      let later = walk-IsListing n next (q ∷ ps) (with_objects p.contents false s) h refl in
      let same : ltb (suc n) (suc (suc (length ps))) ≡ ltb n (suc (length ps)) = ground arith in
      rw (e, k, counted, same)
        (later
          ∙ ap some (
              with_objects-append p.contents (contents_of (take n (q ∷ ps))) false
                (ltb n (suc (length ps))) s))

  -- For a bucket that the backend lists to its end, the statistics have the number and the total size of the objects on the
  -- first fifty pages, and are marked as truncated exactly when there are more pages.
  pub compute_bucket_stats-IsListing :
      (quotas : List (Text × ℕ)) (bucket : Text) (pages : List Page)
      → IsListing [] pages
      → compute_bucket_stats answer quotas bucket
        ≡ some (record {
          bucket = bucket;
          object_count = length (contents_of (take stats_max_pages pages));
          size_bytes = total (contents_of (take stats_max_pages pages));
          truncated = ltb stats_max_pages (length pages);
          quota_bytes = quota_for quotas bucket;
        })
  unfolding compute_bucket_stats
  compute_bucket_stats-IsListing quotas bucket pages h =
      let sizes = contents_of (take stats_max_pages pages) in
      let count : 0 + length sizes ≡ length sizes = omega arith in
      let size : 0 + total sizes ≡ total sizes = omega arith in
      walk-IsListing stats_max_pages [] pages _ h refl ∙ (λ i. some (record {
        bucket = bucket;
        object_count = count i;
        size_bytes = size i;
        truncated = ltb stats_max_pages (length pages);
        quota_bytes = quota_for quotas bucket;
      }))
