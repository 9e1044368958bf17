-- ===== src/Tests/Witnesses/ViewCases.antt =====
-- The components and pages under web/src: runs on concrete inputs, and the theorems at them.
use pier_s3_gateway.Prelude.{join, split, true, false, [], ◌∷◌, ◌≡◌, refl, none, some, Text, codes}
use pier_s3_gateway.Store.Browser.{ObjectInfo}
use pier_s3_gateway.Store.Buckets.{BucketInfo, BucketStats}
use pier_s3_gateway.View.Bytes.{format_bytes, amount, IsNearest, format_bytes-IsNearest}
use pier_s3_gateway.View.Crumbs.{parts_of, crumb_path}
use pier_s3_gateway.View.Sider.{
  Number, NumberText, finite, not_finite, whole, down, move, up, mount,
}
use pier_s3_gateway.View.Sider.Drag

one_and_a_half : format_bytes 1536 ≡ amount 1 5 1
unfolding format_bytes
one_and_a_half = refl

-- Rounding can reach the next unit and does not move there.
rounded_up : format_bytes 1048575 ≡ amount 1024 0 1
unfolding format_bytes
rounded_up = refl

format_bytes-IsNearest_example : IsNearest 1536 1 5 1
format_bytes-IsNearest_example = format_bytes-IsNearest 1536 1 5 1 one_and_a_half

-- The link of a folder under an empty segment leads to another folder.
empty_segment : crumb_path (parts_of (codes "a//b/")) 1 ≡ codes "a/b/"
unfolding crumb_path parts_of join split
empty_segment = refl

abbrev bucket_named : Text → BucketInfo
bucket_named name = record {
  name = name;
  permissions = record { read = false; write = true; delete = none };
  object_count = none;
  size_bytes = none;
  stats_truncated = none;
  quota_bytes = none;
}

abbrev b_stats : BucketStats
b_stats = record {
  bucket = codes "b";
  object_count = 3;
  size_bytes = 10;
  truncated = false;
  quota_bytes = none;
}

abbrev object : Text → ObjectInfo
object key = record { key = key; size_bytes = 1; last_modified = []; etag = []; is_prefix = false }

-- Numbers written as one code unit.
abbrev read_number : Text → Number
read_number (n ∷ []) = whole n
read_number _ = not_finite

abbrev one_unit : NumberText
one_unit = record {
  number = read_number;
  string = λ n. n ∷ [];
  string_truthy = λ n. refl;
  number-string = λ n. refl;
}

steps-IsSound_example : Drag.IsSound one_unit (
    Drag.steps one_unit
      (down (whole 240) ∷ move (finite 601 0 1) ∷ up (whole 900) ∷ [])
      (mount one_unit (some (codes "wide"))))
steps-IsSound_example =
    Drag.steps-IsSound one_unit (some (codes "wide"))
      (down (whole 240) ∷ move (finite 601 0 1) ∷ up (whole 900) ∷ [])
