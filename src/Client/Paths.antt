-- ===== src/Client/Paths.antt =====
-- `encodeKey`, `buildObjectPath` and `buildMetaPath` of web/src/api/client.ts. Their result is
-- `none` where `encodeURIComponent` throws.
pub mod Clean
pub mod Routes
pub mod Segments
use pier_s3_gateway.Prelude.{List, [], ◌∷◌, ◌++◌, Option, none, some, Text, codes, split, join}
use mathlib.Core.Option
use pier_s3_gateway.Client.Uri.{encode_uri_component}

infixl 5 ◌>>=◌
abbrev pub ◌>>=◌ : {A B : Type 0} → Option A → (A → Option B) → Option B
none >>= k = none
some a >>= k = k a

unfoldable pub encode_all : List Text → Option (List Text)
encode_all [] = some []
encode_all (s ∷ ss) = do e ← encode_uri_component s; es ← encode_all ss; some (e ∷ es)

unfoldable pub encode_key : Text → Option Text
unfolding encode_all
encode_key key = do parts ← encode_all (split b'/' key); some (join b'/' parts)

unfoldable pub build_object_path : Text → Text → Option Text
unfolding encode_key
build_object_path bucket key = do
  b ← encode_uri_component bucket
  k ← encode_key key
  some (codes "/api/v1/buckets/" ++ (b ++ (codes "/objects/" ++ k)))

unfoldable pub build_meta_path : Text → Text → Option Text
unfolding encode_key
build_meta_path bucket key = do
  b ← encode_uri_component bucket
  k ← encode_key key
  some (codes "/api/v1/buckets/" ++ (b ++ (codes "/meta/" ++ k)))
