-- ===== src/Tests/Witnesses/ClientCases.antt =====
-- web/src/api/client.ts: the theorems at concrete names and keys.
use pier_s3_gateway.Prelude.{split, ◌↔◌, true, false, [], ◌∷◌, ◌≡◌, refl, some, arith, Text, codes}
use pier_s3_gateway.Client.Paths.{build_object_path}
use pier_s3_gateway.Client.Paths.Clean.{is_addressable, are_clean, mark}
use pier_s3_gateway.Client.Paths.Segments.{IsText}
use pier_s3_gateway.Client.Paths.Routes.{IsRouted, build_object_path-IsRouted}

abbrev smile : Text
smile = b'a' ∷ b' ' ∷ 0x20ac ∷ 0xd83d ∷ 0xde00 ∷ []

smile-IsText : IsText smile
smile-IsText = (ground arith, refl)

bucket_name-IsText : IsText (codes "data")
bucket_name-IsText = (ground arith, refl)

file_key-IsText : IsText (codes "a b/#1.txt")
file_key-IsText = (ground arith, refl)

build_object_path-IsRouted_example :
    (path : Text) × (build_object_path (codes "data") (codes "a b/#1.txt") ≡ some path)
    × (IsRouted (codes "objects") (codes "data") (codes "a b/#1.txt") path
        ↔ (is_addressable (codes "data") (codes "a b/#1.txt") ≡ true))
build_object_path-IsRouted_example =
    build_object_path-IsRouted (codes "data") (codes "a b/#1.txt") bucket_name-IsText
      file_key-IsText

key_addressable : is_addressable (codes "data") (codes "a b/#1.txt") ≡ true
unfolding mark are_clean split
key_addressable = refl

-- Two slashes in a row.
not_addressable : is_addressable (codes "data") (codes "a//b") ≡ false
unfolding mark are_clean split
not_addressable = refl
