-- ===== src/Tests/ClientRuns.antt =====
-- web/src/api/client.ts on concrete inputs.
use pier_s3_gateway.Prelude.{none, some, [], ◌∷◌, ◌≡◌, refl, codes}
use pier_s3_gateway.Client.Uri.{encode_uri_component}

euro : encode_uri_component (b'a' ∷ b'/' ∷ 0x20ac ∷ []) ≡ some (codes "a%2F%E2%82%AC")
unfolding encode_uri_component
euro = refl

emoji : encode_uri_component (0xd83d ∷ 0xde00 ∷ []) ≡ some (codes "%F0%9F%98%80")
unfolding encode_uri_component
emoji = refl

lone : encode_uri_component (0xd83d ∷ b'a' ∷ []) ≡ none
unfolding encode_uri_component
lone = refl
