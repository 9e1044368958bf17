-- ===== src/Client/Paths/Routes.antt =====
-- The paths of web/src/api/client.ts, read as the server's router reads them: cut at the slashes,
-- then each segment decoded, and not at all where the path is not clean.
use pier_s3_gateway.Prelude.{
  ◌↔◌, not, ◌&&◌, false, true, List, [], ◌∷◌, ◌++◌, ◌≡◌, refl, sym, ap, ◌∙◌, arith, some, Text,
  codes, map, split, join, Lacks, All, text_eq, split-append, join-split, split-IsNonempty,
  IsNonempty,
}
use pier_s3_gateway.Client.Uri.{encode_uri_component}
use pier_s3_gateway.Client.Uri.Decode.{decode}
use pier_s3_gateway.Client.Uri.Percent.{IsComponent, encode_uri_component_total}
use pier_s3_gateway.Client.Paths.Clean.{
  Mark, mark, mark-encoded, are_clean, rooted, is_clean, is_addressable,
}
use pier_s3_gateway.Client.Paths.{build_object_path, build_meta_path}
use pier_s3_gateway.Client.Paths.Segments.{
  IsText, encode_key_total, IsComponent-Lacks, length_kept, reserved,
}

-- What the server's router sees of a path: it is clean, so that there is no redirection; and of its segments the
-- fourth is the bucket, the fifth names the route and the others are the key.
pub record IsRouted (route bucket key : Text) (path : Text) : Type 0 where
  pub clean : is_clean path ≡ true
  pub bucket_part : Text
  pub key_parts : List Text
  pub segments :
      split b'/' path
      ≡ [] ∷ codes "api" ∷ codes "v1" ∷ codes "buckets" ∷ bucket_part ∷ route ∷ key_parts
  pub bucket_is : decode bucket_part ≡ bucket
  pub key_is : join b'/' (map decode key_parts) ≡ key
  pub parts_encoded : All IsComponent (bucket_part ∷ key_parts)

split-prefix :
    (b rest : Text) (es : List Text)
    → Lacks b'/' b
    → split b'/' rest ≡ es
    → split b'/' (codes "/api/v1/buckets/" ++ (b ++ (b'/' ∷ rest)))
      ≡ [] ∷ codes "api" ∷ codes "v1" ∷ codes "buckets" ∷ b ∷ es
unfolding split
split-prefix b rest es h e =
    ap (λ (parts : List Text). [] ∷ codes "api" ∷ codes "v1" ∷ codes "buckets" ∷ parts)
      (split-append b'/' b rest h ∙ ap (λ parts. b ∷ parts) e)

-- A route's name is a segment like any other.
abbrev IsRoute : Text → Type 0
IsRoute route = Lacks b'/' route × (mark route ≡ (false, false))

rooted_lem :
    (b route : Text) (es : List Text)
    → mark route ≡ (false, false)
    → IsNonempty es
    → rooted ([] ∷ codes "api" ∷ codes "v1" ∷ codes "buckets" ∷ b ∷ route ∷ es)
      ≡ (not (mark b).0 && not (mark b).1 && are_clean (map mark es))
unfolding are_clean mark text_eq
rooted_lem b route [] r n = absurd n
rooted_lem b route (e ∷ es) r n =
    let free : Mark = (false, false) in
    ap (λ m. are_clean (free ∷ free ∷ free ∷ mark b ∷ m ∷ mark e ∷ map mark es)) r

-- The path that is put together from an encoded bucket and an encoded key.
record IsAssembled (route bucket key path : Text) : Type 0 where
  part : Text
  parts : List Text
  split_is :
      split b'/' path ≡ [] ∷ codes "api" ∷ codes "v1" ∷ codes "buckets" ∷ part ∷ route ∷ parts
  part_is : decode part ≡ bucket
  parts_are : map decode parts ≡ split b'/' key
  encoded : All IsComponent (part ∷ parts)
  clean_is : is_clean path ≡ is_addressable bucket key

from_parts-IsAssembled :
    (route bucket key b k : Text) (es : List Text)
    → IsRoute route
    → encode_uri_component bucket ≡ some b
    → decode b ≡ bucket
    → IsComponent b
    → split b'/' k ≡ es
    → map decode es ≡ split b'/' key
    → All IsComponent es
    → map mark es ≡ map mark (split b'/' key)
    → IsAssembled route bucket key
        (codes "/api/v1/buckets/" ++ (b ++ (b'/' ∷ (route ++ (b'/' ∷ k)))))
from_parts-IsAssembled route bucket key b k es (r, mr) qb db cb sk dk ck mk =
    let cut =
      split-prefix b (route ++ (b'/' ∷ k)) (route ∷ es) (IsComponent-Lacks b'/' b reserved.0 cb)
        (split-append b'/' route k r ∙ ap (λ parts. route ∷ parts) sk) in
    record {
      part = b;
      parts = es;
      split_is = cut;
      part_is = db;
      parts_are = dk;
      encoded = (cb, ck);
      clean_is =
          ap rooted cut
          ∙ rooted_lem b route es mr (length_kept es _ dk (split-IsNonempty b'/' key))
          ∙ ap (λ m. not m.0 && not m.1 && are_clean (map mark es)) (mark-encoded bucket b qb db)
          ∙ ap (λ ms. not (mark bucket).0 && not (mark bucket).1 && are_clean ms) mk;
    }

IsAssembled-IsRouted :
    (route bucket key path : Text)
    → IsAssembled route bucket key path
    → IsRouted route bucket key path ↔ (is_addressable bucket key ≡ true)
IsAssembled-IsRouted route bucket key path p = (
  λ q. sym p.clean_is ∙ q.clean,
  λ h. record {
    clean = p.clean_is ∙ h;
    bucket_part = p.part;
    key_parts = p.parts;
    segments = p.split_is;
    bucket_is = p.part_is;
    key_is = ap (join b'/') p.parts_are ∙ join-split b'/' key;
    parts_encoded = p.encoded;
  },
)

routes : IsRoute (codes "objects") × IsRoute (codes "meta")
unfolding mark text_eq
routes = ((omega arith, refl), (omega arith, refl))

module _ (bucket key : Text) (hb : IsText bucket) (hk : IsText key) where
  -- For texts of paired surrogates `buildObjectPath` returns a path. The router, which redirects a path that is not
  -- clean, reads it as the `objects` route of exactly that bucket and that key, each segment of the two being made
  -- of unreserved characters and percent signs, if and only if the bucket is not empty, one dot or two dots, and no
  -- segment of the key is, except that the last may be empty.
  pub build_object_path-IsRouted :
      (path : Text) × (build_object_path bucket key ≡ some path)
      × (IsRouted (codes "objects") bucket key path ↔ (is_addressable bucket key ≡ true))
  unfolding build_object_path
  build_object_path-IsRouted =
      let (b, qb, db, cb) = encode_uri_component_total bucket hb.0 hb.1 in
      let (k, es, qk, sk, dk, ck, mk) = encode_key_total key hk in
      (
        codes "/api/v1/buckets/" ++ (b ++ (codes "/objects/" ++ k)),
        rw qb (rw qk),
        IsAssembled-IsRouted _ bucket key _ (
            from_parts-IsAssembled (codes "objects") bucket key b k es routes.0 qb db cb sk dk ck
              mk),
      )

  -- The same of `buildMetaPath` and the `meta` route.
  pub build_meta_path-IsRouted :
      (path : Text) × (build_meta_path bucket key ≡ some path)
      × (IsRouted (codes "meta") bucket key path ↔ (is_addressable bucket key ≡ true))
  unfolding build_meta_path
  build_meta_path-IsRouted =
      let (b, qb, db, cb) = encode_uri_component_total bucket hb.0 hb.1 in
      let (k, es, qk, sk, dk, ck, mk) = encode_key_total key hk in
      (
        codes "/api/v1/buckets/" ++ (b ++ (codes "/meta/" ++ k)),
        rw qb (rw qk),
        IsAssembled-IsRouted _ bucket key _
            (from_parts-IsAssembled (codes "meta") bucket key b k es routes.1 qb db cb sk dk ck mk),
      )
