-- ===== src/View/Meta.antt =====
-- web/src/components/ObjectMeta.tsx: the panel of an object's metadata. The date is kept as the text it
-- is made of.
use pier_s3_gateway.Prelude.{
  ℕ, Bool, true, false, ◌≡◌, refl, Option, none, some, if◌then◌else◌, Text, codes, is_empty,
}
use pier_s3_gateway.Client.{Answer, success, failure}
use pier_s3_gateway.Client.Paths.{build_meta_path}
use pier_s3_gateway.Client.Paths.Clean.{is_addressable}
use pier_s3_gateway.Client.Paths.Segments.{IsText}
use pier_s3_gateway.Client.Paths.Routes.{IsRouted, build_meta_path-IsRouted}
use pier_s3_gateway.View.Bytes.{Shown, format_bytes}

pub record MetaData : Type 0 where
  pub key : Text
  pub content_type : Text
  pub content_length : ℕ
  pub etag : Text
  pub last_modified : Text

pub record Panel : Type 0 where
  pub meta : Option MetaData
  pub loading : Bool

abbrev pub mounted : Panel
mounted = record { meta = none; loading = true }

abbrev begun : Option Text → Panel → Option (Option Text × Panel)
begun none p = none
begun (some path) p = some (some path, record p { loading = true })

-- The effect: the path that it asks the server about, if any, and none where the path cannot be
-- encoded and the effect throws.
unfoldable pub run_effect : Bool → Text → Text → Panel → Option (Option Text × Panel)
unfolding build_meta_path
run_effect visible bucket key p =
    if visible then begun (build_meta_path bucket key) p else some (none, p)

-- `then`, `catch` and `finally`.
unfoldable pub meta_answered : Answer MetaData → Panel → Panel
meta_answered (success m) p = record { meta = some m; loading = false }
meta_answered (failure err) p = record { meta = none; loading = false }

pub data Date : Type 0 where
  no_date : Date
  local_date : Text → Date

pub data Body : Type 0 where
  skeleton empty : Body
  details : (key content_type : Text) (size : Shown) (etag : Text) (last_modified : Date) → Body

abbrev pub details_of : MetaData → Body
details_of m =
    details m.key m.content_type (format_bytes m.content_length) m.etag
      (if is_empty m.last_modified then no_date else local_date m.last_modified)

abbrev pub body_of : Option MetaData → Body
body_of none = empty
body_of (some m) = details_of m

unfoldable pub body : Panel → Body
unfolding format_bytes
body p = if p.loading then skeleton else body_of p.meta

-- What an answer has to say.
abbrev pub answered_meta : Answer MetaData → Option MetaData
answered_meta (success m) = some m
answered_meta (failure err) = none

-- The panel asks the server about one path, and its body follows the answer.
pub record IsAnswered (server : Text → Answer MetaData) (bucket key path : Text) (waiting : Panel)
    : Type 0 where
  pub routed : IsRouted (codes "meta") bucket key path
  pub waits : body waiting ≡ skeleton
  pub shows : body (meta_answered (server path) waiting) ≡ body_of (answered_meta (server path))

waits_lem : (p : Panel) → body (record p { loading = true }) ≡ skeleton
unfolding body
waits_lem p = refl

shows_lem : (a : Answer MetaData) (p : Panel) → body (meta_answered a p) ≡ body_of (answered_meta a)
unfolding body meta_answered
shows_lem (success m) p = refl
shows_lem (failure err) p = refl

-- Whatever the panel showed before: shown for texts of paired surrogates, of which the bucket and no segment of the key
-- but the last is empty and none is one or two dots, it asks the server about a path
-- that its router reads as the metadata of exactly that bucket and key, shows the skeleton until the answer is
-- in, and then the details of the answer, or none if the request has failed.
pub run_effect-IsAnswered :
    (server : Text → Answer MetaData) (bucket key : Text) (p : Panel)
    → IsText bucket
    → IsText key
    → is_addressable bucket key ≡ true
    → (path : Text) × (waiting : Panel) × (run_effect true bucket key p ≡ some (some path, waiting))
      × IsAnswered server bucket key path waiting
unfolding run_effect
run_effect-IsAnswered server bucket key p hb hk ha =
    let (path, e, r) = build_meta_path-IsRouted bucket key hb hk in
    let waiting : Panel = record p { loading = true } in
    (
      path,
      waiting,
      rw e refl,
      record { routed = r.1 ha; waits = waits_lem p; shows = shows_lem (server path) waiting },
    )
