-- ===== src/View/Objects/Deletion.antt =====
-- The deletion of an object, from the row to the listing.
use pier_s3_gateway.Prelude.{
  ◌↔◌, Bool, true, false, List, ◌≡◌, refl, sym, subst, Text, codes, arith, any,
}
use pier_s3_gateway.Client.{Answer, success, failure}
use pier_s3_gateway.Client.Paths.Clean.{is_addressable}
use pier_s3_gateway.Client.Paths.Segments.{IsText}
use pier_s3_gateway.Client.Paths.Routes.{IsRouted, build_object_path-IsRouted}
use pier_s3_gateway.View.Objects.{
  Effect, refresh, show_error, delete_answered, asked, handle_delete,
}

abbrev is_refresh : Effect → Bool
is_refresh refresh = true
is_refresh _ = false

abbrev is_error : Effect → Bool
is_error (show_error _) = true
is_error _ = false

abbrev pub is_success : Answer Text → Bool
is_success (success _) = true
is_success (failure _) = false

-- A deletion asks the server about one path, and does what its answer calls for.
pub record IsDeletion (server : Text → Answer Text) (bucket key path : Text) (effects : List Effect)
    : Type 0 where
  pub routed : IsRouted (codes "objects") bucket key path
  pub refreshes : any is_refresh effects ≡ is_success (server path)
  pub reports : (any is_error effects ≡ true) ↔ (is_success (server path) ≡ false)

answered :
    (fallback : Text) (a : Answer Text)
    → (any is_refresh (delete_answered fallback a) ≡ is_success a)
      × ((any is_error (delete_answered fallback a) ≡ true) ↔ (is_success a ≡ false))
unfolding delete_answered
answered fallback (success t) = (refl, ground arith)
answered fallback (failure err) = (refl, ground arith)

-- For texts of paired surrogates, provided that the bucket and no segment of the key but the last is empty and none is
-- one or two dots, a confirmed deletion asks the server about a path that its router reads as exactly that bucket and key; the listing is fetched again exactly when the server has deleted the object, and an
-- error is shown exactly when it has not.
pub handle_delete-IsDeletion :
    (server : Text → Answer Text) (fallback bucket key : Text)
    → IsText bucket
    → IsText key
    → is_addressable bucket key ≡ true
    → (path : Text) × IsDeletion server bucket key path (handle_delete server fallback bucket key)
unfolding handle_delete
handle_delete-IsDeletion server fallback bucket key hb hk ha =
    let (path, e, r) = build_object_path-IsRouted bucket key hb hk in
    let (refreshes, reports) = answered fallback (server path) in
    (
      path,
      subst (λ o. IsDeletion server bucket key path (delete_answered fallback (asked server o)))
          (sym e) (record { routed = r.1 ha; refreshes = refreshes; reports = reports }),
    )
