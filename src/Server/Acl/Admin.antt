-- ===== src/Server/Acl/Admin.antt =====
-- `IsAdminOperation` of internal/acl/resolver.go, which guards the S3 port. `url.Parse` and `strings.ToLower` are
-- parameters.
pub mod Blocked
use pier_s3_gateway.Prelude.{
  ℕ, Bool, true, false, ◌&&◌, ◌||◌, List, [], ◌∷◌, Option, none, some, ◌==◌, if◌then◌else◌, Text,
  codes, text_eq, any, is_empty, split, length,
}
use pier_s3_gateway.Server.Content.{ToLower}
use pier_s3_gateway.Server.Strings.{trim_start, trim_end, trim}

-- What `url.Parse` finds: the path, and the names of the query's parameters.
pub record Url : Type 0 where
  pub path : Text
  pub parameters : List Text

abbrev pub admin_sub_resources : List Text
admin_sub_resources =
    codes "acl"
    ∷ codes "policy"
    ∷ codes "versioning"
    ∷ codes "tagging"
    ∷ codes "lifecycle"
    ∷ codes "cors"
    ∷ codes "website"
    ∷ codes "notification"
    ∷ codes "encryption"
    ∷ codes "replication"
    ∷ codes "logging"
    ∷ codes "requestpayment"
    ∷ codes "accelerate"
    ∷ codes "object-lock"
    ∷ codes "lock"
    ∷ codes "retention"
    ∷ codes "legal-hold"
    ∷ codes "inventory"
    ∷ codes "analytics"
    ∷ codes "metrics"
    ∷ codes "select"
    ∷ codes "restore"
    ∷ codes "torrent"
    ∷ codes "publicaccessblock"
    ∷ codes "ownershipcontrols"
    ∷ codes "intelligent-tiering"
    ∷ codes "uploads"
    ∷ codes "uploadid"
    ∷ codes "partnumber"
    ∷ []

unfoldable pub is_sub_resource : Text → Bool
unfolding text_eq
is_sub_resource name = any (text_eq name) admin_sub_resources

abbrev or_root : Text → Text
or_root path = if is_empty path then codes "/" else path

unfoldable pub is_bucket_level : Text → Bool
unfolding trim_start trim_end split
is_bucket_level path = length (split b'/' (trim b'/' (or_root path))) == 1

unfoldable pub changes_state : Text → Bool
unfolding text_eq
changes_state method =
    text_eq method (codes "PUT")
    || (text_eq method (codes "DELETE") || text_eq method (codes "POST"))

module _ (go : ToLower) (parse : Text → Option Url) where
  open go use {lower}

  abbrev pub blocks : Text → Option Url → Bool
  blocks method none = true
  blocks method (some u) =
      if any (λ p. is_sub_resource (lower p)) u.parameters
      then true
      else is_bucket_level u.path && changes_state method

  unfoldable pub is_admin_operation : (method path : Text) → Bool
  unfolding is_sub_resource is_bucket_level changes_state
  is_admin_operation method path = blocks method (parse path)
