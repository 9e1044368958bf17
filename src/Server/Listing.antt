-- ===== src/Server/Listing.antt =====
-- `HandleListBuckets` of internal/webui/api.go. The storage backend is the SDK's: that there is one, and
-- what it answers, are arguments.
pub mod Agreement
use pier_s3_gateway.Prelude.{
  ℕ, Bool, true, false, ◌||◌, List, [], ◌∷◌, Option, none, some, if◌then◌else◌, Text, codes,
  text_eq, sort_by,
}
use pier_s3_gateway.Server.Acl.{
  BucketPermission, PolicyGrants, apply_to, by_name, effective_buckets, wildcard_grant,
  wildcard_grant_from,
}
use pier_s3_gateway.Server.Replies.{Reply, ok, fail, error}

-- What the backend lists: names that may be missing, and none for an error.
abbrev pub Listed : Type 0
Listed = Option (List (Option Text))

abbrev pub rights_of : BucketPermission → PolicyGrants
rights_of p = record { read = p.read; write = p.write; delete = p.delete }

abbrev expand_one : Option Text → PolicyGrants → List BucketPermission → List BucketPermission
expand_one none wild ps = ps
expand_one (some name) wild ps = apply_to name wild ps

-- The loop over the buckets of the backend.
unfoldable pub expand :
    List (Option Text) → PolicyGrants → List BucketPermission → List BucketPermission
unfolding apply_to
expand [] wild ps = ps
expand (b ∷ bs) wild ps = expand bs wild (expand_one b wild ps)

abbrev pub sorted : List BucketPermission → List BucketPermission
sorted ps = sort_by by_name ps

abbrev expanded : Listed → PolicyGrants → List BucketPermission → Reply (List BucketPermission)
expanded none wild ps = error 502 (codes "upstream_error") (codes "failed to list buckets")
expanded (some names) wild ps = ok (sorted (expand names wild ps))

-- None of the first stands for no wildcard group, none of the second for no backend.
abbrev merged :
    Option BucketPermission → Option Listed → List BucketPermission → Reply (List BucketPermission)
merged none backend ps = ok (sorted ps)
merged (some wild) none ps = ok (sorted ps)
merged (some wild) (some listed) ps = expanded listed (rights_of wild) ps

-- `perms` and `order` are one list here, of the entries in the order in which they are made.
unfoldable pub handle_list_buckets : List Text → Option Listed → Reply (List BucketPermission)
unfolding effective_buckets wildcard_grant_from expand sort_by
handle_list_buckets groups backend =
    merged (wildcard_grant groups) backend (effective_buckets groups)
