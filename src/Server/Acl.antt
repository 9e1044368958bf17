-- ===== src/Server/Acl.antt =====
-- internal/acl/resolver.go: what the groups of a user allow. The `url` package, which takes a request
-- line apart, is a parameter.
pub mod Access
pub mod Admin
pub mod Buckets
pub mod Effective
pub mod Groups
use Prim.Native.Nat.{compare}
use pier_s3_gateway.Prelude.{
  ℕ, Bool, true, false, not, ◌&&◌, ◌||◌, List, [], ◌∷◌, ◌++◌, Option, none, some, ◌==◌,
  if◌then◌else◌, Text, codes, text_eq, is_empty, Ordering, sort_by,
}

pub record BucketPermission : Type 0 where
  pub name : Text
  pub read : Bool
  pub write : Bool
  pub delete : Bool

abbrev pub wildcard_bucket : Text
wildcard_bucket = codes "*"

pub record PolicyGrants : Type 0 where
  pub read : Bool
  pub write : Bool
  pub delete : Bool

-- `validPolicies`, undefined for any other text.
unfoldable pub valid_policies : Text → Option PolicyGrants
unfolding text_eq
valid_policies policy =
    if text_eq policy (codes "ro")
    then some (record { read = true; write = false; delete = false })
    else if text_eq policy (codes "rw")
    then some (record { read = true; write = true; delete = true })
    else if text_eq policy (codes "wo")
    then some (record { read = false; write = true; delete = false })
    else none

-- `validPolicies[policy]`, which grants nothing where there is no entry.
abbrev or_nothing : Option PolicyGrants → PolicyGrants
or_nothing none = record { read = false; write = false; delete = false }
or_nothing (some g) = g

abbrev pub grants_of : Text → PolicyGrants
grants_of policy = or_nothing (valid_policies policy)

-- `strings.TrimLeft(group, "/")`
unfoldable pub trim_left : Text → Text
trim_left [] = []
trim_left (c ∷ s) = let rest = trim_left s in if c == b'/' then rest else c ∷ s

abbrev pub behind : ℕ → Text → Option (Text × Text) → Option (Text × Text)
behind c s none = if c == b'-' then some ([], s) else none
behind c s (some (front, back)) = some (c ∷ front, back)

-- Around the last hyphen, if there is one.
unfoldable pub split_last : Text → Option (Text × Text)
split_last [] = none
split_last (c ∷ s) = behind c s (split_last s)

abbrev pub is_valid : Option PolicyGrants → Bool
is_valid none = false
is_valid (some _) = true

abbrev checked : Option (Text × Text) → Option (Text × Text)
checked none = none
checked (some (bucket, policy)) =
    if is_valid (valid_policies policy)
    then if is_empty bucket then none else some (bucket, policy)
    else none

-- The bucket and the policy of a group, if it has the form.
unfoldable pub parse_group : Text → Option (Text × Text)
unfolding trim_left split_last valid_policies
parse_group group = checked (split_last (trim_left group))

-- `methodGranted`
unfoldable pub method_granted : PolicyGrants → Text → Bool
unfolding text_eq
method_granted g method =
    if text_eq method (codes "GET")
      || (text_eq method (codes "HEAD") || text_eq method (codes "OPTIONS"))
    then g.read
    else if text_eq method (codes "PUT") || text_eq method (codes "POST")
    then g.write
    else if text_eq method (codes "DELETE")
    then g.delete
    else false

abbrev pub applies : Text → Text → Bool
applies group_bucket bucket = text_eq group_bucket bucket || text_eq group_bucket wildcard_bucket

abbrev pub group_grants : Option (Text × Text) → Text → Text → Bool
group_grants none bucket method = false
group_grants (some (group_bucket, policy)) bucket method =
    applies group_bucket bucket && method_granted (grants_of policy) method

unfoldable pub check_access : List Text → Text → Text → Bool
unfolding parse_group method_granted
check_access [] bucket method = false
check_access (group ∷ groups) bucket method =
    let rest = check_access groups bucket method in
    if group_grants (parse_group group) bucket method then true else rest

-- `apply`: the union of the rights.
abbrev pub apply : PolicyGrants → BucketPermission → BucketPermission
apply g p = record p {
  read = p.read || g.read;
  write = p.write || g.write;
  delete = p.delete || g.delete;
}

abbrev no_permission : Text → BucketPermission
no_permission name = record { name = name; read = false; write = false; delete = false }

abbrev pub wild_step : Option (Text × Text) → Option BucketPermission → Option BucketPermission
wild_step none found = found
wild_step (some (bucket, policy)) found =
    if text_eq bucket wildcard_bucket
    then some (apply (grants_of policy) (elim found [ none ↦ no_permission [] | some p ↦ p ]))
    else found

-- `WildcardGrant`, with what was found so far; none stands for its second result.
unfoldable pub wildcard_grant_from : List Text → Option BucketPermission → Option BucketPermission
unfolding parse_group
wildcard_grant_from [] found = found
wildcard_grant_from (group ∷ groups) found =
    wildcard_grant_from groups (wild_step (parse_group group) found)

abbrev pub wildcard_grant : List Text → Option BucketPermission
wildcard_grant groups = wildcard_grant_from groups none

abbrev pub no_grants : PolicyGrants
no_grants = record { read = false; write = false; delete = false }

-- The entry of a bucket, made where there is none, with more rights.
unfoldable pub apply_to : Text → PolicyGrants → List BucketPermission → List BucketPermission
unfolding text_eq
apply_to name g [] = apply g (no_permission name) ∷ []
apply_to name g (p ∷ ps) =
    let rest = apply_to name g ps in if text_eq p.name name then apply g p ∷ ps else p ∷ rest

abbrev pub effective_step : Option (Text × Text) → List BucketPermission → List BucketPermission
effective_step none ps = ps
effective_step (some (bucket, policy)) ps =
    if text_eq bucket wildcard_bucket then ps else apply_to bucket (grants_of policy) ps

unfoldable pub effective_from : List Text → List BucketPermission → List BucketPermission
unfolding parse_group apply_to
effective_from [] ps = ps
effective_from (group ∷ groups) ps = effective_from groups (effective_step (parse_group group) ps)

-- `<` on strings, byte by byte.
unfoldable pub text_order : Text → Text → Ordering
text_order [] [] = Ordering.eq
text_order [] (y ∷ b) = Ordering.lt
text_order (x ∷ a) [] = Ordering.gt
text_order (x ∷ a) (y ∷ b) =
    let rest = text_order a b in
    elim (compare x y) [
      | Ordering.lt ↦ Ordering.lt
      | Ordering.eq ↦ rest
      | Ordering.gt ↦ Ordering.gt
    ]

abbrev pub by_name : BucketPermission → BucketPermission → Ordering
by_name p q = text_order p.name q.name

-- `EffectiveBuckets`: the map is kept as its entries, which the sort puts in order.
unfoldable pub effective_buckets : List Text → List BucketPermission
unfolding effective_from sort_by text_order
effective_buckets groups = sort_by by_name (effective_from groups [])
