-- ===== src/Server/Acl/Effective.antt =====
-- internal/acl/resolver.go: `EffectiveBuckets` and `WildcardGrant` beside `CheckAccess`.
use pier_s3_gateway.Prelude.{
  Bool, false, not, ◌&&◌, ◌||◌, List, [], ◌∷◌, ◌≡◌, refl, ◌∙◌, Option, none, some, arith, Text,
  text_eq, text_eq_iff, any, Bool-cases, inl, inr,
}
use pier_s3_gateway.Server.Acl.{
  BucketPermission, wildcard_bucket, grants_of, parse_group, group_grants, check_access, wild_step,
  wildcard_grant_from, effective_step, effective_from, effective_buckets, by_name,
}
use pier_s3_gateway.Server.Acl.Access.{check_access-step}
use pier_s3_gateway.Server.Acl.Buckets.{
  Right, to_read, to_write, to_delete, allows, has, has-apply, method_of, method_granted-method_of,
  right_in, IsDistinct, right_in-apply_to, apply_to-IsDistinct, right_in-sort_by,
  sort_by-IsDistinct,
}

-- A group names a bucket and its policy gives the right.
abbrev pub names : Right → Text → Option (Text × Text) → Bool
names r k none = false
names r k (some (bucket, policy)) =
    not (text_eq bucket wildcard_bucket) && (text_eq bucket k && allows r (grants_of policy))

abbrev pub wild : Right → Option (Text × Text) → Bool
wild r none = false
wild r (some (bucket, policy)) = text_eq bucket wildcard_bucket && allows r (grants_of policy)

abbrev pub any_names : Right → Text → List Text → Bool
any_names r k groups = any (λ g. names r k (parse_group g)) groups

abbrev pub any_wild : Right → List Text → Bool
any_wild r groups = any (λ g. wild r (parse_group g)) groups

group_grants-right :
    (r : Right) (k : Text) (o : Option (Text × Text))
    → group_grants o k (method_of r) ≡ (names r k o || wild r o)
group_grants-right r k none = refl
group_grants-right r k (some (bucket, policy)) =
    rw method_granted-method_of
      (ground (arith, text_eq_iff bucket k, text_eq_iff bucket wildcard_bucket))

regroup : (a b c d : Bool) → ((a || b) || (c || d)) ≡ ((a || c) || (b || d))
regroup a b c d = ground arith

-- The methods of the three rights are granted on a bucket exactly by the groups that name it and by the wildcard groups.
pub check_access-right :
    (r : Right) (k : Text) (groups : List Text)
    → check_access groups k (method_of r) ≡ (any_names r k groups || any_wild r groups)
check_access-right r k [] = unfold check_access in refl
check_access-right r k (g ∷ groups) =
    check_access-step g groups k (method_of r)
    ∙ rw (group_grants-right r k (parse_group g), check_access-right r k groups)
        (regroup (names r k (parse_group g)) (wild r (parse_group g)) (any_names r k groups)
          (any_wild r groups))

right_in-step :
    (r : Right) (k : Text) (o : Option (Text × Text)) (ps : List BucketPermission)
    → right_in r k (effective_step o ps) ≡ (right_in r k ps || names r k o)
right_in-step r k none ps = ground arith
right_in-step r k (some (bucket, policy)) ps =
    ground (arith, right_in-apply_to r k bucket (grants_of policy) ps)

or_assoc : (a b c : Bool) → ((a || b) || c) ≡ (a || (b || c))
or_assoc a b c = ground arith

right_in-effective_from :
    (r : Right) (k : Text) (groups : List Text) (ps : List BucketPermission)
    → right_in r k (effective_from groups ps) ≡ (right_in r k ps || any_names r k groups)
unfolding effective_from
right_in-effective_from r k [] ps = ground arith
right_in-effective_from r k (g ∷ groups) ps =
    right_in-effective_from r k groups (effective_step (parse_group g) ps)
    ∙ rw (right_in-step r k (parse_group g) ps)
        (or_assoc (right_in r k ps) (names r k (parse_group g)) (any_names r k groups))

effective_step-IsDistinct :
    (o : Option (Text × Text)) (ps : List BucketPermission)
    → IsDistinct ps
    → IsDistinct (effective_step o ps)
effective_step-IsDistinct none ps h = h
effective_step-IsDistinct (some (bucket, policy)) ps h =
    elim (Bool-cases (text_eq bucket wildcard_bucket)) [
      | inl e ↦ rw e h
      | inr e ↦ rw e (apply_to-IsDistinct bucket (grants_of policy) ps h)
    ]

effective_from-IsDistinct :
    (groups : List Text) (ps : List BucketPermission)
    → IsDistinct ps
    → IsDistinct (effective_from groups ps)
unfolding effective_from
effective_from-IsDistinct [] ps h = h
effective_from-IsDistinct (g ∷ groups) ps h =
    effective_from-IsDistinct groups _ (effective_step-IsDistinct (parse_group g) ps h)

pub effective_buckets-IsDistinct : (groups : List Text) → IsDistinct (effective_buckets groups)
unfolding effective_buckets
effective_buckets-IsDistinct groups =
    sort_by-IsDistinct by_name (effective_from groups []) (effective_from-IsDistinct groups [] tt)

-- The entry of a bucket has the rights that the groups that name the bucket give, and no other.
pub right_in-effective_buckets :
    (r : Right) (k : Text) (groups : List Text)
    → right_in r k (effective_buckets groups) ≡ any_names r k groups
unfolding effective_buckets
right_in-effective_buckets r k groups =
    right_in-sort_by by_name r k (effective_from groups []) (effective_from-IsDistinct groups [] tt)
    ∙ right_in-effective_from r k groups []

abbrev pub found_right : Right → Option BucketPermission → Bool
found_right r none = false
found_right r (some p) = has r p

found_right-step :
    (r : Right) (o : Option (Text × Text)) (found : Option BucketPermission)
    → found_right r (wild_step o found) ≡ (found_right r found || wild r o)
found_right-step r none found = ground arith
found_right-step to_read (some (bucket, policy)) none = ground arith
found_right-step to_write (some (bucket, policy)) none = ground arith
found_right-step to_delete (some (bucket, policy)) none = ground arith
found_right-step r (some (bucket, policy)) (some p) =
    ground (arith, has-apply r (grants_of policy) p)

-- The wildcard grant has the rights that the wildcard groups give.
pub found_right-wildcard :
    (r : Right) (groups : List Text) (found : Option BucketPermission)
    → found_right r (wildcard_grant_from groups found) ≡ (found_right r found || any_wild r groups)
unfolding wildcard_grant_from
found_right-wildcard r [] found = ground arith
found_right-wildcard r (g ∷ groups) found =
    found_right-wildcard r groups (wild_step (parse_group g) found)
    ∙ rw (found_right-step r (parse_group g) found)
        (or_assoc (found_right r found) (wild r (parse_group g)) (any_wild r groups))
