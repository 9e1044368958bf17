-- ===== src/Server/Listing/Agreement.antt =====
-- The permissions that `HandleListBuckets` reports beside those that `CheckAccess` enforces.
use pier_s3_gateway.Prelude.{
  Bool, true, false, ◌&&◌, ◌||◌, List, [], ◌∷◌, ◌≡◌, refl, sym, ap, subst, ◌∙◌, Option, none, some,
  arith, Text, text_eq, any,
}
use pier_s3_gateway.Server.Acl.{
  BucketPermission, PolicyGrants, apply_to, by_name, effective_buckets, wildcard_grant,
  check_access,
}
use pier_s3_gateway.Server.Acl.Buckets.{
  Right, to_read, to_write, to_delete, allows, has, method_of, right_in, IsDistinct,
  right_in-apply_to, apply_to-IsDistinct, right_in-sort_by, sort_by-IsDistinct,
}
use pier_s3_gateway.Server.Acl.Effective.{
  any_names, any_wild, check_access-right, effective_buckets-IsDistinct, right_in-effective_buckets,
  found_right, found_right-wildcard,
}
use pier_s3_gateway.Server.Listing.{
  Listed, rights_of, expand_one, expand, sorted, merged, handle_list_buckets,
}
use pier_s3_gateway.Server.Replies.{ok}

abbrev is_name : Text → Option Text → Bool
is_name k none = false
is_name k (some n) = text_eq n k

-- The backend lists a bucket of this name.
abbrev pub mentions : Text → Option Listed → Bool
mentions k (some (some names)) = any (is_name k) names
mentions k _ = false

right_in-expand_one :
    (r : Right) (k : Text) (b : Option Text) (g : PolicyGrants) (ps : List BucketPermission)
    → right_in r k (expand_one b g ps) ≡ (right_in r k ps || (is_name k b && allows r g))
right_in-expand_one r k none g ps = ground arith
right_in-expand_one r k (some n) g ps = right_in-apply_to r k n g ps

spread : (a b c d : Bool) → ((a || (b && d)) || (c && d)) ≡ (a || ((b || c) && d))
spread a b c d = ground arith

right_in-expand :
    (r : Right) (k : Text) (names : List (Option Text)) (g : PolicyGrants)
    (ps : List BucketPermission)
    → right_in r k (expand names g ps) ≡ (right_in r k ps || (any (is_name k) names && allows r g))
unfolding expand
right_in-expand r k [] g ps = ground arith
right_in-expand r k (b ∷ bs) g ps =
    right_in-expand r k bs g (expand_one b g ps)
    ∙ rw (right_in-expand_one r k b g ps)
        (spread (right_in r k ps) (is_name k b) (any (is_name k) bs) (allows r g))

expand-IsDistinct :
    (names : List (Option Text)) (g : PolicyGrants) (ps : List BucketPermission)
    → IsDistinct ps
    → IsDistinct (expand names g ps)
unfolding expand
expand-IsDistinct [] g ps h = h
expand-IsDistinct (none ∷ bs) g ps h = expand-IsDistinct bs g ps h
expand-IsDistinct (some n ∷ bs) g ps h =
    expand-IsDistinct bs g (apply_to n g ps) (apply_to-IsDistinct n g ps h)

allows-rights_of : (r : Right) (p : BucketPermission) → allows r (rights_of p) ≡ has r p
allows-rights_of to_read p = refl
allows-rights_of to_write p = refl
allows-rights_of to_delete p = refl

-- What a list reports of a bucket and a right.
abbrev Reports : List Text → Option Listed → List BucketPermission → Type 0
Reports groups backend ps =
    IsDistinct ps
    × ((r : Right) (k : Text)
        → right_in r k ps ≡ (any_names r k groups || (mentions k backend && any_wild r groups)))

any_wild-found :
    (r : Right) (groups : List Text) (o : Option BucketPermission)
    → wildcard_grant groups ≡ o
    → any_wild r groups ≡ found_right r o
any_wild-found r groups o e = sym (found_right-wildcard r groups none) ∙ ap (found_right r) e

-- The sorted entries report what the entries do.
sorted-Reports :
    (groups : List Text) (backend : Option Listed) (ps : List BucketPermission)
    → Reports groups backend ps
    → Reports groups backend (sorted ps)
sorted-Reports groups backend ps (d, h) =
    (sort_by-IsDistinct by_name ps d, λ r k. right_in-sort_by by_name r k ps d ∙ h r k)

effective-Reports :
    (groups : List Text) (backend : Option Listed)
    → ((r : Right) (k : Text) → (mentions k backend && any_wild r groups) ≡ false)
    → Reports groups backend (effective_buckets groups)
effective-Reports groups backend h = (
  effective_buckets-IsDistinct groups,
  λ r k. right_in-effective_buckets r k groups ∙ rw (h r k) (ground arith),
)

expand-Reports :
    (groups : List Text) (wild : BucketPermission) (names : List (Option Text))
    → wildcard_grant groups ≡ some wild
    → Reports groups (some (some names)) (expand names (rights_of wild) (effective_buckets groups))
expand-Reports groups wild names e = (
  expand-IsDistinct names (rights_of wild) (effective_buckets groups)
      (effective_buckets-IsDistinct groups),
  λ r k.
      right_in-expand r k names (rights_of wild) (effective_buckets groups)
      ∙ rw
          (
            right_in-effective_buckets r k groups,
            allows-rights_of r wild,
            any_wild-found r groups (some wild) e,
          )
          refl,
)

ok_injective : (xs ys : List BucketPermission) → ok xs ≡ ok ys → xs ≡ ys
ok_injective xs ys h = cc h

merged-Reports :
    (groups : List Text) (wild : Option BucketPermission) (backend : Option Listed)
    (ps : List BucketPermission)
    → wildcard_grant groups ≡ wild
    → merged wild backend (effective_buckets groups) ≡ ok ps
    → Reports groups backend ps
merged-Reports groups none backend ps e h = subst (Reports groups backend) (ok_injective _ ps h) (
    sorted-Reports groups backend (effective_buckets groups) (
      effective-Reports groups backend (λ r k. rw (any_wild-found r groups none e) (ground arith))))
merged-Reports groups (some wild) none ps e h = subst (Reports groups none) (ok_injective _ ps h) (
    sorted-Reports groups none (effective_buckets groups)
      (effective-Reports groups none (λ r k. refl)))
merged-Reports groups (some wild) (some none) ps e h = cc h
merged-Reports groups (some wild) (some (some names)) ps e h =
    subst (Reports groups (some (some names))) (ok_injective _ ps h) (
      sorted-Reports groups (some (some names))
        (expand names (rights_of wild) (effective_buckets groups))
        (expand-Reports groups wild names e))

-- What is reported and what is enforced.
pub record IsHonest (groups : List Text) (backend : Option Listed) (ps : List BucketPermission)
    : Type 0 where
  pub distinct : IsDistinct ps
  pub sound :
      (r : Right) (k : Text) → right_in r k ps ≡ true → check_access groups k (method_of r) ≡ true
  pub complete :
      (r : Right) (k : Text)
      → mentions k backend ≡ true
      → right_in r k ps ≡ check_access groups k (method_of r)

-- Every right that the list of buckets reports is one that the server grants; for a bucket that the storage backend lists
-- the reported rights are exactly those that it grants; and no bucket is listed twice.
pub handle_list_buckets-IsHonest :
    (groups : List Text) (backend : Option Listed) (ps : List BucketPermission)
    → handle_list_buckets groups backend ≡ ok ps
    → IsHonest groups backend ps
unfolding handle_list_buckets
handle_list_buckets-IsHonest groups backend ps h =
    let (d, reports) = merged-Reports groups (wildcard_grant groups) backend ps refl h in
    record {
      distinct = d;
      sound = λ r k e.
          check_access-right r k groups
          ∙ weaker (any_names r k groups) (mentions k backend) (any_wild r groups)
              (sym (reports r k) ∙ e);
      complete = λ r k e. reports r k ∙ rw e refl ∙ sym (check_access-right r k groups);
    }
  where
    weaker : (a b c : Bool) → (a || (b && c)) ≡ true → (a || c) ≡ true
    weaker a b c h = ground arith
