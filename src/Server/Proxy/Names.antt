-- ===== src/Server/Proxy/Names.antt =====
-- internal/proxy/s3handler.go with internal/acl: which buckets the port for S3 clients lists.
use pier_s3_gateway.Prelude.{
  Bool, true, ◌||◌, List, [], ◌∷◌, ◌≡◌, refl, ap, ◌∙◌, arith, Option, none, some, if◌then◌else◌,
  Text, codes, text_eq,
}
use pier_s3_gateway.Server.Acl.{
  BucketPermission, valid_policies, is_valid, grants_of, parse_group, check_access, wild_step,
  wildcard_grant, wildcard_grant_from, effective_step, effective_from, effective_buckets, by_name,
}
use pier_s3_gateway.Server.Acl.Buckets.{
  to_read, to_write, allows, is_listed, is_listed-apply_to, is_listed-sort_by,
}
use pier_s3_gateway.Server.Acl.Effective.{names, wild, any_names, any_wild, check_access-right}
use pier_s3_gateway.Server.Acl.Groups.{parse_group_iff}
use pier_s3_gateway.Server.Proxy.{is_found, in_effect, filtered, serve_buckets}
use pier_s3_gateway.Server.Replies.{ok}

-- A user can read the bucket or write into it.
abbrev pub is_open : List Text → Text → Bool
is_open groups k = check_access groups k (codes "GET") || check_access groups k (codes "PUT")

abbrev only_one : (Text → Bool) → Option Text → List Text → List Text
only_one f none rest = rest
only_one f (some k) rest = if f k then k ∷ rest else rest

abbrev pub only : (Text → Bool) → List (Option Text) → List Text
only f [] = []
only f (b ∷ bs) = only_one f b (only f bs)

valid-grants :
    (policy : Text)
    → is_valid (valid_policies policy) ≡ true
    → (allows to_read (grants_of policy) || allows to_write (grants_of policy)) ≡ true
unfolding valid_policies
valid-grants policy h = ground arith

-- The policy of a group is one of the known ones.
abbrev IsKnown : Option (Text × Text) → Type 0
IsKnown none = Unit
IsKnown (some (bucket, policy)) = is_valid (valid_policies policy) ≡ true

IsKnown-parsed : (g : Text) (o : Option (Text × Text)) → parse_group g ≡ o → IsKnown o
IsKnown-parsed g none e = tt
IsKnown-parsed g (some (bucket, policy)) e =
    let form = (parse_group_iff g bucket policy).0 e in form.known

listed-step :
    (k : Text) (o : Option (Text × Text)) (ps : List BucketPermission)
    → IsKnown o
    → is_listed k (effective_step o ps)
      ≡ (is_listed k ps || (names to_read k o || names to_write k o))
listed-step k none ps h = ground arith
listed-step k (some (bucket, policy)) ps h =
    ground (arith, is_listed-apply_to k bucket (grants_of policy) ps, valid-grants policy h)

found-step :
    (o : Option (Text × Text)) (found : Option BucketPermission)
    → IsKnown o
    → is_found (wild_step o found) ≡ (is_found found || (wild to_read o || wild to_write o))
found-step none found h = ground arith
found-step (some (bucket, policy)) none h = ground (arith, valid-grants policy h)
found-step (some (bucket, policy)) (some p) h = ground (arith, valid-grants policy h)

regroup : (a b c d e : Bool) → ((a || (b || c)) || (d || e)) ≡ (a || ((b || d) || (c || e)))
regroup a b c d e = ground arith

listed-effective_from :
    (k : Text) (groups : List Text) (ps : List BucketPermission)
    → is_listed k (effective_from groups ps)
      ≡ (is_listed k ps || (any_names to_read k groups || any_names to_write k groups))
unfolding effective_from
listed-effective_from k [] ps = ground arith
listed-effective_from k (g ∷ groups) ps =
    listed-effective_from k groups (effective_step (parse_group g) ps)
    ∙ rw (listed-step k (parse_group g) ps (IsKnown-parsed g (parse_group g) refl)) (
        regroup (is_listed k ps) (names to_read k (parse_group g))
          (names to_write k (parse_group g)) (any_names to_read k groups)
          (any_names to_write k groups))

found-wildcard :
    (groups : List Text) (found : Option BucketPermission)
    → is_found (wildcard_grant_from groups found)
      ≡ (is_found found || (any_wild to_read groups || any_wild to_write groups))
unfolding wildcard_grant_from
found-wildcard [] found = ground arith
found-wildcard (g ∷ groups) found =
    found-wildcard groups (wild_step (parse_group g) found)
    ∙ rw (found-step (parse_group g) found (IsKnown-parsed g (parse_group g) refl)) (
        regroup (is_found found) (wild to_read (parse_group g)) (wild to_write (parse_group g))
          (any_wild to_read groups) (any_wild to_write groups))

in_effect-listed : (k : Text) (ps : List BucketPermission) → in_effect k ps ≡ is_listed k ps
in_effect-listed k [] = refl
in_effect-listed k (p ∷ ps) = ap (λ b. text_eq p.name k || b) (in_effect-listed k ps)

shown-is_open :
    (groups : List Text) (k : Text)
    → (is_found (wildcard_grant groups) || in_effect k (effective_buckets groups))
      ≡ is_open groups k
unfolding effective_buckets
shown-is_open groups k =
    let listed =
      in_effect-listed k (effective_buckets groups)
      ∙ is_listed-sort_by by_name k (effective_from groups [])
      ∙ listed-effective_from k groups [] in
    let found = found-wildcard groups none in
    let read = check_access-right to_read k groups in
    let write = check_access-right to_write k groups in
    rw (listed, found, read, write)
      (shuffle (any_wild to_read groups) (any_wild to_write groups) (any_names to_read k groups)
        (any_names to_write k groups))
  where
    shuffle : (a b c d : Bool) → ((a || b) || (c || d)) ≡ ((c || a) || (d || b))
    shuffle a b c d = ground arith

filtered-only :
    (groups : List Text) (bs : List (Option Text))
    → filtered (is_found (wildcard_grant groups)) (effective_buckets groups) bs
      ≡ only (is_open groups) bs
unfolding filtered
filtered-only groups [] = refl
filtered-only groups (none ∷ bs) = filtered-only groups bs
filtered-only groups (some k ∷ bs) = rw (shown-is_open groups k, filtered-only groups bs) refl

-- Of the buckets of the storage backend the port for S3 clients lists exactly those that the user can read or
-- write into, each as often and in the order in which the backend lists them.
pub serve_buckets-only :
    (groups : List Text) (bs : List (Option Text))
    → serve_buckets groups (some (some bs)) ≡ ok (only (is_open groups) bs)
unfolding serve_buckets
serve_buckets-only groups bs = ap ok (filtered-only groups bs)
