-- ===== src/Server/Acl/Access.antt =====
-- internal/acl/resolver.go: `CheckAccess` by what the groups say.
use pier_s3_gateway.Prelude.{
  ◌↔◌, ◌⊎◌, inl, inr, Bool, true, ◌&&◌, ◌||◌, List, [], ◌∷◌, ◌≡◌, refl, sym, ◌∙◌, Option, none,
  some, arith, Text, text_eq_iff, AnyOf, Bool-cases,
}
use pier_s3_gateway.Server.Acl.{
  grants_of, parse_group, method_granted, wildcard_bucket, applies, group_grants, check_access,
}
use pier_s3_gateway.Server.Acl.Groups.{IsGroup, parse_group_iff}

-- A group allows a method on a bucket.
pub record Allows (bucket method group : Text) : Type 0 where
  pub target : Text
  pub policy : Text
  pub form : IsGroup group target policy
  pub reaches : (target ≡ bucket) ⊎ (target ≡ wildcard_bucket)
  pub grants : method_granted (grants_of policy) method ≡ true

group_grants-Allows :
    (group bucket method : Text) (o : Option (Text × Text))
    → parse_group group ≡ o
    → group_grants o bucket method ≡ true
    → Allows bucket method group
group_grants-Allows group bucket method none e h = cc
group_grants-Allows group bucket method (some (target, policy)) e h = record {
  target = target;
  policy = policy;
  form = (parse_group_iff group target policy).0 e;
  reaches = ground (arith, text_eq_iff target bucket, text_eq_iff target wildcard_bucket);
  grants = ground arith;
}

Allows-group_grants :
    (group bucket method : Text)
    → Allows bucket method group
    → group_grants (parse_group group) bucket method ≡ true
Allows-group_grants group bucket method a =
    let e = (parse_group_iff group a.target a.policy).1 a.form in
    let g = a.grants in rw (e, g) (reached a.reaches)
  where
    reached :
        {target : Text}
        → (target ≡ bucket) ⊎ (target ≡ wildcard_bucket)
        → (applies target bucket && true) ≡ true
    reached {target} r =
        ground (arith, r, text_eq_iff target bucket, text_eq_iff target wildcard_bucket)

pub check_access-step :
    (group : Text) (groups : List Text) (bucket method : Text)
    → check_access (group ∷ groups) bucket method
      ≡ (group_grants (parse_group group) bucket method || check_access groups bucket method)
unfolding check_access
check_access-step group groups bucket method =
    elim (Bool-cases (group_grants (parse_group group) bucket method)) [
      | inl e ↦ rw e refl
      | inr e ↦ rw e refl
    ]

pub check_access_iff :
    (groups : List Text) (bucket method : Text)
    → (check_access groups bucket method ≡ true) ↔ AnyOf (Allows bucket method) groups
check_access_iff [] bucket method = unfold check_access in (λ e. cc e, λ a. absurd a)
check_access_iff (group ∷ groups) bucket method =
    let (to, from) = check_access_iff groups bucket method in
    let step = check_access-step group groups bucket method in
    (
      λ e. elim (or_cases _ _ (sym step ∙ e)) [
        | inl h ↦ inl (group_grants-Allows group bucket method (parse_group group) refl h)
        | inr h ↦ inr (to h)
      ],
      λ a. step ∙ elim a [
        | inl h ↦ rw (Allows-group_grants group bucket method h) refl
        | inr h ↦ rw (from h) (ground arith)
      ],
    )
  where
    or_cases : (a b : Bool) → (a || b) ≡ true → (a ≡ true) ⊎ (b ≡ true)
    or_cases a b h = ground arith
