-- ===== src/Server/Acl/Admin/Blocked.antt =====
-- internal/acl/resolver.go: which requests on the S3 port are blocked whatever the groups.
use pier_s3_gateway.Prelude.{
  ℕ, zero, suc, ◌↔◌, ◌⊎◌, inl, inr, Bool, true, false, ◌&&◌, List, [], ◌∷◌, ◌++◌, ◌≡◌, refl, ap,
  ◌∙◌, arith, Option, none, some, ◌==◌, if◌then◌else◌, Text, any, is_empty, split, split-Lacks,
  split-IsNonempty, cons_head, length, Lacks, Bool-cases, AnyOf, IsNonempty,
}
use pier_s3_gateway.Server.Acl.Groups.{slashes}
use pier_s3_gateway.Server.Acl.Admin.{
  Url, is_sub_resource, is_bucket_level, changes_state, blocks, is_admin_operation,
}
use pier_s3_gateway.Server.Content.{ToLower}
use pier_s3_gateway.Server.Strings.{trim_start, trim_end, trim}

-- A path of one segment at most, with slashes around it.
pub record IsBucketPath (path : Text) : Type 0 where
  pub front : ℕ
  pub name : Text
  pub back : ℕ
  pub form : path ≡ slashes front ++ (name ++ slashes back)
  pub segment : Lacks b'/' name

slashes-suc : (n : ℕ) → slashes n ++ (b'/' ∷ []) ≡ slashes (suc n)
slashes-suc zero = refl
slashes-suc (suc n) = ap (λ s. b'/' ∷ s) (slashes-suc n)

is_empty-nil : (s : Text) → is_empty s ≡ true → s ≡ []
is_empty-nil [] h = refl
is_empty-nil (c ∷ s) h = cc h

trim_start-form : (s : Text) → (n : ℕ) × (s ≡ slashes n ++ trim_start b'/' s)
unfolding trim_start
trim_start-form [] = (0, refl)
trim_start-form (c ∷ s) = elim (Bool-cases (c == b'/')) [
  | inl e ↦
      let (n, h) = trim_start-form s in
      let same : c ≡ b'/' = ground arith in (suc n, rw e (rw same (ap (λ t. b'/' ∷ t) h)))
  | inr e ↦ (0, rw e refl)
]

trim_end-form : (s : Text) → (n : ℕ) × (s ≡ trim_end b'/' s ++ slashes n)
unfolding trim_end
trim_end-form [] = (0, refl)
trim_end-form (c ∷ s) = elim (Bool-cases (c == b'/' && is_empty (trim_end b'/' s))) [
  | inl e ↦
      let (n, h) = trim_end-form s in
      let same : c ≡ b'/' = ground arith in
      let nothing = is_empty-nil (trim_end b'/' s) (ground arith) in
      (suc n, rw e (rw same (ap (λ t. b'/' ∷ t) (h ∙ rw nothing refl))))
  | inr e ↦ let (n, h) = trim_end-form s in (n, rw e (ap (λ t. c ∷ t) h))
]

trim_end-slashes : (n : ℕ) → trim_end b'/' (slashes n) ≡ []
unfolding trim_end
trim_end-slashes zero = refl
trim_end-slashes (suc n) = rw (trim_end-slashes n) (ground arith)

trim_end-append : (s : Text) (n : ℕ) → Lacks b'/' s → trim_end b'/' (s ++ slashes n) ≡ s
unfolding trim_end
trim_end-append [] n h = trim_end-slashes n
trim_end-append (c ∷ s) n (h, hs) = rw (trim_end-append s n hs) (ground arith)

trim_start-append : (n : ℕ) (s : Text) → trim_start b'/' (slashes n ++ s) ≡ trim_start b'/' s
unfolding trim_start
trim_start-append zero s = refl
trim_start-append (suc n) s = trim_start-append n s

trim_start-slashes : (n : ℕ) → trim_start b'/' (slashes n) ≡ []
unfolding trim_start
trim_start-slashes zero = refl
trim_start-slashes (suc n) = trim_start-slashes n

trim-name :
    (front back : ℕ) (name : Text)
    → Lacks b'/' name
    → trim b'/' (slashes front ++ (name ++ slashes back)) ≡ name
unfolding trim_start trim_end
trim-name front back [] h =
    rw (trim_start-append front (slashes back), trim_start-slashes back) refl
trim-name front back (c ∷ s) (h, hs) =
    let other : (c == b'/') ≡ false = ground arith in
    let end = trim_end-append (c ∷ s) back (h, hs) in
    rw (trim_start-append front (c ∷ s ++ slashes back), other) end

parts_cases : (ss : List Text) → IsNonempty ss → (length ss == 0) ≡ false
parts_cases [] h = absurd h
parts_cases (s ∷ ss) h = ground arith

length-cons_head : (c : ℕ) (ss : List Text) → IsNonempty ss → length (cons_head c ss) ≡ length ss
length-cons_head c [] h = absurd h
length-cons_head c (s ∷ ss) h = refl

one_part-Lacks : (s : Text) → (length (split b'/' s) == 1) ≡ true → Lacks b'/' s
unfolding split
one_part-Lacks [] h = tt
one_part-Lacks (c ∷ s) h = elim (Bool-cases (c == b'/')) [
  | inl e ↦
      let more = parts_cases (split b'/' s) (split-IsNonempty b'/' s) in
      absurd (two_parts (length (split b'/' s)) more (rw e at h))
  | inr e ↦
      let same = length-cons_head c (split b'/' s) (split-IsNonempty b'/' s) in
      (ground arith, one_part-Lacks s (rw (e, same) at h))
]
  where
    two_parts : (n : ℕ) → (n == 0) ≡ false → (suc n == 1) ≡ true → ⊥
    two_parts n h k = ground arith

or_root-slashes : (path : Text) → is_bucket_level path ≡ true → IsBucketPath path
unfolding is_bucket_level trim_start trim_end split
or_root-slashes [] h = record { front = 0; name = []; back = 0; form = refl; segment = tt }
or_root-slashes (c ∷ s) h =
    let (front, e) = trim_start-form (c ∷ s) in
    let (back, k) = trim_end-form (trim_start b'/' (c ∷ s)) in
    record {
      front = front;
      name = trim b'/' (c ∷ s);
      back = back;
      form = e ∙ ap (λ t. slashes front ++ t) k;
      segment = one_part-Lacks (trim b'/' (c ∷ s)) h;
    }

IsBucketPath-level : (path : Text) → IsBucketPath path → is_bucket_level path ≡ true
unfolding is_bucket_level
IsBucketPath-level [] b = unfold trim_start trim_end split in refl
IsBucketPath-level (c ∷ s) b =
    let trimmed = ap (trim b'/') b.form ∙ trim-name b.front b.back b.name b.segment in
    rw (trimmed, split-Lacks b'/' b.name b.segment) refl

is_bucket_level_iff : (path : Text) → (is_bucket_level path ≡ true) ↔ IsBucketPath path
is_bucket_level_iff path = (or_root-slashes path, IsBucketPath-level path)

module _ (go : ToLower) (parse : Text → Option Url) where
  open go use {lower}

  -- Why a parsed request is blocked.
  abbrev pub IsBlocked : Text → Option Url → Type 0
  IsBlocked method none = Unit
  IsBlocked method (some u) =
      AnyOf (λ p. is_sub_resource (lower p) ≡ true) u.parameters
      ⊎ (IsBucketPath u.path × (changes_state method ≡ true))

  any_iff : (f : Text → Bool) (ps : List Text) → (any f ps ≡ true) ↔ AnyOf (λ p. f p ≡ true) ps
  any_iff f [] = (λ e. cc e, λ a. absurd a)
  any_iff f (p ∷ ps) =
      let (to, from) = any_iff f ps in
      (
        λ e. elim (Bool-cases (f p)) [ inl h ↦ inl h | inr h ↦ inr (to (rw h at e)) ],
        λ a. elim a [ inl h ↦ rw h refl | inr h ↦ rw (from h) (ground arith) ],
      )

  blocks_iff :
      (method : Text) (o : Option Url) → (blocks go parse method o ≡ true) ↔ IsBlocked method o
  blocks_iff method none = (λ e. tt, λ u. refl)
  blocks_iff method (some u) =
      let (to, from) = any_iff (λ p. is_sub_resource (lower p)) u.parameters in
      let (level, path) = is_bucket_level_iff u.path in
      (
        λ e. elim (Bool-cases (any (λ p. is_sub_resource (lower p)) u.parameters)) [
          | inl h ↦ inl (to h)
          | inr h ↦ let rest = rw h at e in inr (level (first_of _ _ rest), second_of _ _ rest)
        ],
        λ a. elim a [ inl h ↦ rw (from h) refl | inr (b, m) ↦ both _ _ _ (path b) m ],
      )
    where
      first_of : (a b : Bool) → (a && b) ≡ true → a ≡ true
      first_of a b h = ground arith

      second_of : (a b : Bool) → (a && b) ≡ true → b ≡ true
      second_of a b h = ground arith

      both : (a b c : Bool) → b ≡ true → c ≡ true → (if a then true else b && c) ≡ true
      both a b c h k = ground arith

  pub is_admin_operation_iff :
      (method path : Text)
      → (is_admin_operation go parse method path ≡ true) ↔ IsBlocked method (parse path)
  unfolding is_admin_operation
  is_admin_operation_iff method path = blocks_iff method (parse path)
