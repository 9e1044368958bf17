-- ===== src/Server/Acl/Groups.antt =====
-- internal/acl/resolver.go: which groups have the form.
use pier_s3_gateway.Prelude.{
  ℕ, zero, suc, ◌↔◌, ◌≢◌, ◌⊎◌, true, false, [], ◌∷◌, ◌++◌, ◌≡◌, refl, sym, ap, ◌∙◌, subst, Option,
  none, some, ◌==◌, ==_iff, arith, Text, codes, text_eq_iff, is_empty, Lacks, Bool-cases, inl, inr,
}
use pier_s3_gateway.Server.Acl.{
  valid_policies, trim_left, behind, split_last, parse_group, checked, is_valid,
}

-- The form of a group, by its parts.
abbrev pub slashes : ℕ → Text
slashes zero = []
slashes (suc n) = b'/' ∷ slashes n

abbrev pub StartsPlain : Text → Type 0
StartsPlain [] = ⊥
StartsPlain (c ∷ s) = c ≢ b'/'

pub record IsGroup (group bucket policy : Text) : Type 0 where
  pub count : ℕ
  pub form : group ≡ slashes count ++ (bucket ++ (b'-' ∷ policy))
  pub starts : StartsPlain bucket
  pub known : is_valid (valid_policies policy) ≡ true

trim_left-slashes : (n : ℕ) (s : Text) → StartsPlain s → trim_left (slashes n ++ s) ≡ s
unfolding trim_left
trim_left-slashes zero [] h = absurd h
trim_left-slashes zero (c ∷ s) h = ground arith
trim_left-slashes (suc n) s h = trim_left-slashes n s h

split_last-none : (s : Text) → Lacks b'-' s → split_last s ≡ none
unfolding split_last
split_last-none [] h = refl
split_last-none (c ∷ s) (h, hs) = rw (split_last-none s hs) (ground arith)

split_last-append :
    (front back : Text) → Lacks b'-' back → split_last (front ++ (b'-' ∷ back)) ≡ some (front, back)
unfolding split_last
split_last-append [] back h = rw (split_last-none back h) refl
split_last-append (c ∷ front) back h = rw (split_last-append front back h) refl

abbrev pub read_only : Text
read_only = codes "ro"

abbrev pub read_write : Text
read_write = codes "rw"

abbrev pub write_only : Text
write_only = codes "wo"

known_cases :
    (policy : Text)
    → is_valid (valid_policies policy) ≡ true
    → (policy ≡ read_only) ⊎ (policy ≡ read_write) ⊎ (policy ≡ write_only)
unfolding valid_policies
known_cases policy h = ground (
  arith,
  text_eq_iff policy read_only,
  text_eq_iff policy read_write,
  text_eq_iff policy write_only,
)

known-Lacks : (policy : Text) → is_valid (valid_policies policy) ≡ true → Lacks b'-' policy
known-Lacks policy h = elim (known_cases policy h) [
  | inl e ↦ subst (Lacks b'-') (sym e) (ground arith)
  | inr (inl e) ↦ subst (Lacks b'-') (sym e) (ground arith)
  | inr (inr e) ↦ subst (Lacks b'-') (sym e) (ground arith)
]

StartsPlain-append : (a b : Text) → StartsPlain a → StartsPlain (a ++ b)
StartsPlain-append [] b h = absurd h
StartsPlain-append (c ∷ a) b h = h

trim_left-form :
    (s : Text)
    → (n : ℕ) × (s ≡ slashes n ++ trim_left s) × ((trim_left s ≡ []) ⊎ StartsPlain (trim_left s))
unfolding trim_left
trim_left-form [] = (0, refl, inl refl)
trim_left-form (c ∷ s) = elim (Bool-cases (c == b'/')) [
  | inl e ↦
      let (n, form, starts) = trim_left-form s in
      rw e (suc n, cc ((==_iff c b'/').0 e, form), starts)
  | inr e ↦ rw e (0, refl, inr (ground arith))
]

some_pair :
    (a b c d : Text)
    → ◌≡◌ {A = Option (Text × Text)} (some (a, b)) (some (c, d))
    → (a ≡ c) × (b ≡ d)
some_pair a b c d h = (cc h, cc h)

split_last-found :
    (c : ℕ) (s front back : Text) (o : Option (Text × Text))
    → ((a b : Text) → o ≡ some (a, b) → s ≡ a ++ (b'-' ∷ b))
    → behind c s o ≡ some (front, back)
    → ◌≡◌ {A = Text} (c ∷ s) (front ++ (b'-' ∷ back))
split_last-found c s front back none e h = elim (Bool-cases (c == b'-')) [
  | inl q ↦ let (p, r) = some_pair [] s front back (rw q at h) in cc ((==_iff c b'-').0 q, p, r)
  | inr q ↦ absurd (cc (rw q at h))
]
split_last-found c s front back (some (a, b)) e h =
    let (p, r) = some_pair (c ∷ a) b front back h in cc (e a b refl, p, r)

split_last-some :
    (s front back : Text) → split_last s ≡ some (front, back) → s ≡ front ++ (b'-' ∷ back)
unfolding split_last
split_last-some [] front back h = cc
split_last-some (c ∷ s) front back h =
    split_last-found c s front back (split_last s) (λ a b e. split_last-some s a b e) h

front-StartsPlain :
    (front back : Text)
    → is_empty front ≡ false
    → StartsPlain (front ++ (b'-' ∷ back))
    → StartsPlain front
front-StartsPlain [] back e h = cc
front-StartsPlain (c ∷ front) back e h = h

checked-some :
    (o : Option (Text × Text)) (bucket policy : Text)
    → checked o ≡ some (bucket, policy)
    → (o ≡ some (bucket, policy))
      × (is_empty bucket ≡ false)
      × (is_valid (valid_policies policy) ≡ true)
checked-some none bucket policy h = cc
checked-some (some (b, p)) bucket policy h = elim (Bool-cases (is_valid (valid_policies p))) [
  | inr e ↦ absurd (cc (rw e at h))
  | inl e ↦ elim (Bool-cases (is_empty b)) [
    | inl f ↦ absurd (cc (rw (e, f) at h))
    | inr f ↦
        let (q, r) = some_pair b p bucket policy (rw (e, f) at h) in
        (rw (e, f) at h, ap is_empty (sym q) ∙ f, ap (λ t. is_valid (valid_policies t)) (sym r) ∙ e)
  ]
]

IsGroup-parse :
    (group bucket policy : Text)
    → IsGroup group bucket policy
    → parse_group group ≡ some (bucket, policy)
unfolding parse_group
IsGroup-parse group bucket policy g =
    let trimmed : trim_left group ≡ bucket ++ (b'-' ∷ policy) =
      ap trim_left g.form
      ∙ trim_left-slashes g.count _ (StartsPlain-append bucket (b'-' ∷ policy) g.starts) in
    ap checked
      (ap split_last trimmed ∙ split_last-append bucket policy (known-Lacks policy g.known))
    ∙ rw (g.known, nonempty bucket g.starts) refl
  where
    nonempty : (b : Text) → StartsPlain b → is_empty b ≡ false
    nonempty [] h = absurd h
    nonempty (c ∷ b) h = refl

parse-IsGroup :
    (group bucket policy : Text)
    → parse_group group ≡ some (bucket, policy)
    → IsGroup group bucket policy
unfolding parse_group
parse-IsGroup group bucket policy h =
    let (e, nonempty, known) = checked-some (split_last (trim_left group)) bucket policy h in
    let trimmed = split_last-some (trim_left group) bucket policy e in
    let (n, form, starts) = trim_left-form group in
    record {
      count = n;
      form = form ∙ ap (λ t. slashes n ++ t) trimmed;
      starts = elim starts [
        | inl none_left ↦ absurd (nil-ne bucket policy (sym none_left ∙ trimmed))
        | inr plain ↦ front-StartsPlain bucket policy nonempty (subst StartsPlain trimmed plain)
      ];
      known = known;
    }
  where
    nil-ne : (a b : Text) → ◌≡◌ {A = Text} [] (a ++ (b'-' ∷ b)) → ⊥
    nil-ne [] b e = cc
    nil-ne (x ∷ a) b e = cc

-- A group has a bucket and a policy exactly when it is any number of slashes, the bucket, a hyphen and one of the three
-- policies, where the bucket is not empty and does not start with a slash. So a bucket may hold hyphens of its
-- own, and no group has two readings.
pub parse_group_iff :
    (group bucket policy : Text)
    → (parse_group group ≡ some (bucket, policy)) ↔ IsGroup group bucket policy
parse_group_iff group bucket policy =
    (parse-IsGroup group bucket policy, IsGroup-parse group bucket policy)
