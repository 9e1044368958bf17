-- ===== src/Server/Acl/Buckets.antt =====
-- internal/acl/resolver.go: the rights of a list of bucket permissions, and those that the groups give.
use pier_s3_gateway.Prelude.{
  Bool, false, ◌&&◌, ◌||◌, List, [], ◌∷◌, ◌≡◌, refl, ap, ◌∙◌, if◌then◌else◌, arith, Text, codes,
  text_eq, text_eq_iff, Ordering, is_gt, sort_by, insert_by, Bool-cases, inl, inr,
}
use pier_s3_gateway.Server.Acl.{BucketPermission, PolicyGrants, method_granted, apply, apply_to}

-- One of the three rights.
pub data Right : Type 0 where
  to_read to_write to_delete : Right

abbrev pub allows : Right → PolicyGrants → Bool
allows to_read g = g.read
allows to_write g = g.write
allows to_delete g = g.delete

abbrev pub has : Right → BucketPermission → Bool
has to_read p = p.read
has to_write p = p.write
has to_delete p = p.delete

abbrev pub method_of : Right → Text
method_of to_read = codes "GET"
method_of to_write = codes "PUT"
method_of to_delete = codes "DELETE"

pub method_granted-method_of :
    (r : Right) (g : PolicyGrants) → method_granted g (method_of r) ≡ allows r g
unfolding method_granted text_eq
method_granted-method_of to_read g = refl
method_granted-method_of to_write g = refl
method_granted-method_of to_delete g = refl

pub has-apply :
    (r : Right) (g : PolicyGrants) (p : BucketPermission)
    → has r (apply g p) ≡ (has r p || allows r g)
has-apply to_read g p = refl
has-apply to_write g p = refl
has-apply to_delete g p = refl

abbrev pub is_listed : Text → List BucketPermission → Bool
is_listed k [] = false
is_listed k (p ∷ ps) = text_eq p.name k || is_listed k ps

-- The right that the first entry of a name has.
abbrev pub right_in : Right → Text → List BucketPermission → Bool
right_in r k [] = false
right_in r k (p ∷ ps) = if text_eq p.name k then has r p else right_in r k ps

abbrev pub IsDistinct : List BucketPermission → Type 0
IsDistinct [] = Unit
IsDistinct (p ∷ ps) = (is_listed p.name ps ≡ false) × IsDistinct ps

right_in-unlisted :
    (r : Right) (k : Text) (ps : List BucketPermission)
    → is_listed k ps ≡ false
    → right_in r k ps ≡ false
right_in-unlisted r k [] h = refl
right_in-unlisted r k (p ∷ ps) h = ground (arith, right_in-unlisted r k ps)

text_eq_comm : (a b : Text) → text_eq a b ≡ text_eq b a
text_eq_comm a b = ground (arith, text_eq_iff a b, text_eq_iff b a)

pub is_listed-apply_to :
    (k n : Text) (g : PolicyGrants) (ps : List BucketPermission)
    → is_listed k (apply_to n g ps) ≡ (text_eq n k || is_listed k ps)
unfolding apply_to
is_listed-apply_to k n g [] = ground arith
is_listed-apply_to k n g (p ∷ ps) = ground (
  arith,
  is_listed-apply_to k n g ps,
  text_eq_iff p.name n,
  text_eq_iff p.name k,
  text_eq_iff n k,
)

pub right_in-apply_to :
    (r : Right) (k n : Text) (g : PolicyGrants) (ps : List BucketPermission)
    → right_in r k (apply_to n g ps) ≡ (right_in r k ps || (text_eq n k && allows r g))
unfolding apply_to
right_in-apply_to to_read k n g [] = ground arith
right_in-apply_to to_write k n g [] = ground arith
right_in-apply_to to_delete k n g [] = ground arith
right_in-apply_to r k n g (p ∷ ps) = ground (
  arith,
  right_in-apply_to r k n g ps,
  has-apply r g p,
  text_eq_iff p.name n,
  text_eq_iff p.name k,
  text_eq_iff n k,
)

pub apply_to-IsDistinct :
    (n : Text) (g : PolicyGrants) (ps : List BucketPermission)
    → IsDistinct ps
    → IsDistinct (apply_to n g ps)
unfolding apply_to
apply_to-IsDistinct n g [] h = (refl, tt)
apply_to-IsDistinct n g (p ∷ ps) (h, hs) = elim (Bool-cases (text_eq p.name n)) [
  | inl e ↦ rw e (h, hs)
  | inr e ↦ rw e (
    is_listed-apply_to p.name n g ps ∙ rw (text_eq_comm n p.name, e, h) refl,
    apply_to-IsDistinct n g ps hs,
  )
]

module _ (order : BucketPermission → BucketPermission → Ordering) where
  is_listed-insert_by :
      (k : Text) (x : BucketPermission) (ys : List BucketPermission)
      → is_listed k (insert_by order x ys) ≡ is_listed k (x ∷ ys)
  unfolding insert_by
  is_listed-insert_by k x [] = refl
  is_listed-insert_by k x (y ∷ ys) = ground (arith, is_listed-insert_by k x ys)

  right_in-insert_by :
      (r : Right) (k : Text) (x : BucketPermission) (ys : List BucketPermission)
      → is_listed x.name ys ≡ false
      → right_in r k (insert_by order x ys) ≡ right_in r k (x ∷ ys)
  unfolding insert_by
  right_in-insert_by r k x [] h = refl
  right_in-insert_by r k x (y ∷ ys) h = ground (
    arith,
    right_in-insert_by r k x ys,
    text_eq_iff x.name k,
    text_eq_iff y.name k,
    text_eq_iff y.name x.name,
  )

  insert_by-IsDistinct :
      (x : BucketPermission) (ys : List BucketPermission)
      → is_listed x.name ys ≡ false
      → IsDistinct ys
      → IsDistinct (insert_by order x ys)
  unfolding insert_by
  insert_by-IsDistinct x [] h d = (refl, tt)
  insert_by-IsDistinct x (y ∷ ys) h (d, ds) = elim (Bool-cases (is_gt (order x y))) [
    | inr e ↦ rw e (h, (d, ds))
    | inl e ↦ rw e (
      is_listed-insert_by y.name x ys ∙ ground (arith, h, d, text_eq_comm x.name y.name),
      insert_by-IsDistinct x ys (ground (arith, h)) ds,
    )
  ]

  pub is_listed-sort_by :
      (k : Text) (xs : List BucketPermission) → is_listed k (sort_by order xs) ≡ is_listed k xs
  unfolding sort_by
  is_listed-sort_by k [] = refl
  is_listed-sort_by k (x ∷ xs) =
      is_listed-insert_by k x (sort_by order xs)
      ∙ ap (λ b. text_eq x.name k || b) (is_listed-sort_by k xs)

  pub sort_by-IsDistinct :
      (xs : List BucketPermission) → IsDistinct xs → IsDistinct (sort_by order xs)
  unfolding sort_by
  sort_by-IsDistinct [] h = tt
  sort_by-IsDistinct (x ∷ xs) (h, hs) =
      insert_by-IsDistinct x (sort_by order xs) (is_listed-sort_by x.name xs ∙ h)
        (sort_by-IsDistinct xs hs)

  -- Sorting entries of distinct names changes no right.
  pub right_in-sort_by :
      (r : Right) (k : Text) (xs : List BucketPermission)
      → IsDistinct xs
      → right_in r k (sort_by order xs) ≡ right_in r k xs
  unfolding sort_by
  right_in-sort_by r k [] h = refl
  right_in-sort_by r k (x ∷ xs) (h, hs) =
      right_in-insert_by r k x (sort_by order xs) (is_listed-sort_by x.name xs ∙ h)
      ∙ ap (λ b. if text_eq x.name k then has r x else b) (right_in-sort_by r k xs hs)
