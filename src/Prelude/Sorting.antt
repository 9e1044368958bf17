-- ===== src/Prelude/Sorting.antt =====
-- `Array.prototype.sort`: the stable sort by a comparison, by insertion. The language fixes its result
-- for every comparison that is an order.
use Prim.Native.Nat.{Ordering}
use mathlib.Core.Path.{◌≡◌}
use mathlib.Core.Logic.{inl, inr}
use mathlib.Core.Bool.{true, false}
use mathlib.Core.List.{List, [], ◌∷◌, Perm}
use mathlib.Core.List.Perm
use pier_s3_gateway.Prelude.Tests.{if◌then◌else◌, Bool-cases}
use pier_s3_gateway.Prelude.Lists.{All, All-imp}
use pier_s3_gateway.Prelude.Integers.{is_gt}

module _ {A : Type 0} (order : A → A → Ordering) where
  unfoldable pub insert_by : A → List A → List A
  insert_by x [] = x ∷ []
  insert_by x (y ∷ ys) =
      let rest = insert_by x ys in if is_gt (order x y) then y ∷ rest else x ∷ y ∷ ys

  unfoldable pub sort_by : List A → List A
  unfolding insert_by
  sort_by [] = []
  sort_by (x ∷ xs) = insert_by x (sort_by xs)

  insert_by-perm : (x : A) (ys : List A) → Perm (insert_by x ys) (x ∷ ys)
  unfolding insert_by
  insert_by-perm x [] = Perm.rfl
  insert_by-perm x (y ∷ ys) = elim (Bool-cases (is_gt (order x y))) [
    | inl h ↦ rw h (Perm.trans (Perm.cons y (insert_by-perm x ys)) (Perm.swap x y ys))
    | inr h ↦ rw h Perm.rfl
  ]

  -- The sorted list is a rearrangement.
  pub sort_by-perm : (xs : List A) → Perm (sort_by xs) xs
  unfolding sort_by
  sort_by-perm [] = Perm.rfl
  sort_by-perm (x ∷ xs) = Perm.trans (insert_by-perm x (sort_by xs)) (Perm.cons x (sort_by-perm xs))

  abbrev pub NotAfter : A → A → Type 0
  NotAfter a b = is_gt (order a b) ≡ false

  abbrev pub IsOrdered : List A → Type 0
  IsOrdered [] = Unit
  IsOrdered (x ∷ xs) = All (NotAfter x) xs × IsOrdered xs

  -- What a comparison must be for its sort to be ordered.
  pub record IsOrder : Type 0 where
    pub total : (a b : A) → is_gt (order a b) ≡ true → NotAfter b a
    pub trans : (a b c : A) → NotAfter a b → NotAfter b c → NotAfter a c

  All-insert_by : (P : A → Type 0) (x : A) (ys : List A) → P x → All P ys → All P (insert_by x ys)
  unfolding insert_by
  All-insert_by P x [] h hs = (h, hs)
  All-insert_by P x (y ∷ ys) h (k, ks) = elim (Bool-cases (is_gt (order x y))) [
    | inl e ↦ rw e (k, All-insert_by P x ys h ks)
    | inr e ↦ rw e (h, (k, ks))
  ]

  insert_by-IsOrdered : IsOrder → (x : A) (ys : List A) → IsOrdered ys → IsOrdered (insert_by x ys)
  unfolding insert_by
  insert_by-IsOrdered o x [] s = (tt, tt)
  insert_by-IsOrdered o x (y ∷ ys) (h, s) = elim (Bool-cases (is_gt (order x y))) [
    | inl e ↦ rw e (All-insert_by (NotAfter y) x ys (o.total x y e) h, insert_by-IsOrdered o x ys s)
    | inr e ↦ rw e ((e, All-imp (λ c k. o.trans x y c e k) ys h), (h, s))
  ]

  pub sort_by-IsOrdered : IsOrder → (xs : List A) → IsOrdered (sort_by xs)
  unfolding sort_by
  sort_by-IsOrdered o [] = tt
  sort_by-IsOrdered o (x ∷ xs) = insert_by-IsOrdered o x (sort_by xs) (sort_by-IsOrdered o xs)
