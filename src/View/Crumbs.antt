-- ===== src/View/Crumbs.antt =====
-- web/src/components/Breadcrumb.tsx: the path behind each part of the prefix.
use pier_s3_gateway.Prelude.{
  ℕ, zero, suc, ◌+◌, Bool, true, false, List, [], ◌∷◌, ◌++◌, ◌≡◌, refl, ap, ◌∙◌, if◌then◌else◌,
  Text, is_empty, take, split, join, Lacks, All, split-append, split-All-Lacks,
}

-- `.filter(Boolean)`
unfoldable pub keep_nonempty : List Text → List Text
keep_nonempty [] = []
keep_nonempty (s ∷ ss) = let rest = keep_nonempty ss in if is_empty s then rest else s ∷ rest

unfoldable pub parts_of : Text → List Text
unfolding keep_nonempty
parts_of prefix = keep_nonempty (split b'/' prefix)

-- The path behind the part at index `i`.
unfoldable pub crumb_path : List Text → ℕ → Text
crumb_path parts i = join b'/' (take (suc i) parts) ++ b'/' ∷ []

pub record Crumb : Type 0 where
  pub title : Text
  pub path : Text
  pub is_last : Bool

abbrev ends : List Text → Bool
ends [] = true
ends (_ ∷ _) = false

unfoldable pub crumbs_from : List Text → ℕ → List Text → List Crumb
unfolding crumb_path
crumbs_from parts i [] = []
crumbs_from parts i (part ∷ rest) =
    record { title = part; path = crumb_path parts i; is_last = ends rest }
    ∷ crumbs_from parts (i + 1) rest

unfoldable pub crumbs : Text → List Crumb
unfolding parts_of crumbs_from
crumbs prefix = crumbs_from (parts_of prefix) 0 (parts_of prefix)

-- A part of a path: not empty, without a slash.
abbrev IsPart : Text → Type 0
IsPart s = (is_empty s ≡ false) × Lacks b'/' s

keep_nonempty-IsPart : (ss : List Text) → All (Lacks b'/') ss → All IsPart (keep_nonempty ss)
unfolding keep_nonempty
keep_nonempty-IsPart [] h = tt
keep_nonempty-IsPart ([] ∷ ss) (h, hs) = keep_nonempty-IsPart ss hs
keep_nonempty-IsPart ((c ∷ s) ∷ ss) (h, hs) = ((refl, h), keep_nonempty-IsPart ss hs)

take-IsPart : (n : ℕ) (ss : List Text) → All IsPart ss → All IsPart (take n ss)
take-IsPart zero ss h = tt
take-IsPart (suc n) [] h = tt
take-IsPart (suc n) (s ∷ ss) (h, hs) = (h, take-IsPart n ss hs)

parts_of-cons : (s t : Text) → IsPart s → parts_of (s ++ b'/' ∷ t) ≡ s ∷ parts_of t
unfolding parts_of keep_nonempty
parts_of-cons s t (n, h) = ap keep_nonempty (split-append b'/' s t h) ∙ rw n refl

append_assoc_slash : (s t : Text) → (s ++ b'/' ∷ t) ++ b'/' ∷ [] ≡ s ++ b'/' ∷ (t ++ b'/' ∷ [])
append_assoc_slash [] t = refl
append_assoc_slash (c ∷ s) t = ap (λ z. c ∷ z) (append_assoc_slash s t)

parts_of-join : (ss : List Text) → All IsPart ss → parts_of (join b'/' ss ++ b'/' ∷ []) ≡ ss
unfolding join split
parts_of-join [] h = unfold parts_of in refl
parts_of-join (s ∷ []) (h, _) = parts_of-cons s [] h ∙ unfold parts_of in refl
parts_of-join (s ∷ t ∷ ss) (h, hs) =
    ap parts_of (append_assoc_slash s (join b'/' (t ∷ ss)))
    ∙ parts_of-cons s _ h
    ∙ ap (λ z. s ∷ z) (parts_of-join (t ∷ ss) hs)

-- The path behind the part at index `i` leads to a prefix whose breadcrumb has exactly the parts up to
-- and including that one, whatever slashes the prefix on screen begins with, ends with or repeats.
pub crumb_path_lem :
    (prefix : Text) (i : ℕ)
    → parts_of (crumb_path (parts_of prefix) i) ≡ take (suc i) (parts_of prefix)
unfolding crumb_path
crumb_path_lem prefix i = parts_of-join (take (suc i) (parts_of prefix)) (
    take-IsPart (suc i) (parts_of prefix)
      (unfold parts_of in keep_nonempty-IsPart (split b'/' prefix) (split-All-Lacks b'/' prefix)))
