-- ===== src/Prelude/Split.antt =====
-- `split` and `join` on a one-character separator.
use Prim.Native.Nat.{ℕ}
use mathlib.Core.Path.{◌≡◌, refl, ap, ◌∙◌}
use mathlib.Core.Logic.{◌≢◌}
use mathlib.Core.Bool.{Bool, true, false}
use mathlib.Core.List.{List, [], ◌∷◌, ◌++◌}
use native.Mathlib.Omega.{arith}
use pier_s3_gateway.Prelude.Tests.{◌==◌, if◌then◌else◌}
use pier_s3_gateway.Prelude.Strings.{Text}
use pier_s3_gateway.Prelude.Lists.{All}

-- The text has no character `c`.
abbrev pub Lacks : ℕ → Text → Type 0
Lacks c = All (λ x. x ≢ c)

abbrev pub cons_head : ℕ → List Text → List Text
cons_head x [] = (x ∷ []) ∷ []
cons_head x (s ∷ ss) = (x ∷ s) ∷ ss

unfoldable pub split : ℕ → Text → List Text
split c [] = [] ∷ []
split c (x ∷ s) = let parts = split c s in if x == c then [] ∷ parts else cons_head x parts

unfoldable pub join : ℕ → List Text → Text
join c [] = []
join c (s ∷ []) = s
join c (s ∷ t ∷ ss) = s ++ (c ∷ join c (t ∷ ss))

abbrev pub IsNonempty : List Text → Type 0
IsNonempty [] = ⊥
IsNonempty (_ ∷ _) = Unit

if-IsNonempty :
    (b : Bool) (x : ℕ) (parts : List Text)
    → IsNonempty (if b then [] ∷ parts else cons_head x parts)
if-IsNonempty true x parts = tt
if-IsNonempty false x [] = tt
if-IsNonempty false x (_ ∷ _) = tt

pub split-IsNonempty : (c : ℕ) (s : Text) → IsNonempty (split c s)
unfolding split
split-IsNonempty c [] = tt
split-IsNonempty c (x ∷ s) = if-IsNonempty (x == c) x (split c s)

pub split-Lacks : (c : ℕ) (s : Text) → Lacks c s → split c s ≡ s ∷ []
unfolding split
split-Lacks c [] h = refl
split-Lacks c (x ∷ s) (h, hs) = rw (split-Lacks c s hs) (ground arith)

pub split-append : (c : ℕ) (s t : Text) → Lacks c s → split c (s ++ (c ∷ t)) ≡ s ∷ split c t
unfolding split
split-append c [] t h = ground arith
split-append c (x ∷ s) t (h, hs) = rw (split-append c s t hs) (ground arith)

pub split-join :
    (c : ℕ) (ss : List Text) → IsNonempty ss → All (Lacks c) ss → split c (join c ss) ≡ ss
unfolding join
split-join c [] n h = absurd n
split-join c (s ∷ []) n (h, _) = split-Lacks c s h
split-join c (s ∷ t ∷ ss) n (h, hs) =
    split-append c s (join c (t ∷ ss)) h ∙ ap (λ z. s ∷ z) (split-join c (t ∷ ss) tt hs)

pub join-cons_head : (c x : ℕ) (ss : List Text) → join c (cons_head x ss) ≡ x ∷ join c ss
unfolding join
join-cons_head c x [] = refl
join-cons_head c x (s ∷ []) = refl
join-cons_head c x (s ∷ t ∷ ss) = refl

pub join-nil_cons : (c : ℕ) (ss : List Text) → IsNonempty ss → join c ([] ∷ ss) ≡ c ∷ join c ss
unfolding join
join-nil_cons c [] n = absurd n
join-nil_cons c (s ∷ ss) n = refl

pub join-split : (c : ℕ) (s : Text) → join c (split c s) ≡ s
unfolding split
join-split c [] = unfold join in refl
join-split c (x ∷ s) = ground (
  arith,
  join-split c s,
  join-cons_head c x (split c s),
  join-nil_cons c (split c s) (split-IsNonempty c s),
)

cons_head-Lacks :
    (c x : ℕ) (ss : List Text) → x ≢ c → All (Lacks c) ss → All (Lacks c) (cons_head x ss)
cons_head-Lacks c x [] p h = ((p, tt), tt)
cons_head-Lacks c x (s ∷ ss) p (h, hs) = ((p, h), hs)

if-Lacks :
    (b : Bool) (c x : ℕ) (ss : List Text)
    → (b ≡ false → x ≢ c)
    → All (Lacks c) ss
    → All (Lacks c) (if b then [] ∷ ss else cons_head x ss)
if-Lacks true c x ss p h = (tt, h)
if-Lacks false c x ss p h = cons_head-Lacks c x ss (p refl) h

-- No part holds the separator.
pub split-All-Lacks : (c : ℕ) (s : Text) → All (Lacks c) (split c s)
unfolding split
split-All-Lacks c [] = (tt, tt)
split-All-Lacks c (x ∷ s) =
    if-Lacks (x == c) c x (split c s) (λ e. ground arith) (split-All-Lacks c s)

if-All :
    (P : ℕ → Type 0) (b : Bool) (x : ℕ) (ss : List Text)
    → P x
    → All (All P) ss
    → All (All P) (if b then [] ∷ ss else cons_head x ss)
if-All P true x ss p h = (tt, h)
if-All P false x [] p h = ((p, tt), tt)
if-All P false x (s ∷ ss) p (h, hs) = ((p, h), hs)

pub All-split : (P : ℕ → Type 0) (c : ℕ) (s : Text) → All P s → All (All P) (split c s)
unfolding split
All-split P c [] h = (tt, tt)
All-split P c (x ∷ s) (p, h) = if-All P (x == c) x (split c s) p (All-split P c s h)
