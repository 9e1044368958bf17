-- ===== src/Server/Utf8/Kept.antt =====
-- What is left of a text: predicates on bytes that the operations on UTF-8 keep.
use pier_s3_gateway.Prelude.{
  ℕ, zero, suc, ◌≤◌, Bool, true, false, ◌&&◌, List, [], ◌∷◌, ◌≡◌, refl, arith, Text, All,
  All-append, map, Bool-cases, inl, inr,
}
use pier_s3_gateway.Server.Utf8.{
  rune_length, is_second, continues, tail_width, width_of, rune_width, kept, mapped, map_runes,
  spaces, width_in, dropped, drop_leading, backwards, trim_space,
}

module _ (P : ℕ → Type 0) where
  pub backwards-All : (s : Text) → All P s → All P (backwards s)
  unfolding backwards
  backwards-All [] h = tt
  backwards-All (c ∷ s) (h, hs) = All-append P (backwards s) (c ∷ []) (backwards-All s hs) (h, tt)

  dropped-All :
      (s : Text) (next : ℕ → Text) (n : ℕ)
      → All P s
      → ((k : ℕ) → All P (next k))
      → All P (dropped s next n)
  dropped-All s next zero h hs = h
  dropped-All s next (suc n) h hs = hs n

  drop_leading-All :
      (table : List Text) (n : ℕ) (s : Text) → All P s → All P (drop_leading table n s)
  unfolding drop_leading
  drop_leading-All table n [] h = tt
  drop_leading-All table (suc n) (c ∷ s) (h, hs) = drop_leading-All table n s hs
  drop_leading-All table zero (c ∷ s) (h, hs) =
      dropped-All (c ∷ s) (λ n. drop_leading table n s) (width_in table (c ∷ s)) (h, hs)
        (λ k. drop_leading-All table k s hs)

  pub trim_space-All : (s : Text) → All P s → All P (trim_space s)
  unfolding trim_space
  trim_space-All s h = backwards-All _ (
      drop_leading-All (map backwards spaces) 0 _ (backwards-All _ (drop_leading-All spaces 0 s h)))

-- The next bytes are those of a rune of more than one byte.
abbrev High : ℕ → Text → Type 0
High zero s = Unit
High (suc n) [] = ⊥
High (suc n) (x ∷ s) = (128 ≤ x) × High n s

High-continues : (n : ℕ) (s : Text) → continues n s ≡ true → High n s
unfolding continues
High-continues zero s h = tt
High-continues (suc n) [] h = cc
High-continues (suc n) (x ∷ s) h = (ground arith, High-continues n s (ground arith))

second-High : (c x : ℕ) → is_second c x ≡ true → 128 ≤ x
second-High c x h = ground arith

-- A rune of more than one byte has high bytes only.
abbrev IsRune : ℕ → Text → ℕ → Type 0
IsRune c s zero = Unit
IsRune c s (suc zero) = Unit
IsRune c s (suc (suc n)) = (128 ≤ c) × High (suc n) s

tail_width-IsRune : (n c : ℕ) (s : Text) → 128 ≤ c → IsRune c s (tail_width n c s)
tail_width-IsRune n c [] h = tt
tail_width-IsRune n c (x ∷ s) h = elim (Bool-cases (is_second c x && continues n s)) [
  | inl e ↦ rw e (h, (second-High c x (ground arith), High-continues n s (ground arith)))
  | inr e ↦ rw e tt
]

width_of-IsRune : (n c : ℕ) (s : Text) → (2 ≤ n → 128 ≤ c) → IsRune c s (width_of n c s)
width_of-IsRune zero c s h = tt
width_of-IsRune (suc zero) c s h = tt
width_of-IsRune (suc (suc n)) c s h = tail_width-IsRune n c s (h (omega arith))

rune_width-IsRune : (c : ℕ) (s : Text) → IsRune c s (rune_width (c ∷ s))
unfolding rune_width
rune_width-IsRune c s = width_of-IsRune (rune_length c) c s (λ h. ground arith)

module _ (P Q : ℕ → Type 0) (drops : ℕ → Bool) (high : (c : ℕ) → 128 ≤ c → P c)
    (low : (c : ℕ) → drops c ≡ false → Q c → P c) where
  kept-All : (b : Bool) (c : ℕ) (s : Text) → (b ≡ false → P c) → All P s → All P (kept b c s)
  kept-All true c s h hs = hs
  kept-All false c s h hs = (h refl, hs)

  mapped-All :
      (c : ℕ) (s : Text) (next : ℕ → Text) (n : ℕ)
      → Q c
      → IsRune c s n
      → ((k : ℕ) → High k s → All P (next k))
      → All P (mapped drops c next n)
  mapped-All c s next zero q r h =
      (high _ (omega arith), (high _ (omega arith), (high _ (omega arith), h 0 tt)))
  mapped-All c s next (suc zero) q r h = kept-All (drops c) c (next 0) (λ e. low c e q) (h 0 tt)
  mapped-All c s next (suc (suc n)) q (r, rs) h =
      kept-All (drops c) c (next (suc n)) (λ e. high c r) (h (suc n) rs)

  -- `strings.Map` leaves what it may keep of what was there, and high bytes.
  pub map_runes-All : (n : ℕ) (s : Text) → All Q s → High n s → All P (map_runes drops n s)
  unfolding map_runes
  map_runes-All n [] h k = tt
  map_runes-All (suc n) (c ∷ s) (h, hs) (k, ks) = (high c k, map_runes-All n s hs ks)
  map_runes-All zero (c ∷ s) (h, hs) k =
      mapped-All c s (λ n. map_runes drops n s) (rune_width (c ∷ s)) h (rune_width-IsRune c s)
        (λ n. map_runes-All n s hs)
