-- ===== src/Server/Utf8.antt =====
-- What the server uses of the packages unicode and strings on UTF-8: the width of a rune, white space and
-- `strings.Map`, on the bytes of a text.
pub mod Kept
use pier_s3_gateway.Prelude.{
  ℕ, zero, suc, ◌+◌, Bool, true, false, ◌&&◌, ◌||◌, List, [], ◌∷◌, ◌++◌, Option, none, some, map,
  ◌==◌, leb, ltb, if◌then◌else◌, Text, length,
}
use pier_s3_gateway.Server.Strings.{after_prefix}

abbrev pub is_continuation : ℕ → Bool
is_continuation c = leb 0x80 c && leb c 0xbf

-- The bytes that a first byte asks for; 0 for one that starts no rune.
abbrev pub rune_length : ℕ → ℕ
rune_length c =
    if ltb c 0x80
    then 1
    else if leb 0xc2 c && leb c 0xdf
    then 2
    else if leb 0xe0 c && leb c 0xef
    then 3
    else if leb 0xf0 c && leb c 0xf4
    then 4
    else 0

-- The range of the second byte leaves out long forms, surrogates and what is beyond the last code point.
abbrev pub is_second : ℕ → ℕ → Bool
is_second c x =
    if c == 0xe0
    then leb 0xa0 x && leb x 0xbf
    else if c == 0xed
    then leb 0x80 x && leb x 0x9f
    else if c == 0xf0
    then leb 0x90 x && leb x 0xbf
    else if c == 0xf4
    then leb 0x80 x && leb x 0x8f
    else is_continuation x

unfoldable pub continues : ℕ → Text → Bool
continues zero s = true
continues (suc n) [] = false
continues (suc n) (x ∷ s) = is_continuation x && continues n s

abbrev tail_width : ℕ → ℕ → Text → ℕ
tail_width n c [] = 0
tail_width n c (x ∷ s) = if is_second c x && continues n s then suc (suc n) else 0

abbrev width_of : ℕ → ℕ → Text → ℕ
width_of zero c s = 0
width_of (suc zero) c s = 1
width_of (suc (suc n)) c s = tail_width n c s

-- The bytes of the rune at the start of a text; 0 where the bytes are not UTF-8.
unfoldable pub rune_width : Text → ℕ
unfolding continues
rune_width [] = 0
rune_width (c ∷ s) = width_of (rune_length c) c s

abbrev replacement : Text → Text
replacement s = 0xef ∷ 0xbf ∷ 0xbd ∷ s

abbrev kept : Bool → ℕ → Text → Text
kept drops c s = if drops then s else c ∷ s

abbrev mapped : (ℕ → Bool) → ℕ → (ℕ → Text) → ℕ → Text
mapped drops c next zero = replacement (next 0)
mapped drops c next (suc n) = kept (drops c) c (next n)

-- `strings.Map` for a mapping that drops some runes of one byte and keeps the others. The first argument
-- counts the bytes left of the rune at hand; bytes that are not UTF-8 become U+FFFD.
unfoldable pub map_runes : (ℕ → Bool) → ℕ → Text → Text
unfolding rune_width
map_runes drops n [] = []
map_runes drops (suc n) (c ∷ s) = c ∷ map_runes drops n s
map_runes drops zero (c ∷ s) = mapped drops c (λ n. map_runes drops n s) (rune_width (c ∷ s))

-- `unicode.IsSpace`: the encodings of its runes.
abbrev pub spaces : List Text
spaces =
    (0x09 ∷ [])
    ∷ (0x0a ∷ [])
    ∷ (0x0b ∷ [])
    ∷ (0x0c ∷ [])
    ∷ (0x0d ∷ [])
    ∷ (0x20 ∷ [])
    ∷ (0xc2 ∷ 0x85 ∷ [])
    ∷ (0xc2 ∷ 0xa0 ∷ [])
    ∷ (0xe1 ∷ 0x9a ∷ 0x80 ∷ [])
    ∷ (0xe2 ∷ 0x80 ∷ 0x80 ∷ [])
    ∷ (0xe2 ∷ 0x80 ∷ 0x81 ∷ [])
    ∷ (0xe2 ∷ 0x80 ∷ 0x82 ∷ [])
    ∷ (0xe2 ∷ 0x80 ∷ 0x83 ∷ [])
    ∷ (0xe2 ∷ 0x80 ∷ 0x84 ∷ [])
    ∷ (0xe2 ∷ 0x80 ∷ 0x85 ∷ [])
    ∷ (0xe2 ∷ 0x80 ∷ 0x86 ∷ [])
    ∷ (0xe2 ∷ 0x80 ∷ 0x87 ∷ [])
    ∷ (0xe2 ∷ 0x80 ∷ 0x88 ∷ [])
    ∷ (0xe2 ∷ 0x80 ∷ 0x89 ∷ [])
    ∷ (0xe2 ∷ 0x80 ∷ 0x8a ∷ [])
    ∷ (0xe2 ∷ 0x80 ∷ 0xa8 ∷ [])
    ∷ (0xe2 ∷ 0x80 ∷ 0xa9 ∷ [])
    ∷ (0xe2 ∷ 0x80 ∷ 0xaf ∷ [])
    ∷ (0xe2 ∷ 0x81 ∷ 0x9f ∷ [])
    ∷ (0xe3 ∷ 0x80 ∷ 0x80 ∷ [])
    ∷ []

abbrev found : Text → Option Text → ℕ → ℕ
found e none later = later
found e (some _) later = length e

-- The bytes of the first entry of the list that the text starts with; 0 for none.
unfoldable pub width_in : List Text → Text → ℕ
unfolding after_prefix
width_in [] s = 0
width_in (e ∷ es) s = found e (after_prefix e s) (width_in es s)

abbrev dropped : Text → (ℕ → Text) → ℕ → Text
dropped s next zero = s
dropped s next (suc n) = next n

unfoldable pub drop_leading : List Text → ℕ → Text → Text
unfolding width_in
drop_leading table n [] = []
drop_leading table (suc n) (c ∷ s) = drop_leading table n s
drop_leading table zero (c ∷ s) =
    dropped (c ∷ s) (λ n. drop_leading table n s) (width_in table (c ∷ s))

unfoldable pub backwards : Text → Text
backwards [] = []
backwards (c ∷ s) = backwards s ++ c ∷ []

-- `strings.TrimSpace`
unfoldable pub trim_space : Text → Text
unfolding drop_leading backwards
trim_space s =
    backwards (drop_leading (map backwards spaces) 0 (backwards (drop_leading spaces 0 s)))
