-- ===== src/Server/Strings.antt =====
-- What the server uses of the packages strings and strconv. A Go string is the list of its bytes.
use pier_s3_gateway.Prelude.{
  ℕ, ◌+◌, ◌-◌, ◌*◌, ◌^◌, Bool, true, false, ◌&&◌, ◌||◌, [], ◌∷◌, Option, none, some, ◌==◌, leb, ltb,
  if◌then◌else◌, Text, is_empty,
}

-- `strings.Trim` with a cutset of one character.
unfoldable pub trim_start : ℕ → Text → Text
trim_start c [] = []
trim_start c (x ∷ s) = let rest = trim_start c s in if x == c then rest else x ∷ s

unfoldable pub trim_end : ℕ → Text → Text
trim_end c [] = []
trim_end c (x ∷ s) = let rest = trim_end c s in if x == c && is_empty rest then [] else x ∷ rest

abbrev pub trim : ℕ → Text → Text
trim c s = trim_end c (trim_start c s)

-- `strings.HasPrefix`, with the rest of the text.
unfoldable pub after_prefix : Text → Text → Option Text
after_prefix [] s = some s
after_prefix (p ∷ ps) [] = none
after_prefix (p ∷ ps) (x ∷ s) = let rest = after_prefix ps s in if p == x then rest else none

abbrev further : ℕ → Option (Text × Text) → Option (Text × Text)
further x none = none
further x (some (front, back)) = some (x ∷ front, back)

abbrev cut_at : Option Text → Option (Text × Text) → Option (Text × Text)
cut_at none later = later
cut_at (some back) later = some ([], back)

-- `strings.SplitN(s, sep, 2)` for a separator that is not empty, if there are two parts.
unfoldable pub split_once : Text → Text → Option (Text × Text)
unfolding after_prefix
split_once sep [] = none
split_once sep (x ∷ s) = cut_at (after_prefix sep (x ∷ s)) (further x (split_once sep s))

abbrev digit : ℕ → Option ℕ
digit c = if leb b'0' c && leb c b'9' then some (c - b'0') else none

abbrev more_digits : Option ℕ → (ℕ → Option ℕ) → Option ℕ
more_digits none k = none
more_digits (some d) k = k d

unfoldable pub parse_digits : ℕ → Text → Option ℕ
parse_digits n [] = some n
parse_digits n (c ∷ s) = more_digits (digit c) (λ d. parse_digits (10 * n + d) s)

-- A sign and a magnitude.
abbrev in_range : Bool → ℕ → Option ℕ → Option (Bool × ℕ)
in_range negative bound none = none
in_range negative bound (some n) =
    if ltb n bound || (negative && n == bound) then some (negative, n) else none

abbrev magnitude : Text → Option ℕ
unfolding parse_digits
magnitude [] = none
magnitude (c ∷ s) = parse_digits 0 (c ∷ s)

-- `strconv.ParseInt(s, 10, bits)`: whether there is a minus sign, and the magnitude; none for an error.
unfoldable pub parse_int : ℕ → Text → Option (Bool × ℕ)
unfolding parse_digits
parse_int bits [] = none
parse_int bits (c ∷ s) =
    let bound = 2 ^ (bits - 1) in
    if c == b'-'
    then in_range true bound (magnitude s)
    else if c == b'+'
    then in_range false bound (magnitude s)
    else in_range false bound (magnitude (c ∷ s))
