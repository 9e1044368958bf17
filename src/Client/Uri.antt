-- ===== src/Client/Uri.antt =====
-- `encodeURIComponent`, as the language defines it: the text's code points in UTF-8, each byte
-- outside the unreserved characters as a percent sign and two hexadecimal digits. It throws on a
-- surrogate that has no partner.
pub mod Decode
pub mod Percent
use pier_s3_gateway.Prelude.{
  ℕ, ◌+◌, ◌-◌, ◌*◌, ◌/◌, ◌%◌, Bool, true, false, ◌&&◌, ◌||◌, List, [], ◌∷◌, ◌++◌, Option, none,
  some, ltb, leb, ◌==◌, if◌then◌else◌, Text,
}
use mathlib.Core.Option

unfoldable pub is_unreserved : ℕ → Bool
is_unreserved c =
    (leb b'A' c && leb c b'Z')
    || (leb b'a' c && leb c b'z')
    || (leb b'0' c && leb c b'9')
    || c == b'-'
    || c == b'_'
    || c == b'.'
    || c == b'!'
    || c == b'~'
    || c == b'*'
    || c == b'\''
    || c == b'('
    || c == b')'

abbrev pub is_high : ℕ → Bool
is_high u = leb 0xd800 u && leb u 0xdbff

abbrev pub is_low : ℕ → Bool
is_low u = leb 0xdc00 u && leb u 0xdfff

-- The code point of a surrogate pair.
abbrev pub code_point : ℕ → ℕ → ℕ
code_point high low = 0x10000 + (high - 0xd800) * 0x400 + (low - 0xdc00)

unfoldable pub utf8 : ℕ → List ℕ
utf8 c =
    if ltb c 0x80
    then c ∷ []
    else if ltb c 0x800
    then (0xc0 + c / 0x40) ∷ (0x80 + c % 0x40) ∷ []
    else if ltb c 0x10000
    then (0xe0 + c / 0x1000) ∷ (0x80 + c / 0x40 % 0x40) ∷ (0x80 + c % 0x40) ∷ []
    else (0xf0 + c / 0x40000)
      ∷ (0x80 + c / 0x1000 % 0x40)
      ∷ (0x80 + c / 0x40 % 0x40)
      ∷ (0x80 + c % 0x40)
      ∷ []

unfoldable pub hex_digit : ℕ → ℕ
hex_digit n = if ltb n 10 then b'0' + n else b'A' + (n - 10)

unfoldable pub percent : List ℕ → Text → Text
percent [] rest = rest
percent (b ∷ bs) rest = b'%' ∷ hex_digit (b / 16) ∷ hex_digit (b % 16) ∷ percent bs rest

-- The first argument is a high surrogate that has been read and waits for its partner.
unfoldable pub encode_from : Option ℕ → Text → Option Text
encode_from none [] = some []
encode_from (some high) [] = none
encode_from (some high) (u ∷ s) =
    let rest = encode_from none s in
    if is_low u then Option.map (percent (utf8 (code_point high u))) rest else none
encode_from none (u ∷ s) =
    let rest = encode_from none s in
    let paired = encode_from (some u) s in
    if is_unreserved u
    then Option.map (u ∷◌) rest
    else if is_low u
    then none
    else if is_high u
    then paired
    else Option.map (percent (utf8 u)) rest

unfoldable pub encode_uri_component : Text → Option Text
unfolding encode_from is_unreserved utf8 hex_digit percent
encode_uri_component = encode_from none
