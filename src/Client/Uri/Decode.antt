-- ===== src/Client/Uri/Decode.antt =====
-- What percent-encoded UTF-8 stands for: the reading of RFC 3986 and RFC 3629, against which
-- `encodeURIComponent` is checked.
use pier_s3_gateway.Prelude.{
  ℕ, zero, suc, ◌≤◌, false, ◌+◌, ◌-◌, ◌*◌, ◌/◌, ◌%◌, ◌<◌, List, [], ◌∷◌, ◌++◌, ◌≡◌, refl, ap, ◌∙◌,
  arith, ltb, leb, ◌==◌, if◌then◌else◌, Text, All,
}
use pier_s3_gateway.Client.Uri.{utf8, hex_digit, percent}

pub data Digits : Type 0 where
  start first : Digits
  second : ℕ → Digits

abbrev hex_value : ℕ → ℕ
hex_value c = if leb c b'9' then c - b'0' else 10 + (c - b'A')

pub bytes : Digits → Text → List ℕ
bytes d [] = []
bytes start (c ∷ s) =
    let escaped = bytes first s in
    let plain = c ∷ bytes start s in if c == b'%' then escaped else plain
bytes first (c ∷ s) = bytes (second c) s
bytes (second h) (c ∷ s) = (hex_value h * 16 + hex_value c) ∷ bytes start s

-- The code units of a code point.
abbrev pub units : ℕ → Text → Text
units c rest =
    if ltb c 0x10000
    then c ∷ rest
    else (0xd800 + (c - 0x10000) / 0x400) ∷ (0xdc00 + (c - 0x10000) % 0x400) ∷ rest

-- `need` continuation bytes are missing to the code point of which `acc` has been read.
pub read_utf8 : ℕ → ℕ → List ℕ → Text
read_utf8 need acc [] = []
read_utf8 zero acc (b ∷ bs) =
    let one = b ∷ read_utf8 0 0 bs in
    let two = read_utf8 1 (b - 0xc0) bs in
    let three = read_utf8 2 (b - 0xe0) bs in
    let four = read_utf8 3 (b - 0xf0) bs in
    if ltb b 0x80 then one else if ltb b 0xe0 then two else if ltb b 0xf0 then three else four
read_utf8 (suc n) acc (b ∷ bs) =
    let acc' = acc * 0x40 + (b - 0x80) in
    let done = units acc' (read_utf8 0 0 bs) in
    let more = read_utf8 n acc' bs in if n == 0 then done else more

unfoldable pub decode : Text → Text
unfolding bytes read_utf8
decode s = read_utf8 0 0 (bytes start s)

hex_value-hex_digit : (n : ℕ) → n < 16 → hex_value (hex_digit n) ≡ n
unfolding hex_digit
hex_value-hex_digit n h = ground arith

pub bytes-percent :
    (bs : List ℕ) (rest : Text)
    → All (λ b. b < 256) bs
    → bytes start (percent bs rest) ≡ bs ++ bytes start rest
unfolding bytes percent
bytes-percent [] rest h = refl
bytes-percent (b ∷ bs) rest (h, hs) =
    grind
      (arith, bytes-percent bs rest hs, hex_value-hex_digit (b / 16), hex_value-hex_digit (b % 16))

pub bytes-plain :
    (c : ℕ) (rest : Text) → (c == b'%') ≡ false → bytes start (c ∷ rest) ≡ c ∷ bytes start rest
unfolding bytes
bytes-plain c rest h = rw h

pub utf8-lt : (c : ℕ) → c < 0x110000 → All (λ b. b < 256) (utf8 c)
unfolding utf8
utf8-lt c h = ground arith

abbrev cont : ℕ → ℕ
cont x = 0x80 + x % 0x40

module _ (rest : List ℕ) where
  read_one : (c : ℕ) → c < 0x80 → read_utf8 0 0 (c ∷ rest) ≡ c ∷ read_utf8 0 0 rest
  unfolding read_utf8
  read_one c h = ground arith

  read_two :
      (c : ℕ)
      → 0x80 ≤ c
      → c < 0x800
      → read_utf8 0 0 ((0xc0 + c / 0x40) ∷ cont c ∷ rest) ≡ c ∷ read_utf8 0 0 rest
  unfolding read_utf8
  read_two c h k = ground arith

  read_three :
      (c : ℕ)
      → 0x800 ≤ c
      → c < 0x10000
      → read_utf8 0 0 ((0xe0 + c / 0x1000) ∷ cont (c / 0x40) ∷ cont c ∷ rest)
        ≡ c ∷ read_utf8 0 0 rest
  unfolding read_utf8
  read_three c h k = ground arith

  read_four :
      (c : ℕ)
      → 0x10000 ≤ c
      → c < 0x110000
      → read_utf8 0 0 ((0xf0 + c / 0x40000) ∷ cont (c / 0x1000) ∷ cont (c / 0x40) ∷ cont c ∷ rest)
        ≡ units c (read_utf8 0 0 rest)
  unfolding read_utf8
  read_four c h k = ground arith

pub read_utf8-utf8 :
    (c : ℕ) (rest : List ℕ)
    → c < 0x110000
    → read_utf8 0 0 (utf8 c ++ rest) ≡ units c (read_utf8 0 0 rest)
unfolding utf8
read_utf8-utf8 c rest h =
    ground (arith, read_one rest c, read_two rest c, read_three rest c, read_four rest c)

pub decode-percent :
    (c : ℕ) (rest : Text) → c < 0x110000 → decode (percent (utf8 c) rest) ≡ units c (decode rest)
unfolding decode
decode-percent c rest h =
    ap (read_utf8 0 0) (bytes-percent (utf8 c) rest (utf8-lt c h))
    ∙ read_utf8-utf8 c (bytes start rest) h

pub decode-plain :
    (c : ℕ) (rest : Text) → c < 0x80 → (c == b'%') ≡ false → decode (c ∷ rest) ≡ c ∷ decode rest
unfolding decode
decode-plain c rest h k =
    ap (read_utf8 0 0) (bytes-plain c rest k) ∙ read_one (bytes start rest) c h
