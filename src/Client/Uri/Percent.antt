-- ===== src/Client/Uri/Percent.antt =====
-- `encodeURIComponent`: when it succeeds, and what its result stands for.
use pier_s3_gateway.Prelude.{
  ℕ, ◌<◌, ◌/◌, ◌%◌, ◌||◌, List, ap, ◌∙◌, Bool, true, false, ◌&&◌, [], ◌∷◌, ◌≡◌, refl, Option, none,
  some, arith, if◌then◌else◌, ◌==◌, Text, All, Bool-cases, inl, inr,
}
use pier_s3_gateway.Client.Uri.{
  encode_from, hex_digit, percent, utf8, code_point, encode_uri_component, is_high, is_low,
  is_unreserved,
}
use pier_s3_gateway.Client.Uri.Decode.{decode, decode-percent, decode-plain, utf8-lt}

-- Each surrogate stands in a pair; the first argument is a high one that waits for its partner.
abbrev pub paired_from : Option ℕ → Text → Bool
paired_from none [] = true
paired_from (some high) [] = false
paired_from (some high) (u ∷ s) = is_low u && paired_from none s
paired_from none (u ∷ s) =
    if is_low u then false else if is_high u then paired_from (some u) s else paired_from none s

abbrev pub is_well_formed : Text → Bool
is_well_formed = paired_from none

abbrev pub IsUtf16 : Text → Type 0
IsUtf16 = All (λ u. u < 0x10000)

-- Unreserved characters and percent signs.
abbrev pub is_uri_char : ℕ → Bool
is_uri_char c = is_unreserved c || c == b'%'

abbrev pub IsComponent : Text → Type 0
IsComponent = All (λ c. is_uri_char c ≡ true)

hex_digit-is_uri_char : (n : ℕ) → n < 16 → is_uri_char (hex_digit n) ≡ true
unfolding hex_digit is_unreserved
hex_digit-is_uri_char n h = ground arith

percent_sign : is_uri_char b'%' ≡ true
unfolding is_unreserved
percent_sign = refl

percent-IsComponent :
    (bs : List ℕ) (rest : Text)
    → All (λ b. b < 256) bs
    → IsComponent rest
    → IsComponent (percent bs rest)
unfolding percent
percent-IsComponent [] rest h r = r
percent-IsComponent (b ∷ bs) rest (h, hs) r = (
  percent_sign,
  (
    hex_digit-is_uri_char (b / 16) (omega arith),
    (hex_digit-is_uri_char (b % 16) (omega arith), percent-IsComponent bs rest hs r),
  ),
)

unreserved-plain : (c : ℕ) → is_unreserved c ≡ true → (c < 0x80) × ((c == b'%') ≡ false)
unfolding is_unreserved
unreserved-plain c h = ground arith

-- The text that is left to write, a waiting surrogate in front.
abbrev pending : Option ℕ → Text → Text
pending none t = t
pending (some u) t = u ∷ t

abbrev IsHigh : Option ℕ → Type 0
IsHigh none = Unit
IsHigh (some u) = is_high u ≡ true

abbrev Encodes : Option ℕ → Text → Text → Type 0
Encodes p t e = (encode_from p t ≡ some e) × (decode e ≡ pending p t) × IsComponent e

decode-nil : decode [] ≡ []
unfolding decode
decode-nil = refl

encode_from_total :
    (p : Option ℕ) (t : Text)
    → IsHigh p
    → IsUtf16 t
    → paired_from p t ≡ true
    → (e : Text) × Encodes p t e
unfolding encode_from
encode_from_total none [] hp h w = ([], (refl, decode-nil, tt))
encode_from_total (some high) [] hp h w = cc
encode_from_total (some high) (u ∷ t) hp (hu, h) w =
    let (e, (q, d, k)) = encode_from_total none t tt h (ground arith) in
    (
      percent (utf8 (code_point high u)) e,
      (
        ground arith,
        decode-percent (code_point high u) e (ground arith) ∙ rw d (ground arith),
        percent-IsComponent _ e (utf8-lt (code_point high u) (ground arith)) k,
      ),
    )
encode_from_total none (u ∷ t) hp (hu, h) w = elim (Bool-cases (is_unreserved u)) [
  | inl plain ↦
      let (lt, ne) = unreserved-plain u plain in
      let (e, (q, d, k)) = encode_from_total none t tt h (ground arith) in
      (u ∷ e, (rw plain (rw q), decode-plain u e lt ne ∙ ap (λ z. u ∷ z) d, (rw plain, k)))
  | inr other ↦ elim (Bool-cases (is_high u)) [
    | inl high ↦
        let (e, (q, d, k)) = encode_from_total (some u) t high h (ground arith) in
        (e, (ground arith, d, k))
    | inr single ↦
        let (e, (q, d, k)) = encode_from_total none t tt h (ground arith) in
        (
          percent (utf8 u) e,
          (
            ground arith,
            decode-percent u e (omega arith) ∙ rw d (ground arith),
            percent-IsComponent (utf8 u) e (utf8-lt u (omega arith)) k,
          ),
        )
  ]
]

-- On a text of code units whose surrogates stand in pairs, `encodeURIComponent` returns a text of
-- unreserved characters and percent signs only, from which decoding gives the text back.
pub encode_uri_component_total :
    (t : Text)
    → IsUtf16 t
    → is_well_formed t ≡ true
    → (e : Text) × (encode_uri_component t ≡ some e) × (decode e ≡ t) × IsComponent e
unfolding encode_uri_component
encode_uri_component_total t h w =
    let (e, (q, d, k)) = encode_from_total none t tt h w in (e, q, d, k)

unreserved-single : (u : ℕ) → is_unreserved u ≡ true → (is_low u ≡ false) × (is_high u ≡ false)
unreserved-single u h = let (lt, _) = unreserved-plain u h in (ground arith, ground arith)

encode_from_fails : (p : Option ℕ) (t : Text) → paired_from p t ≡ false → encode_from p t ≡ none
unfolding encode_from
encode_from_fails none [] w = cc
encode_from_fails (some high) [] w = refl
encode_from_fails (some high) (u ∷ t) w = ground (arith, encode_from_fails none t)
encode_from_fails none (u ∷ t) w =
    ground (arith, unreserved-single u, encode_from_fails none t, encode_from_fails (some u) t)

-- It throws on every other text.
pub encode_uri_component_fails :
    (t : Text) → is_well_formed t ≡ false → encode_uri_component t ≡ none
unfolding encode_uri_component
encode_uri_component_fails t w = encode_from_fails none t w
