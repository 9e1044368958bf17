-- ===== src/Client/Paths/Segments.antt =====
-- `encodeKey` of web/src/api/client.ts: the segments of a key, encoded and decoded.
use pier_s3_gateway.Prelude.{
  ℕ, ◌<◌, false, true, List, [], ◌∷◌, ◌≡◌, refl, sym, ap, subst, ◌∙◌, arith, Option, none, some,
  Text, map, split, join, Lacks, Bool-cases, inl, inr, All, All-split, cons_head, split-join,
  split-IsNonempty, IsNonempty, ◌==◌,
}
use mathlib.Core.Bool.{false≢true}
use pier_s3_gateway.Client.Uri.{is_unreserved, is_high}
use pier_s3_gateway.Client.Uri.Decode.{decode}
use pier_s3_gateway.Client.Uri.Percent.{
  IsUtf16, is_well_formed, paired_from, IsComponent, is_uri_char, encode_uri_component_total,
}
use pier_s3_gateway.Client.Paths.Clean.{mark, mark-encoded}
use pier_s3_gateway.Client.Paths.{encode_all, encode_key}

-- What the encoder needs of a text.
abbrev pub IsText : Text → Type 0
IsText t = IsUtf16 t × (is_well_formed t ≡ true)

abbrev PairedParts : Option ℕ → List Text → Type 0
PairedParts p [] = ⊥
PairedParts p (s ∷ ss) = (paired_from p s ≡ true) × All (λ t. paired_from none t ≡ true) ss

cons_head-PairedParts :
    (p q : Option ℕ) (u : ℕ) (ss : List Text)
    → ((s : Text) → paired_from q s ≡ true → paired_from p (u ∷ s) ≡ true)
    → PairedParts q ss
    → PairedParts p (cons_head u ss)
cons_head-PairedParts p q u [] f h = absurd h
cons_head-PairedParts p q u (s ∷ ss) f (h, hs) = (f s h, hs)

PairedParts-All : (ss : List Text) → PairedParts none ss → All (λ t. paired_from none t ≡ true) ss
PairedParts-All [] h = absurd h
PairedParts-All (s ∷ ss) h = h

split-PairedParts :
    (p : Option ℕ) (s : Text) → paired_from p s ≡ true → PairedParts p (split b'/' s)
unfolding split
split-PairedParts none [] h = (refl, tt)
split-PairedParts (some high) [] h = cc
split-PairedParts none (u ∷ s) h = elim (Bool-cases (u == b'/')) [
  | inl slash ↦ rw slash (refl, PairedParts-All _ (split-PairedParts none s (ground arith)))
  | inr other ↦ rw other (elim (Bool-cases (is_high u)) [
    | inl high ↦
        cons_head-PairedParts none (some u) u _ (λ t k. ground arith)
          (split-PairedParts (some u) s (ground arith))
    | inr single ↦
        cons_head-PairedParts none none u _ (λ t k. ground arith)
          (split-PairedParts none s (ground arith))
  ])
]
split-PairedParts (some high) (u ∷ s) h =
    let other : (u == b'/') ≡ false = ground arith in
    rw other (
      cons_head-PairedParts (some high) none u _ (λ t k. ground arith)
        (split-PairedParts none s (ground arith)))

-- Every segment of a text can be encoded.
split-IsText : (s : Text) → IsText s → All IsText (split b'/' s)
split-IsText s (h, w) =
    both _ (All-split (λ u. u < 0x10000) b'/' s h) (PairedParts-All _ (split-PairedParts none s w))
  where
    both : (ss : List Text) → All IsUtf16 ss → All (λ t. is_well_formed t ≡ true) ss → All IsText ss
    both [] h w = tt
    both (s ∷ ss) (h, hs) (w, ws) = ((h, w), both ss hs ws)

encode_all_total :
    (ss : List Text)
    → All IsText ss
    → (es : List Text) × (encode_all ss ≡ some es)
      × (map decode es ≡ ss)
      × All IsComponent es
      × (map mark es ≡ map mark ss)
unfolding encode_all
encode_all_total [] h = ([], refl, refl, tt, refl)
encode_all_total (s ∷ ss) ((h, w), hs) =
    let (e, q, d, k) = encode_uri_component_total s h w in
    let (es, qs, ds, ks, ms) = encode_all_total ss hs in
    let m = mark-encoded s e q d in (e ∷ es, rw q (rw qs), cc (d, ds), (k, ks), cc (m, ms))

pub IsComponent-Lacks : (c : ℕ) (t : Text) → is_uri_char c ≡ false → IsComponent t → Lacks c t
IsComponent-Lacks c [] h k = tt
IsComponent-Lacks c (x ∷ t) h (k, ks) =
    ((λ e. false≢true (sym h ∙ ap is_uri_char (sym e) ∙ k)), IsComponent-Lacks c t h ks)

All-Lacks : (c : ℕ) (ss : List Text) → is_uri_char c ≡ false → All IsComponent ss → All (Lacks c) ss
All-Lacks c [] h k = tt
All-Lacks c (s ∷ ss) h (k, ks) = (IsComponent-Lacks c s h k, All-Lacks c ss h ks)

pub length_kept : (es ss : List Text) → map decode es ≡ ss → IsNonempty ss → IsNonempty es
length_kept [] ss e n = subst IsNonempty (sym e) n
length_kept (x ∷ es) ss e n = tt

pub reserved : (is_uri_char b'/' ≡ false) × (is_uri_char b'?' ≡ false) × (is_uri_char b'#' ≡ false)
unfolding is_unreserved
reserved = (refl, refl, refl)

-- The key is encoded segment by segment: cut at the slashes and decoded, its path gives the key's
-- own segments.
pub encode_key_total :
    (key : Text)
    → IsText key
    → (k : Text) × (es : List Text) × (encode_key key ≡ some k)
      × (split b'/' k ≡ es)
      × (map decode es ≡ split b'/' key)
      × All IsComponent es
      × (map mark es ≡ map mark (split b'/' key))
unfolding encode_key
encode_key_total key h =
    let (es, q, d, c, m) = encode_all_total (split b'/' key) (split-IsText key h) in
    (
      join b'/' es,
      es,
      rw q,
      split-join b'/' es (length_kept es _ d (split-IsNonempty b'/' key))
          (All-Lacks b'/' es reserved.0 c),
      d,
      c,
      m,
    )
