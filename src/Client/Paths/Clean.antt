-- ===== src/Client/Paths/Clean.antt =====
-- The clean paths of Go's `ServeMux`, which redirects every other path to the clean one, and the texts of which
-- web/src/api/client.ts makes a clean path.
use pier_s3_gateway.Prelude.{
  Bool, true, false, not, ◌&&◌, ◌||◌, List, [], ◌∷◌, ◌≡◌, refl, sym, ap, ◌∙◌, arith, some, Text,
  codes, map, split, text_eq, text_eq_iff,
}
use pier_s3_gateway.Client.Uri.{encode_uri_component}
use pier_s3_gateway.Client.Uri.Decode.{decode}

-- Whether a segment is empty, and whether it is one or two dots.
abbrev pub Mark : Type 0
Mark = Bool × Bool

unfoldable pub mark : Text → Mark
unfolding text_eq
mark s = (text_eq s [], text_eq s (codes ".") || text_eq s (codes ".."))

-- No segment is one or two dots, and none but the last is empty.
unfoldable pub are_clean : List Mark → Bool
are_clean [] = true
are_clean (m ∷ []) = not m.1
are_clean (m ∷ n ∷ ms) = not m.0 && not m.1 && are_clean (n ∷ ms)

abbrev pub rooted : List Text → Bool
rooted [] = false
rooted (s ∷ ss) = text_eq s [] && are_clean (map mark ss)

-- A clean path begins with a slash.
abbrev pub is_clean : Text → Bool
is_clean path = rooted (split b'/' path)

-- The bucket is not empty and not one or two dots, and no segment of the key is, but that the last may be empty.
abbrev pub is_addressable : Text → Text → Bool
is_addressable bucket key =
    not (mark bucket).0 && not (mark bucket).1 && are_clean (map mark (split b'/' key))

text_eq_iff_same : (a b : Bool) → ((a ≡ true) → (b ≡ true)) → ((b ≡ true) → (a ≡ true)) → a ≡ b
text_eq_iff_same a b f g = ground (arith, f, g)

-- A text that is encoded as itself is the code of no other.
text_eq-encoded :
    (w s e : Text)
    → encode_uri_component w ≡ some w
    → decode w ≡ w
    → encode_uri_component s ≡ some e
    → decode e ≡ s
    → text_eq e w ≡ text_eq s w
text_eq-encoded w s e p d q k =
    text_eq_iff_same (text_eq e w) (text_eq s w)
      (λ h. (text_eq_iff s w).1 (sym k ∙ ap decode ((text_eq_iff e w).0 h) ∙ d))
      (λ h.
        (text_eq_iff e w).1
          (some_injective _ _ (sym q ∙ ap encode_uri_component ((text_eq_iff s w).0 h) ∙ p)))
  where
    some_injective : (a b : Text) → some a ≡ some b → a ≡ b
    some_injective a b h = cc h

fixed :
    ((encode_uri_component [] ≡ some []) × (decode [] ≡ []))
    × ((encode_uri_component (codes ".") ≡ some (codes ".")) × (decode (codes ".") ≡ codes "."))
    × ((encode_uri_component (codes "..") ≡ some (codes "..")) × (decode (codes "..") ≡ codes ".."))
unfolding encode_uri_component decode
fixed = ((refl, refl), (refl, refl), (refl, refl))

pub mark-encoded : (s e : Text) → encode_uri_component s ≡ some e → decode e ≡ s → mark e ≡ mark s
unfolding mark
mark-encoded s e q k =
    let empty = text_eq-encoded [] s e fixed.0.0 fixed.0.1 q k in
    let dot = text_eq-encoded (codes ".") s e fixed.1.0 fixed.1.1 q k in
    let dots = text_eq-encoded (codes "..") s e fixed.2.0 fixed.2.1 q k in
    rw (empty, dot, dots) refl
