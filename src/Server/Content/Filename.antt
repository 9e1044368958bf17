-- ===== src/Server/Content/Filename.antt =====
-- internal/webui/content_security.go: the file names that `sanitizeFilename` returns.
use pier_s3_gateway.Prelude.{
  ℕ, ◌≤◌, ◌⊎◌, inl, inr, ◌≢◌, false, ◌&&◌, ◌||◌, List, [], ◌∷◌, ◌≡◌, refl, sym, ◌∙◌, arith, map,
  ◌==◌, Text, codes, text_eq, text_eq_iff, is_empty, strip_slashes, All, Lacks, split-All-Lacks,
  All-split, Bool-cases,
}
use mathlib.Core.Bool.{false≢true}
use pier_s3_gateway.Server.Utf8.{map_runes, trim_space}
use pier_s3_gateway.Server.Utf8.Kept.{map_runes-All, trim_space-All}
use pier_s3_gateway.Server.Content.{
  last_of, base_segment, path_base, first_line, slash_for, is_unsafe, or_download,
  sanitize_filename,
}

-- A byte that ends neither the line nor the quotes: no control character, no quote, no backslash.
abbrev pub IsSafe : ℕ → Type 0
IsSafe c = (0x20 ≤ c) × (c ≢ 0x7f) × (c ≢ 0x22) × (c ≢ 0x5c)

pub record IsFilename (name : Text) : Type 0 where
  pub nonempty : is_empty name ≡ false
  pub own_name : (name ≢ codes ".") × (name ≢ codes "..")
  pub safe : All IsSafe name
  pub segment : (name ≡ codes "/") ⊎ Lacks b'/' name

last_of-All : (P : ℕ → Type 0) (ss : List Text) → All (All P) ss → All P (last_of ss)
last_of-All P [] h = tt
last_of-All P (s ∷ []) (h, _) = h
last_of-All P (s ∷ (t ∷ ss)) (_, h) = last_of-All P (t ∷ ss) h

strip_slashes-All : (P : ℕ → Type 0) (s : Text) → All P s → All P (strip_slashes s)
unfolding strip_slashes
strip_slashes-All P [] h = tt
strip_slashes-All P (c ∷ s) (h, hs) = elim (Bool-cases (c == b'/' && is_empty (strip_slashes s))) [
  | inl e ↦ rw e tt
  | inr e ↦ rw e (h, strip_slashes-All P s hs)
]

-- One segment, or the slash itself.
abbrev IsBase : Text → Type 0
IsBase s = (s ≡ codes "/") ⊎ Lacks b'/' s

base_segment-IsBase : (s : Text) → Lacks b'/' s → IsBase (base_segment s)
base_segment-IsBase [] h = inl refl
base_segment-IsBase (c ∷ s) h = inr h

path_base-IsBase : (s : Text) → IsBase (path_base s)
unfolding path_base
path_base-IsBase [] = inr (ground arith)
path_base-IsBase (c ∷ s) =
    base_segment-IsBase _
      (last_of-All (λ x. x ≢ b'/') _ (split-All-Lacks b'/' (strip_slashes (c ∷ s))))

base_segment-All : (P : ℕ → Type 0) (s : Text) → P b'/' → All P s → All P (base_segment s)
base_segment-All P [] p h = (p, tt)
base_segment-All P (c ∷ s) p h = h

path_base-All : (P : ℕ → Type 0) (s : Text) → P b'/' → P b'.' → All P s → All P (path_base s)
unfolding path_base
path_base-All P [] p q h = (q, tt)
path_base-All P (c ∷ s) p q h =
    base_segment-All P _ p (last_of-All P _ (All-split P b'/' _ (strip_slashes-All P (c ∷ s) h)))

-- No backslash is left of the key.
slashes-Lacks : (s : Text) → Lacks 0x5c (map slash_for s)
slashes-Lacks [] = tt
slashes-Lacks (c ∷ s) = (ground arith, slashes-Lacks s)

high-IsSafe : (c : ℕ) → 128 ≤ c → IsSafe c
high-IsSafe c h = ground arith

kept-IsSafe : (c : ℕ) → is_unsafe c ≡ false → c ≢ 0x5c → IsSafe c
kept-IsSafe c e h = ground arith

-- The text before the fallback.
abbrev cleaned : Text → Text
cleaned key = trim_space (map_runes is_unsafe 0 (path_base (map slash_for (first_line key))))

cleaned-IsSafe : (key : Text) → All IsSafe (cleaned key)
cleaned-IsSafe key = trim_space-All IsSafe _ (
    map_runes-All IsSafe (λ c. c ≢ 0x5c) is_unsafe high-IsSafe kept-IsSafe 0 _
      (path_base-All (λ c. c ≢ 0x5c) _ (ground arith) (ground arith)
        (slashes-Lacks (first_line key)))
      tt)

cleaned-IsBase : (s : Text) → IsBase s → IsBase (trim_space (map_runes is_unsafe 0 s))
unfolding map_runes trim_space
cleaned-IsBase s (inl e) = inl (rw e refl)
cleaned-IsBase s (inr h) = inr (
    trim_space-All (λ c. c ≢ b'/') _
      (map_runes-All (λ c. c ≢ b'/') (λ c. c ≢ b'/') is_unsafe (λ c k. ground arith) (λ c e k. k) 0
        s h tt))

download-IsFilename : IsFilename (codes "download")
download-IsFilename = record {
  nonempty = refl;
  own_name = (ground arith, ground arith);
  safe = ground arith;
  segment = inr (ground arith);
}

other_than : (s t : Text) → text_eq s t ≡ false → s ≢ t
other_than s t e h = false≢true (sym e ∙ (text_eq_iff s t).1 h)

or_download-IsFilename : (s : Text) → All IsSafe s → IsBase s → IsFilename (or_download s)
unfolding text_eq
or_download-IsFilename s h b =
    elim (Bool-cases (is_empty s || (text_eq s (codes ".") || text_eq s (codes "..")))) [
      | inl e ↦ rw e download-IsFilename
      | inr e ↦ rw e (record {
        nonempty = ground arith;
        own_name =
            (other_than s (codes ".") (ground arith), other_than s (codes "..") (ground arith));
        safe = h;
        segment = b;
      })
    ]

-- The name that is sent for an object is never empty, a dot or two dots; no byte of it is a control character, a quote
-- or a backslash; and it has no slash, unless it is just one.
pub sanitize_filename-IsFilename : (key : Text) → IsFilename (sanitize_filename key)
unfolding sanitize_filename
sanitize_filename-IsFilename key =
    or_download-IsFilename (cleaned key) (cleaned-IsSafe key)
      (cleaned-IsBase _ (path_base-IsBase (map slash_for (first_line key))))
