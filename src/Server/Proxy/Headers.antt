-- ===== src/Server/Proxy/Headers.antt =====
-- internal/proxy/rewrite.go: which headers reach the storage backend.
use pier_s3_gateway.Prelude.{
  any-append, codes, Bool, true, false, ◌||◌, List, [], ◌∷◌, ◌≡◌, refl, sym, ap, ◌∙◌, Option, none,
  some, any, if◌then◌else◌, arith, Text, text_eq, text_eq_iff, Bool-cases, inl, inr,
}
use mathlib.Core.Bool.{false≢true}
use pier_s3_gateway.Server.Proxy.{
  Header, hop_by_hop_headers, sig_v4_headers, del, del_all, rewrite_headers,
}

-- The values under a name.
unfoldable pub values_of : Text → Header → Option (List Text)
values_of name [] = none
values_of name ((k, values) ∷ header) =
    let rest = values_of name header in if text_eq k name then some values else rest

abbrev pub is_one_of : Text → List Text → Bool
is_one_of name names = any (text_eq name) names

abbrev unless : Bool → Option (List Text) → Option (List Text)
unless b o = if b then none else o

text_eq_trans : (a b c : Text) → text_eq a b ≡ true → text_eq b c ≡ true → text_eq a c ≡ true
text_eq_trans a b c h k = (text_eq_iff a c).1 ((text_eq_iff a b).0 h ∙ (text_eq_iff b c).0 k)

text_eq_flip : (a b : Text) → text_eq a b ≡ true → text_eq b a ≡ true
text_eq_flip a b h = (text_eq_iff b a).1 (sym ((text_eq_iff a b).0 h))

values_of-del :
    (name other : Text) (header : Header)
    → values_of name (del other header) ≡ unless (text_eq name other) (values_of name header)
unfolding values_of del
values_of-del name other [] = ground arith
values_of-del name other ((k, values) ∷ header) = elim (Bool-cases (text_eq k other)) [
  | inl gone ↦ elim (Bool-cases (text_eq k name)) [
    | inl own ↦
        let same = text_eq_trans name k other (text_eq_flip k name own) gone in
        rw (gone, own, values_of-del name other header, same) refl
    | inr off ↦ rw (gone, off) (values_of-del name other header)
  ]
  | inr stays ↦ elim (Bool-cases (text_eq k name)) [
    | inl own ↦
        let differ =
          not_same (text_eq name other)
            (λ e. false≢true (sym stays ∙ text_eq_trans k name other own e)) in
        rw (stays, own, differ) refl
    | inr off ↦ rw (stays, off) (values_of-del name other header)
  ]
]
  where
    not_same : (b : Bool) → (b ≡ true → ⊥) → b ≡ false
    not_same b h = ground arith

unless_or : (a b : Bool) (o : Option (List Text)) → unless b (unless a o) ≡ unless (a || b) o
unless_or true b o = ground arith
unless_or false b o = refl

values_of-del_all :
    (name : Text) (names : List Text) (header : Header)
    → values_of name (del_all names header) ≡ unless (is_one_of name names) (values_of name header)
unfolding del_all
values_of-del_all name [] header = refl
values_of-del_all name (other ∷ names) header =
    values_of-del_all name names (del other header)
    ∙ ap (unless (is_one_of name names)) (values_of-del name other header)
    ∙ unless_or (text_eq name other) (is_one_of name names) (values_of name header)

-- What the storage backend is not told: the user's token, what a client may have signed, and the headers that stand
-- for one connection.
abbrev pub withheld : List Text
withheld =
    codes "Authorization"
    ∷ codes "X-Amz-Date"
    ∷ codes "X-Amz-Content-Sha256"
    ∷ codes "X-Amz-Security-Token"
    ∷ codes "X-Amz-Credential"
    ∷ codes "X-Amz-Signature"
    ∷ codes "X-Amz-Signedheaders"
    ∷ codes "X-Amz-Algorithm"
    ∷ codes "Connection"
    ∷ codes "Keep-Alive"
    ∷ codes "Proxy-Authenticate"
    ∷ codes "Proxy-Authorization"
    ∷ codes "Te"
    ∷ codes "Trailers"
    ∷ codes "Transfer-Encoding"
    ∷ codes "Upgrade"
    ∷ []

withheld-both :
    (name : Text)
    → is_one_of name withheld ≡ (is_one_of name sig_v4_headers || is_one_of name hop_by_hop_headers)
withheld-both name = any-append (text_eq name) sig_v4_headers hop_by_hop_headers

-- The rewritten headers have no value under the sixteen names of the list, the user's Authorization among them, and
-- under every other name the values of the request.
pub values_of-rewrite_headers :
    (name : Text) (header : Header)
    → values_of name (rewrite_headers header)
      ≡ (if is_one_of name withheld then none else values_of name header)
unfolding rewrite_headers
values_of-rewrite_headers name header =
    values_of-del_all name hop_by_hop_headers (del_all sig_v4_headers header)
    ∙ ap (unless (is_one_of name hop_by_hop_headers)) (values_of-del_all name sig_v4_headers header)
    ∙ unless_or (is_one_of name sig_v4_headers) (is_one_of name hop_by_hop_headers)
        (values_of name header)
    ∙ ap (λ b. unless b (values_of name header)) (sym (withheld-both name))
