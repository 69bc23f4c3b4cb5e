-- ===== src/Jwt/Parts.antt =====
-- A signed token, read back: it splits at its dots into the three parts that were put together.
use mathlib.Core.List.{append_assoc, append-nil}
use learning_center_referenc.Prelude.{
  is_space, IsSolid, IsWord, false, ◌≢◌, ℕ, ◌≡◌, refl, some, List, [], ◌∷◌, ◌++◌, arith, ◌==◌,
  if◌then◌else◌, Text, All, Option-cases, inl, inr,
}
use learning_center_referenc.Jwt.Base64.{
  encode, decode, decode-encode, IsByte, Undotted, encode-Undotted, encode-IsSolid,
}
use learning_center_referenc.Jwt.Json.{Object, marshal, utf8}
use learning_center_referenc.Jwt.{Crypto, header, encoded, unsigned, sign}

-- strings.Split(s, "."), the part read so far first.
unfoldable pub split_from : Text → Text → List Text
split_from part [] = part ∷ []
split_from part (c ∷ s) =
    let next = split_from [] s in
    let more = split_from (part ++ c ∷ []) s in if c == b'.' then part ∷ next else more

unfoldable pub split : Text → List Text
split s = split_from [] s

split_from-Undotted :
    (p part rest : Text) → Undotted p → split_from part (p ++ rest) ≡ split_from (part ++ p) rest
unfolding split_from
split_from-Undotted [] part rest h = rw append-nil
split_from-Undotted (c ∷ p) part rest h =
    ground (arith, split_from-Undotted p (part ++ c ∷ []) rest h.1, append_assoc part (c ∷ []) p)

split-dot : (p rest : Text) → Undotted p → split (p ++ b'.' ∷ rest) ≡ p ∷ split rest
unfolding split
split-dot p rest h = unfold split_from in rw (split_from-Undotted p [] (b'.' ∷ rest) h) refl

split_alone : (p : Text) → Undotted p → split p ≡ p ∷ []
unfolding split
split_alone p h = unfold split_from in cc (split_from-Undotted p [] [] h, append-nil p)

split-token :
    (h p s : Text)
    → Undotted h
    → Undotted p
    → Undotted s
    → split ((h ++ b'.' ∷ p) ++ b'.' ∷ s) ≡ h ∷ p ∷ s ∷ []
split-token h p s hh hp hs =
    rw
      (
        append_assoc h (b'.' ∷ p) (b'.' ∷ s),
        split-dot h (p ++ b'.' ∷ s) hh,
        split-dot p s hp,
        split_alone s hs,
      )
      refl

split-unsigned :
    (claims : Object) (signature : List ℕ)
    → split (unsigned claims ++ b'.' ∷ encode signature)
      ≡ encoded header ∷ encoded claims ∷ encode signature ∷ []
unfolding unsigned encoded
split-unsigned claims signature =
    split-token _ _ _ (encode-Undotted (utf8 (marshal header)))
      (encode-Undotted (utf8 (marshal claims))) (encode-Undotted signature)

utf8-bytes : (s : Text) → All IsByte (utf8 s)
unfolding utf8
utf8-bytes [] = tt
utf8-bytes (c ∷ s) = ground (arith, utf8-bytes s)

-- A token that is signed splits at its dots into three parts. They read back as the JSON of the
-- header, the JSON of the claims and the signature, and the signature is that of the digest of the
-- first two parts with the dot between them.
pub sign_parts :
    (crypto : Crypto) (claims : Object) (token : Text)
    → ((digest signature : List ℕ)
        → crypto.sign_digest digest ≡ some signature
        → All IsByte signature)
    → sign crypto claims ≡ some token
    → (signature : List ℕ) × (h p s : Text) × (split token ≡ h ∷ p ∷ s ∷ [])
      × (decode h ≡ some (utf8 (marshal header)))
      × (decode p ≡ some (utf8 (marshal claims)))
      × (decode s ≡ some signature)
      × (crypto.sign_digest (crypto.sum256 (utf8 (h ++ b'.' ∷ p))) ≡ some signature)
unfolding sign
sign_parts crypto claims token bytes e =
    elim (Option-cases (crypto.sign_digest (crypto.sum256 (utf8 (unsigned claims))))) [
      | inl n ↦ absurd (ground arith)
      | inr (signature, s) ↦ (
        signature,
        encoded header,
        encoded claims,
        encode signature,
        ground (arith, split-unsigned claims signature),
        unfold encoded in decode-encode _ (utf8-bytes (marshal header)),
        unfold encoded in decode-encode _ (utf8-bytes (marshal claims)),
        decode-encode signature (bytes _ signature s),
        unfold unsigned in s,
      )
    ]

IsSolid-append : (s t : Text) → IsSolid s → IsSolid t → IsSolid (s ++ t)
IsSolid-append [] t h k = k
IsSolid-append (c ∷ s) t h k = (h.0, IsSolid-append s t h.1 k)

dotted_nonempty : (s t : Text) → s ++ b'.' ∷ t ≢ []
dotted_nonempty [] t e = ground arith
dotted_nonempty (c ∷ s) t e = ground arith

dot_solid : is_space b'.' ≡ false
unfolding is_space
dot_solid = refl

-- A signed token is one word, as a header needs it.
pub sign-IsWord :
    (crypto : Crypto) (claims : Object) (token : Text)
    → sign crypto claims ≡ some token
    → IsWord token
unfolding sign unsigned encoded
sign-IsWord crypto claims token e =
    elim (Option-cases (crypto.sign_digest (crypto.sum256 (utf8 (unsigned claims))))) [
      | inl n ↦ absurd (ground arith)
      | inr (signature, s) ↦
          let same : unsigned claims ++ b'.' ∷ encode signature ≡ token = ground arith in
          let front =
            IsSolid-append (encoded header) (b'.' ∷ encoded claims) (encode-IsSolid _)
              (dot_solid, encode-IsSolid _) in
          let solid : IsSolid (unsigned claims ++ b'.' ∷ encode signature) =
            IsSolid-append (unsigned claims) (b'.' ∷ encode signature) front
              (dot_solid, encode-IsSolid signature) in
          rw (← same) (dotted_nonempty (unsigned claims) (encode signature), solid)
    ]
