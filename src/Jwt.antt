-- ===== src/Jwt.antt =====
-- The tokens of api/cmd/oidcfixture/main.go: claims as JSON, three base64 parts, a signature.
-- SHA-256 and the RSA signature are parameters.
pub mod Base64
pub mod Json
pub mod Numbers
pub mod Parts
use learning_center_referenc.Prelude.{ℕ, Option, none, some, List, [], ◌∷◌, ◌++◌, Text, codes}
use learning_center_referenc.Jwt.Base64.{encode}
use learning_center_referenc.Jwt.Json.{Value, text, Object, marshal, utf8}

-- sha256.Sum256, rsa.SignPKCS1v15 with the provider's key on a digest, and the bytes of the public
-- key's two numbers.
pub record Crypto : Type 0 where
  pub sum256 : List ℕ → List ℕ
  pub sign_digest : List ℕ → Option (List ℕ)
  pub modulus : List ℕ
  pub exponent : List ℕ

abbrev pub header : Object
header =
    (codes "alg", text (codes "RS256"))
    ∷ (codes "typ", text (codes "JWT"))
    ∷ (codes "kid", text (codes "local-fixture"))
    ∷ []

-- The JSON of an object, as RawURLEncoding writes its bytes.
unfoldable pub encoded : Object → Text
encoded o = encode (utf8 (marshal o))

unfoldable pub unsigned : Object → Text
unsigned claims = encoded header ++ b'.' ∷ encoded claims

-- provider.sign; `none` is the error of the signature, since the claims are texts and numbers,
-- which json.Marshal takes.
unfoldable pub sign : Crypto → Object → Option Text
sign crypto claims = elim (crypto.sign_digest (crypto.sum256 (utf8 (unsigned claims)))) [
  | none ↦ none
  | some signature ↦ some (unsigned claims ++ b'.' ∷ encode signature)
]
