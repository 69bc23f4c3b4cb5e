-- ===== src/Fixture.antt =====
-- api/cmd/oidcfixture/main.go: the local identity provider with two fictional identities. A
-- handler that takes the mutex is one step; between its lookup and its reply nothing is shared.
-- `url.Values` is read only by Get, so a form is a function that is empty on an absent key.
pub mod Handlers
pub mod Codes
pub mod Origin
pub mod Exchange
pub mod Keeps
pub mod Login
use learning_center_referenc.Prelude.{
  ℕ, ◌+◌, ◌-◌, ◌/◌, String, Bool, true, false, not, ◌&&◌, ◌||◌, Option, none, some, List, [], ◌∷◌,
  ltb, ◌==◌, if◌then◌else◌, Text, codes, text_eq, fields, find, delete, ◌⊎◌, inl, inr,
}
use learning_center_referenc.Clock.{Instant, ℤ, pos, negsuc}
use learning_center_referenc.Authn.{has_text}
use learning_center_referenc.Config.{env_or}
use learning_center_referenc.Jwt.{Crypto, sign}
use learning_center_referenc.Jwt.Base64.{encode}
use learning_center_referenc.Jwt.Json.{Object, text, number, texts, utf8}

pub record Authorization : Type 0 where
  pub subject : Text
  pub redirect_uri : Text
  pub code_challenge : Text
  pub nonce : Text
  pub expires_at : Instant

-- The signing key is a part of `Crypto`; the map is a list with one entry per code.
pub record Provider : Type 0 where
  pub issuer : Text
  pub client_id : Text
  pub audience : Text
  pub redirect_uri : Text
  pub pending : List (Text × Authorization)

abbrev pub Form : Type 0
Form = Text → Text

-- What url.Parse gives, and what Hostname reads from it.
pub record ParsedUrl : Type 0 where
  pub scheme : Text
  pub host : Text
  pub hostname : Text

pub data StartError : Type 0 where
  issuer_not_http redirect_not_localhost no_key : StartError

abbrev trim_slash : Text → Text
trim_slash [] = []
trim_slash (c ∷ []) = if c == b'/' then [] else c ∷ []
trim_slash (c ∷ d ∷ s) = c ∷ trim_slash (d ∷ s)

abbrev is_http : Option ParsedUrl → Bool
is_http none = false
is_http (some u) = text_eq u.scheme (codes "http") && not (text_eq u.host [])

abbrev is_localhost : Option ParsedUrl → Bool
is_localhost none = false
is_localhost (some u) = text_eq u.scheme (codes "http") && text_eq u.hostname (codes "localhost")

-- newProvider; `generated` says whether rsa.GenerateKey gives a key.
unfoldable pub new_provider :
    (Text → Option ParsedUrl)
    → Bool
    → (issuer client_id audience redirect_uri : Text) → Provider ⊎ StartError
new_provider parse_url generated issuer client_id audience redirect_uri =
    if not (is_http (parse_url issuer))
    then inr issuer_not_http
    else if not (is_localhost (parse_url redirect_uri))
    then inr redirect_not_localhost
    else if not generated
    then inr no_key
    else inl (record {
      issuer = trim_slash issuer;
      client_id = client_id;
      audience = audience;
      redirect_uri = redirect_uri;
      pending = [];
    })

-- What main passes to newProvider.
unfoldable pub provider_of_env :
    (Text → Option ParsedUrl) → Bool → (Text → Text) → Provider ⊎ StartError
provider_of_env parse_url generated getenv =
    new_provider parse_url generated
      (env_or getenv (codes "OIDC_FIXTURE_ISSUER") (codes "http://oidc.localhost:5556"))
      (env_or getenv (codes "OIDC_FIXTURE_CLIENT_ID") (codes "learning-center-web"))
      (env_or getenv (codes "OIDC_FIXTURE_AUDIENCE") (codes "learning-center-api"))
      (env_or getenv (codes "OIDC_FIXTURE_REDIRECT_URI")
        (codes "http://localhost:3000/api/auth/callback"))

-- validateAuthorization: the error's text.
unfoldable pub validate_authorization : Provider → Form → Option String
validate_authorization p values =
    if not (text_eq (values (codes "response_type")) (codes "code"))
      || not (text_eq (values (codes "client_id")) p.client_id)
      || not (text_eq (values (codes "redirect_uri")) p.redirect_uri)
      || not (text_eq (values (codes "code_challenge_method")) (codes "S256"))
      || text_eq (values (codes "code_challenge")) []
      || text_eq (values (codes "state")) []
      || text_eq (values (codes "nonce")) []
    then some "invalid authorization request"
    else if not (has_text (fields (values (codes "scope"))) (codes "openid"))
        || not (text_eq (values (codes "audience")) p.audience)
    then some "openid scope is required"
    else none

abbrev pub is_demo_identity : Text → Bool
is_demo_identity subject =
    text_eq subject (codes "demo|learner") || text_eq subject (codes "demo|admin")

-- 2*time.Minute and time.Hour
abbrev pub code_lifetime : ℕ
code_lifetime = 120000000000

abbrev pub token_lifetime : ℕ
token_lifetime = 3600000000000

-- The entry that `authorize` stores.
unfoldable pub authorization_of : Provider → Instant → Form → Authorization
authorization_of p now form = record {
  subject = form (codes "identity");
  redirect_uri = p.redirect_uri;
  code_challenge = form (codes "code_challenge");
  nonce = form (codes "nonce");
  expires_at = now + code_lifetime;
}

abbrev pub for_code : Text → Text × Authorization → Bool
for_code code entry = text_eq entry.0 code

-- p.codes[code], p.codes[code] = a, and delete(p.codes, code)
unfoldable pub lookup : Text → Provider → Option Authorization
lookup code p = elim (find (for_code code) p.pending) [ none ↦ none | some e ↦ some e.1 ]

unfoldable pub store : Text → Authorization → Provider → Provider
store code a p = record p { pending = (code, a) ∷ delete (for_code code) p.pending }

unfoldable pub discard : Text → Provider → Provider
discard code p = record p { pending = delete (for_code code) p.pending }

-- base64 of the digest of the verifier: PKCE's S256.
unfoldable pub challenge_of : Crypto → Text → Text
challenge_of crypto verifier = encode (crypto.sum256 (utf8 verifier))

-- The guard of `token` on the entry that it found and deleted.
unfoldable pub redeemed :
    Crypto → Provider → Instant → Form → Option Authorization → Option Authorization
redeemed crypto p now form none = none
redeemed crypto p now form (some a) =
    if ltb a.expires_at now
      || not (text_eq a.redirect_uri p.redirect_uri)
      || not (text_eq (challenge_of crypto (form (codes "code_verifier"))) a.code_challenge)
    then none
    else some a

-- now.Unix()
unfoldable pub unix : Instant → ℤ
unix t =
    let seconds = t / 1000000000 in
    if ltb seconds 62135596800
    then negsuc (62135596800 - seconds - 1)
    else pos (seconds - 62135596800)

unfoldable pub access_claims : Provider → Instant → Authorization → Object
access_claims p now a =
    (codes "iss", text p.issuer)
    ∷ (codes "sub", text a.subject)
    ∷ (codes "aud", text p.audience)
    ∷ (codes "iat", number (unix now))
    ∷ (codes "exp", number (unix (now + token_lifetime)))
    ∷ []

unfoldable pub id_claims : Provider → Instant → Authorization → Object
id_claims p now a =
    (codes "iss", text p.issuer)
    ∷ (codes "sub", text a.subject)
    ∷ (codes "aud", text p.client_id)
    ∷ (codes "nonce", text a.nonce)
    ∷ (codes "iat", number (unix now))
    ∷ (codes "exp", number (unix (now + token_lifetime)))
    ∷ []

-- The two tokens of an authorization, if both can be signed.
unfoldable pub issue : Crypto → Provider → Instant → Authorization → Option (Text × Text)
issue crypto p now a = elim (sign crypto (access_claims p now a)) [
  | none ↦ none
  | some access ↦ elim (sign crypto (id_claims p now a)) [
    | none ↦ none
    | some id ↦ some (access, id)
  ]
]
