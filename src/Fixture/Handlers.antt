-- ===== src/Fixture/Handlers.antt =====
-- The handlers of the identity provider and the routes to them. A request is what the mux matched,
-- its query and its posted form; a body is the value that is written.
use learning_center_referenc.Prelude.{
  ℕ, String, Bool, not, ◌&&◌, Option, none, some, List, [], ◌∷◌, ◌++◌, if◌then◌else◌, Text, codes,
  text_eq,
}
use learning_center_referenc.Clock.{Instant, pos}
use learning_center_referenc.Jwt.{Crypto}
use learning_center_referenc.Jwt.Base64.{encode}
use learning_center_referenc.Jwt.Json.{Object, text, number, texts}
use learning_center_referenc.Fixture.{
  Authorization, Provider, Form, validate_authorization, is_demo_identity, authorization_of, lookup,
  store, discard, redeemed, issue,
}

pub data Body : Type 0 where
  object : Object → Body
  keys : List Object → Body
  error : String → Body
  -- The login page: the hidden fields, then the subjects with their labels.
  page : List (Text × Text) → List (Text × String) → Body
  -- A part of that page, and an error behind it.
  cut_page : String → Body
  -- A redirect to the address, with these values set in its query.
  location : Text → (code state : Text) → Body

pub record Reply : Type 0 where
  pub status : ℕ
  pub headers : List (String × String)
  pub body : Body

pub data Endpoint : Type 0 where
  get_health get_discovery get_jwks get_authorize post_authorize post_token : Endpoint
  unmatched wrong_method : Endpoint

-- `form` is empty if ParseForm fails.
pub record Request : Type 0 where
  pub endpoint : Endpoint
  pub query : Form
  pub form : Option Form

-- Whether the template is written, fails before its first byte, or after it, when the status is sent.
pub data Rendering : Type 0 where
  rendered unrendered cut_short : Rendering

-- What a handler meets: the clock at its first and at its second reading, the 32 bytes that
-- rand.Read gives, and what becomes of the template.
pub record Env : Type 0 where
  pub now : Instant
  pub later : Instant
  pub random : Option (List ℕ)
  pub rendering : Rendering

-- writeJSON and http.Error
unfoldable pub write_json : ℕ → Body → Reply
write_json status body = record {
  status = status;
  headers = ("Content-Type", "application/json") ∷ [];
  body = body;
}

unfoldable pub http_error : String → ℕ → Reply
http_error message status = record {
  status = status;
  headers =
      ("Content-Type", "text/plain; charset=utf-8") ∷ ("X-Content-Type-Options", "nosniff") ∷ [];
  body = error message;
}

unfoldable pub health : Reply
health = write_json 200 (
    object
      ((codes "status", text (codes "ok")) ∷ (codes "mode", text (codes "local-fixture")) ∷ []))

unfoldable pub discovery : Provider → Reply
discovery p = write_json 200 (
    object (
      (codes "issuer", text p.issuer)
      ∷ (codes "authorization_endpoint", text (p.issuer ++ codes "/authorize"))
      ∷ (codes "token_endpoint", text (p.issuer ++ codes "/token"))
      ∷ (codes "jwks_uri", text (p.issuer ++ codes "/jwks"))
      ∷ (codes "response_types_supported", texts (codes "code" ∷ []))
      ∷ (codes "subject_types_supported", texts (codes "public" ∷ []))
      ∷ (codes "id_token_signing_alg_values_supported", texts (codes "RS256" ∷ []))
      ∷ (codes "token_endpoint_auth_methods_supported", texts (codes "none" ∷ []))
      ∷ (codes "code_challenge_methods_supported", texts (codes "S256" ∷ []))
      ∷ (codes "scopes_supported", texts (codes "openid" ∷ []))
      ∷ []))

unfoldable pub jwks : Crypto → Reply
jwks crypto = write_json 200 (
    keys (
      ((codes "kty", text (codes "RSA"))
        ∷ (codes "use", text (codes "sig"))
        ∷ (codes "alg", text (codes "RS256"))
        ∷ (codes "kid", text (codes "local-fixture"))
        ∷ (codes "n", text (encode crypto.modulus))
        ∷ (codes "e", text (encode crypto.exponent))
        ∷ [])
      ∷ []))

abbrev form_fields : List Text
form_fields =
    codes "response_type"
    ∷ codes "client_id"
    ∷ codes "redirect_uri"
    ∷ codes "scope"
    ∷ codes "audience"
    ∷ codes "state"
    ∷ codes "nonce"
    ∷ codes "code_challenge"
    ∷ codes "code_challenge_method"
    ∷ []

unfoldable pub hidden : Form → List Text → List (Text × Text)
hidden query [] = []
hidden query (name ∷ names) = (name, query name) ∷ hidden query names

unfoldable pub authorize_form : Env → Provider → Form → Reply
authorize_form env p query = elim (validate_authorization p query) [
  | some e ↦ http_error "invalid authorization request" 400
  | none ↦
      let html : Body → Reply = λ body. record {
        status = 200;
        headers = ("Content-Type", "text/html; charset=utf-8") ∷ [];
        body = body;
      } in
      let whole = page (hidden query form_fields) (
        (codes "demo|learner", "Alex Coach (learner)")
        ∷ (codes "demo|admin", "Casey Admin (administrator)")
        ∷ []) in
      elim env.rendering [
        | rendered ↦ html whole
        | unrendered ↦ http_error "rendering login" 500
        | cut_short ↦ html (cut_page "rendering login")
      ]
]

-- randomValue(32)
unfoldable pub random_value : Env → Option Text
random_value env = elim env.random [ none ↦ none | some bytes ↦ some (encode bytes) ]

-- `authorize` on a form that was parsed and is valid.
unfoldable pub grant_code : Env → Provider → Form → Provider × Reply
grant_code env p form =
    if not (is_demo_identity (form (codes "identity")))
    then (p, http_error "unknown fictional identity" 400)
    else elim (random_value env) [
      | none ↦ (p, http_error "authorization unavailable" 500)
      | some code ↦ (
        store code (authorization_of p env.now form) p,
        record {
          status = 303;
          headers = [];
          body = location p.redirect_uri code (form (codes "state"));
        },
      )
    ]

unfoldable pub authorize : Env → Provider → Option Form → Provider × Reply
authorize env p none = (p, http_error "invalid authorization request" 400)
authorize env p (some form) = elim (validate_authorization p form) [
  | some e ↦ (p, http_error "invalid authorization request" 400)
  | none ↦ grant_code env p form
]

unfoldable pub invalid_grant : Reply
invalid_grant = write_json 400 (object ((codes "error", text (codes "invalid_grant")) ∷ []))

unfoldable pub token_reply : Text × Text → Reply
token_reply (access, id) = write_json 200 (
    object (
      (codes "access_token", text access)
      ∷ (codes "id_token", text id)
      ∷ (codes "token_type", text (codes "Bearer"))
      ∷ (codes "expires_in", number (pos 3600))
      ∷ []))

abbrev issued_reply : Option (Text × Text) → Reply
issued_reply none = http_error "token unavailable" 500
issued_reply (some tokens) = token_reply tokens

-- The reply of `token` on what it found under the code.
unfoldable pub exchange : Crypto → Env → Provider → Form → Option Authorization → Reply
exchange crypto env p form found = elim (redeemed crypto p env.now form found) [
  | none ↦ invalid_grant
  | some a ↦ issued_reply (issue crypto p env.later a)
]

abbrev pub is_exchange : Provider → Form → Bool
is_exchange p form =
    text_eq (form (codes "grant_type")) (codes "authorization_code")
    && text_eq (form (codes "client_id")) p.client_id
    && text_eq (form (codes "redirect_uri")) p.redirect_uri

-- The entry is deleted whether or not the exchange succeeds.
unfoldable pub token : Crypto → Env → Provider → Option Form → Provider × Reply
token crypto env p none = (p, invalid_grant)
token crypto env p (some form) = if not (is_exchange p form) then (p, invalid_grant) else (
  discard (form (codes "code")) p,
  exchange crypto env p form (lookup (form (codes "code")) p),
)

-- The mux.
unfoldable pub route : Crypto → Env → Request → Provider → Provider × Reply
route crypto env r p = elim r.endpoint [
  | get_health ↦ (p, health)
  | get_discovery ↦ (p, discovery p)
  | get_jwks ↦ (p, jwks crypto)
  | get_authorize ↦ (p, authorize_form env p r.query)
  | post_authorize ↦ authorize env p r.form
  | post_token ↦ token crypto env p r.form
  | unmatched ↦ (p, http_error "404 page not found" 404)
  | wrong_method ↦ (p, http_error "Method Not Allowed" 405)
]

abbrev secured : Reply → Reply
secured reply = record reply {
  headers =
      ("X-Content-Type-Options", "nosniff")
      ∷ ("X-Frame-Options", "DENY")
      ∷ ("Referrer-Policy", "no-referrer")
      ∷ ("Cache-Control", "no-store")
      ∷ reply.headers;
}

-- The handler of `routes`: the headers of every reply are set before the mux.
unfoldable pub handle : Crypto → Env → Request → Provider → Provider × Reply
handle crypto env r p = let (p', reply) = route crypto env r p in (p', secured reply)
