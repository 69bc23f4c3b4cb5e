-- ===== src/Tests/Login.antt =====
-- The identity provider on one login.
use learning_center_referenc.Prelude.{
  ℕ, ◌+◌, ◌≤◌, ◌≡◌, refl, true, false, if◌then◌else◌, none, some, List, [], ◌∷◌, ◌++◌, Text, codes,
  text_eq, text_leb, is_space, fields, find, delete, is_some, sort_by, arith, All, ◌<◌,
}
use learning_center_referenc.Authn.{has_text}
use learning_center_referenc.Jwt.{Crypto, header, encoded, unsigned, sign}
use learning_center_referenc.Jwt.Base64.{letter, encode, decode}
use learning_center_referenc.Jwt.Json.{
  Object, text, digits_of, decimal, integer, unicode_escape, escape, escape_all, quote, with_commas,
  write_value, write_entries, marshal, utf8,
}
use learning_center_referenc.Jwt.Parts.{split, sign_parts}
use learning_center_referenc.Fixture.{
  Authorization, Provider, Form, validate_authorization, authorization_of, lookup, store, discard,
  redeemed, issue, challenge_of, unix, access_claims, id_claims, is_demo_identity,
}
use learning_center_referenc.Fixture.Handlers.{
  random_value, Request, post_authorize, post_token, get_health, Env, location, write_json,
  http_error, health, grant_code, authorize, invalid_grant, token_reply, exchange, token, route,
  handle, is_exchange, rendered,
}
use learning_center_referenc.Fixture.Codes.{
  presents, hands_out, redeems, issues, redeemed_in, issued_in, codes_once,
}
use learning_center_referenc.Fixture.Origin.{after, Granted}
use learning_center_referenc.Fixture.Exchange.{Exchanged, tokens_authorized}
use learning_center_referenc.Fixture.Login.{login_succeeds}

-- Everything that a login computes.
login : Unit {0}
unfolding text_eq text_leb is_space fields find delete sort_by has_text encoded unsigned sign letter
    encode digits_of decimal integer unicode_escape escape escape_all quote with_commas write_value
    write_entries marshal utf8 validate_authorization authorization_of lookup store discard redeemed
    issue challenge_of unix access_claims id_claims write_json http_error health random_value
    grant_code authorize invalid_grant token_reply exchange token route handle presents hands_out
    redeems issues redeemed_in issued_in after
login = tt

abbrev pub crypto : Crypto
crypto = record {
  sum256 = λ bytes. bytes;
  sign_digest = λ digest. some (7 ∷ 8 ∷ []);
  modulus = 1 ∷ [];
  exponent = 3 ∷ [];
}

crypto_signs : (digest : List ℕ) → is_some (crypto.sign_digest digest) ≡ true
crypto_signs digest = refl

abbrev pub provider : Provider
provider = record {
  issuer = codes "http://id";
  client_id = codes "web";
  audience = codes "api";
  redirect_uri = codes "http://localhost/cb";
  pending = [];
}

abbrev pub choice : Form
choice key =
    if text_eq key (codes "response_type")
    then codes "code"
    else if text_eq key (codes "client_id")
    then codes "web"
    else if text_eq key (codes "redirect_uri")
    then codes "http://localhost/cb"
    else if text_eq key (codes "code_challenge_method")
    then codes "S256"
    else if text_eq key (codes "code_challenge")
    then codes "dmVyaWZpZXI"
    else if text_eq key (codes "scope")
    then codes "openid"
    else if text_eq key (codes "audience")
    then codes "api"
    else if text_eq key (codes "identity")
    then codes "demo|learner"
    else codes "x"

abbrev redemption : Form
redemption key =
    if text_eq key (codes "grant_type")
    then codes "authorization_code"
    else if text_eq key (codes "client_id")
    then codes "web"
    else if text_eq key (codes "redirect_uri")
    then codes "http://localhost/cb"
    else if text_eq key (codes "code")
    then codes "AQID"
    else codes "verifier"

abbrev drawn : List ℕ
drawn = 1 ∷ 2 ∷ 3 ∷ []

abbrev at_first : Env
at_first = record { now = 1000; later = 1000; random = some drawn; rendering = rendered }

abbrev at_last : Env
at_last = record { now = 2000; later = 2001; random = none; rendering = rendered }

abbrev chooses : Request
chooses = record { endpoint = post_authorize; query = λ key. []; form = some choice }

abbrev redeeming : Request
redeeming = record { endpoint = post_token; query = λ key. []; form = some redemption }

abbrev asks_health : Request
asks_health = record { endpoint = get_health; query = λ key. []; form = none }

abbrev between : List (Env × Request)
between = (at_last, asks_health) ∷ []

code_of_bytes : codes "AQID" ≡ encode drawn
unfolding login
code_of_bytes = refl

choice_valid : validate_authorization provider choice ≡ none
unfolding login
choice_valid = refl

choice_known : is_demo_identity (choice (codes "identity")) ≡ true
unfolding login
choice_known = refl

redemption_asks : is_exchange provider redemption ≡ true
unfolding login
redemption_asks = refl

redemption_code : redemption (codes "code") ≡ encode drawn
unfolding login
redemption_code = refl

verifier_shown :
    challenge_of crypto (redemption (codes "code_verifier")) ≡ choice (codes "code_challenge")
unfolding login
verifier_shown = refl

none_issued :
    issued_in crypto (encode drawn) between (handle crypto at_first chooses provider).0 ≡ 0
unfolding login
none_issued = refl

none_presented : presents (encode drawn) asks_health ≡ false
unfolding login
none_presented = refl

login_succeeds_example :
    ((handle crypto at_first chooses provider).1.body
      ≡ location provider.redirect_uri (encode drawn) (choice (codes "state")))
    × (tokens : Text × Text) × (issue crypto provider 2001 (authorization_of provider 1000 choice)
        ≡ some tokens)
    × ((handle crypto at_last redeeming
          (after crypto between (handle crypto at_first chooses provider).0)).1.status
        ≡ 200)
    × ((handle crypto at_last redeeming
          (after crypto between (handle crypto at_first chooses provider).0)).1.body
        ≡ (token_reply tokens).body)
login_succeeds_example =
    login_succeeds crypto provider at_first chooses choice drawn between at_last redeeming
      redemption refl refl choice_valid choice_known refl (none_presented, tt) none_issued refl refl
      redemption_asks redemption_code verifier_shown (omega arith) crypto_signs

abbrev history : List (Env × Request)
history = (at_first, chooses) ∷ between

tokens_granted : (handle crypto at_last redeeming (after crypto history provider)).1.status ≡ 200
unfolding login
tokens_granted = refl

tokens_authorized_example :
    (form : Form) × (a : Authorization) × (redeeming.form ≡ some form)
    × Granted crypto history provider (form (codes "code")) a
    × Exchanged crypto at_last
        (after crypto history provider)
        form
        a
        (handle crypto at_last redeeming (after crypto history provider)).1
tokens_authorized_example =
    tokens_authorized crypto history provider at_last redeeming refl refl tokens_granted

abbrev twice : List (Env × Request)
twice = (at_first, chooses) ∷ (at_last, redeeming) ∷ (at_last, redeeming) ∷ []

second_refused : redeemed_in crypto (codes "AQID") twice provider ≡ 1
unfolding login
second_refused = refl

codes_once_example :
    redeemed_in crypto (codes "AQID") twice provider
    ≤ issued_in crypto (codes "AQID") twice provider
      + (if is_some (lookup (codes "AQID") provider) then 1 else 0)
codes_once_example = codes_once crypto (codes "AQID") twice provider

abbrev claims : Object
claims = (codes "sub", text (codes "a\"<")) ∷ []

claims_escaped : marshal claims ≡ codes "{\"sub\":\"a\\\"\\u003c\"}"
unfolding login
claims_escaped = refl

abbrev signed_token : Text
unfolding login
signed_token = unsigned claims ++ b'.' ∷ codes "Bwg"

claims_signed : sign crypto claims ≡ some signed_token
unfolding login
claims_signed = refl

signature_bytes :
    (digest signature : List ℕ)
    → crypto.sign_digest digest ≡ some signature
    → All (λ b. b < 256) signature
signature_bytes digest signature h = ground arith

sign_parts_example :
    (signature : List ℕ) × (h p s : Text) × (split signed_token ≡ h ∷ p ∷ s ∷ [])
    × (decode h ≡ some (utf8 (marshal header)))
    × (decode p ≡ some (utf8 (marshal claims)))
    × (decode s ≡ some signature)
    × (crypto.sign_digest (crypto.sum256 (utf8 (h ++ b'.' ∷ p))) ≡ some signature)
sign_parts_example = sign_parts crypto claims signed_token signature_bytes claims_signed
