-- ===== src/Fixture/Login.antt =====
-- A login that follows the protocol ends with tokens.
use learning_center_referenc.Prelude.{
  ℕ, ◌+◌, ◌≤◌, ◌≡◌, refl, true, false, none, some, List, ◌∷◌, arith, is_some, Text, codes,
  text_eq_iff, text_eq_refl, Option-cases, inl, inr, All, ◌∙◌,
}
use learning_center_referenc.Clock.{Instant}
use learning_center_referenc.Jwt.{Crypto, unsigned, sign}
use learning_center_referenc.Jwt.Json.{Object, utf8}
use learning_center_referenc.Jwt.Base64.{encode}
use learning_center_referenc.Fixture.{
  Authorization, Provider, Form, validate_authorization, is_demo_identity, authorization_of, lookup,
  redeemed, issue, challenge_of, access_claims, id_claims, code_lifetime,
}
use learning_center_referenc.Fixture.Handlers.{
  random_value, location, Request, post_authorize, post_token, Env, grant_code, authorize,
  token_reply, write_json, exchange, token, route, handle, is_exchange,
}
use learning_center_referenc.Fixture.Codes.{lookup-store, presents, issued_in}
use learning_center_referenc.Fixture.Origin.{after}
use learning_center_referenc.Fixture.Keeps.{SameSettings, after-SameSettings, after_keeps}

module _ (crypto : Crypto) where
  -- A choice of a demo identity with a valid form gets a code, if there are random bytes.
  authorize_ok :
      (env : Env) (r : Request) (p : Provider) (form : Form) (bytes : List ℕ)
      → r.endpoint ≡ post_authorize
      → r.form ≡ some form
      → validate_authorization p form ≡ none
      → is_demo_identity (form (codes "identity")) ≡ true
      → env.random ≡ some bytes
      → ((handle crypto env r p).1.body
          ≡ location p.redirect_uri (encode bytes) (form (codes "state")))
        × (lookup (encode bytes) (handle crypto env r p).0 ≡ some (authorization_of p env.now form))
  unfolding handle route authorize grant_code random_value
  authorize_ok env r p form bytes is_post posted valid known random = (
    ground arith,
    ground (
      arith,
      text_eq_refl (encode bytes),
      lookup-store (encode bytes) (encode bytes) (authorization_of p env.now form) p,
    ),
  )

  sign_ok :
      ((digest : List ℕ) → is_some (crypto.sign_digest digest) ≡ true)
      → (claims : Object) → is_some (sign crypto claims) ≡ true
  unfolding sign
  sign_ok signs claims = ground (arith, signs (crypto.sum256 (utf8 (unsigned claims))))

  issue_signs :
      ((digest : List ℕ) → is_some (crypto.sign_digest digest) ≡ true)
      → (p : Provider) (now : Instant) (a : Authorization)
      → (tokens : Text × Text) × (issue crypto p now a ≡ some tokens)
  unfolding issue
  issue_signs signs p now a =
      let one = sign_ok signs (access_claims p now a) in
      let two = sign_ok signs (id_claims p now a) in
      elim (Option-cases (sign crypto (access_claims p now a))) [
        | inl n ↦ absurd (ground arith)
        | inr (access, e) ↦ elim (Option-cases (sign crypto (id_claims p now a))) [
          | inl n ↦ absurd (ground arith)
          | inr (id, f) ↦ ((access, id), ground arith)
        ]
      ]

  issue_same :
      (p q : Provider) (now : Instant) (a : Authorization)
      → SameSettings p q
      → issue crypto q now a ≡ issue crypto p now a
  unfolding issue access_claims id_claims
  issue_same p q now a (issuer, client, audience, redirect) = rw (issuer, client, audience) refl

  is_exchange_same :
      (p q : Provider) (form : Form) → SameSettings p q → is_exchange q form ≡ is_exchange p form
  is_exchange_same p q form (issuer, client, audience, redirect) = rw (client, redirect) refl

  redeemed_fresh :
      (p q : Provider) (asked now : Instant) (form form' : Form)
      → SameSettings p q
      → now ≤ asked + code_lifetime
      → challenge_of crypto (form' (codes "code_verifier")) ≡ form (codes "code_challenge")
      → redeemed crypto q now form' (some (authorization_of p asked form))
        ≡ some (authorization_of p asked form)
  unfolding redeemed authorization_of
  redeemed_fresh p q asked now form form' same early shown = ground (
    arith,
    same.3,
    text_eq_iff p.redirect_uri q.redirect_uri,
    text_eq_iff (challenge_of crypto (form' (codes "code_verifier")))
        (form (codes "code_challenge")),
  )

  token_ok :
      (env : Env) (r : Request) (p : Provider) (form : Form) (a : Authorization)
      (tokens : Text × Text)
      → r.endpoint ≡ post_token
      → r.form ≡ some form
      → is_exchange p form ≡ true
      → lookup (form (codes "code")) p ≡ some a
      → redeemed crypto p env.now form (some a) ≡ some a
      → issue crypto p env.later a ≡ some tokens
      → ((handle crypto env r p).1.status ≡ 200)
        × ((handle crypto env r p).1.body ≡ (token_reply tokens).body)
  unfolding handle route token exchange token_reply write_json
  token_ok env r p form a tokens is_post posted asks found ok signed = ground arith

-- Let a valid form choose one of the two demo identities, and let random bytes be drawn. The redirect
-- hands out their code. While no other request presents that code or is given the same, whatever
-- the requests are, a token request within two minutes that presents it, with the grant type, client
-- and redirect that are expected and a verifier for the form's challenge, is answered with the tokens of that identity, if the key can sign.
pub login_succeeds :
    (crypto : Crypto) (p : Provider) (env : Env) (r : Request) (form : Form) (bytes : List ℕ)
    (calls : List (Env × Request)) (env' : Env) (r' : Request) (form' : Form)
    → r.endpoint ≡ post_authorize
    → r.form ≡ some form
    → validate_authorization p form ≡ none
    → is_demo_identity (form (codes "identity")) ≡ true
    → env.random ≡ some bytes
    → All (λ call. presents (encode bytes) call.1 ≡ false) calls
    → issued_in crypto (encode bytes) calls (handle crypto env r p).0 ≡ 0
    → r'.endpoint ≡ post_token
    → r'.form ≡ some form'
    → is_exchange p form' ≡ true
    → form' (codes "code") ≡ encode bytes
    → challenge_of crypto (form' (codes "code_verifier")) ≡ form (codes "code_challenge")
    → env'.now ≤ env.now + code_lifetime
    → ((digest : List ℕ) → is_some (crypto.sign_digest digest) ≡ true)
    → ((handle crypto env r p).1.body
        ≡ location p.redirect_uri (encode bytes) (form (codes "state")))
      × (tokens : Text × Text) × (issue crypto p env'.later (authorization_of p env.now form)
          ≡ some tokens)
      × ((handle crypto env' r' (after crypto calls (handle crypto env r p).0)).1.status ≡ 200)
      × ((handle crypto env' r' (after crypto calls (handle crypto env r p).0)).1.body
          ≡ (token_reply tokens).body)
login_succeeds crypto p env r form bytes calls env' r' form' is_post posted valid known random quiet
      unissued is_post' posted' asks code shown early signs =
    let p' : Provider = (handle crypto env r p).0 in
    let q : Provider = after crypto calls p' in
    let a : Authorization = authorization_of p env.now form in
    let (sent, stored) = authorize_ok crypto env r p form bytes is_post posted valid known random in
    let found : lookup (encode bytes) q ≡ some a =
      after_keeps crypto (encode bytes) calls p' quiet unissued ∙ stored in
    let same : SameSettings p q = unfold after in after-SameSettings crypto ((env, r) ∷ calls) p in
    let (tokens, signed) = issue_signs crypto signs p env'.later a in
    let (status, body) =
      token_ok crypto env' r' q form' a tokens is_post' posted'
        (is_exchange_same crypto p q form' same ∙ asks) (rw code found)
        (redeemed_fresh crypto p q env.now env'.now form form' same early shown)
        (issue_same crypto p q env'.later a same ∙ signed) in
    (sent, tokens, signed, status, body)
