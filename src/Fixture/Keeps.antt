-- ===== src/Fixture/Keeps.antt =====
-- What requests leave as it is: the settings, and a code that none of them presents.
use learning_center_referenc.Prelude.{
  ◌≡◌, refl, false, Option, none, some, List, [], ◌∷◌, arith, Text, codes, text_eq, Option-cases,
  inl, inr, All, ◌∙◌,
}
use learning_center_referenc.Jwt.{Crypto}
use learning_center_referenc.Jwt.Base64.{encode}
use learning_center_referenc.Fixture.{Provider, Form, authorization_of, lookup, store, discard}
use learning_center_referenc.Fixture.Handlers.{
  random_value, Request, Env, grant_code, authorize, token, route, handle,
}
use learning_center_referenc.Fixture.Codes.{
  lookup-discard, lookup-store, token_unread, presents, hands_out, issues, issued_in,
}
use learning_center_referenc.Fixture.Origin.{after}

-- No request changes the settings.
abbrev pub SameSettings : Provider → Provider → Type 0
SameSettings p q =
    (q.issuer ≡ p.issuer)
    × (q.client_id ≡ p.client_id)
    × (q.audience ≡ p.audience)
    × (q.redirect_uri ≡ p.redirect_uri)

module _ (crypto : Crypto) where
  handle-SameSettings :
      (env : Env) (r : Request) (p : Provider) → SameSettings p (handle crypto env r p).0
  unfolding handle route authorize grant_code random_value token store discard
  handle-SameSettings env r p = ground arith

  pub after-SameSettings :
      (calls : List (Env × Request)) (p : Provider) → SameSettings p (after crypto calls p)
  unfolding after
  after-SameSettings [] p = (refl, refl, refl, refl)
  after-SameSettings ((env, r) ∷ calls) p =
      ground
        (arith, handle-SameSettings env r p, after-SameSettings calls (handle crypto env r p).0)

  authorize_keeps :
      (code : Text) (env : Env) (p : Provider) (form : Option Form)
      → hands_out code (authorize env p form).1.body ≡ false
      → lookup code (authorize env p form).0 ≡ lookup code p
  unfolding authorize grant_code random_value hands_out
  authorize_keeps code env p none quiet = refl
  authorize_keeps code env p (some form) quiet = elim (Option-cases env.random) [
    | inl n ↦ ground arith
    | inr (bytes, e) ↦
        ground (arith, lookup-store (encode bytes) code (authorization_of p env.now form) p)
  ]

  token_keeps :
      (code : Text) (env : Env) (p : Provider) (form : Form)
      → text_eq (form (codes "code")) code ≡ false
      → lookup code (token crypto env p (some form)).0 ≡ lookup code p
  unfolding token
  token_keeps code env p form other = ground (arith, lookup-discard (form (codes "code")) code p)

  -- A code waits until it is presented or handed out again.
  handle_keeps :
      (code : Text) (env : Env) (r : Request) (p : Provider)
      → presents code r ≡ false
      → issues crypto code env r p ≡ 0
      → lookup code (handle crypto env r p).0 ≡ lookup code p
  unfolding handle route presents issues
  handle_keeps code env r p quiet unissued = elim (Option-cases r.form) [
    | inl n ↦ ground (arith, authorize_keeps code env p r.form, token_unread crypto code env p)
    | inr (form, f) ↦ ground (arith, authorize_keeps code env p r.form, token_keeps code env p form)
  ]

  pub after_keeps :
      (code : Text) (calls : List (Env × Request)) (p : Provider)
      → All (λ call. presents code call.1 ≡ false) calls
      → issued_in crypto code calls p ≡ 0
      → lookup code (after crypto calls p) ≡ lookup code p
  unfolding after issued_in
  after_keeps code [] p quiet unissued = refl
  after_keeps code ((env, r) ∷ calls) p quiet unissued =
      after_keeps code calls (handle crypto env r p).0 quiet.1 (omega arith)
      ∙ handle_keeps code env r p quiet.0 (omega arith)
