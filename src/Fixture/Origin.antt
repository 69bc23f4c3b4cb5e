-- ===== src/Fixture/Origin.antt =====
-- Where the tokens come from: what must have been asked and shown for a token request to succeed.
use learning_center_referenc.Prelude.{
  ℕ, ◌≡◌, refl, true, Option, none, some, List, [], ◌∷◌, ◌++◌, arith, Text, codes, text_eq,
  text_eq_iff, Option-cases, Bool-cases, ◌⊎◌, inl, inr, ap,
}
use learning_center_referenc.Jwt.{Crypto}
use learning_center_referenc.Jwt.Base64.{encode}
use learning_center_referenc.Fixture.{
  Authorization, Provider, Form, validate_authorization, is_demo_identity, authorization_of, lookup,
}
use learning_center_referenc.Fixture.Handlers.{
  random_value, Request, post_authorize, Env, grant_code, authorize, token, route, handle,
}
use learning_center_referenc.Fixture.Codes.{lookup-discard, lookup-store}

-- The request is a valid choice of a demo identity; `a` is stored under the fresh `code`.
pub record Authorizes (env : Env) (r : Request) (p : Provider) (code : Text) (a : Authorization)
    : Type 0 where
  pub form : Form
  pub bytes : List ℕ
  pub is_post : r.endpoint ≡ post_authorize
  pub posted : r.form ≡ some form
  pub valid : validate_authorization p form ≡ none
  pub known : is_demo_identity (form (codes "identity")) ≡ true
  pub random : env.random ≡ some bytes
  pub fresh : code ≡ encode bytes
  pub stored : a ≡ authorization_of p env.now form

module _ (crypto : Crypto) where
  unfoldable pub after : List (Env × Request) → Provider → Provider
  after [] p = p
  after ((env, r) ∷ calls) p = after calls (handle crypto env r p).0

  -- What authorize stores, it stores for a valid form, a demo identity and fresh bytes.
  authorize_origin :
      (env : Env) (p : Provider) (form : Form) (code : Text) (a : Authorization)
      → lookup code (authorize env p (some form)).0 ≡ some a
      → (lookup code p ≡ some a)
        ⊎ ((bytes : List ℕ) × (env.random ≡ some bytes)
            × (code ≡ encode bytes)
            × (a ≡ authorization_of p env.now form)
            × (validate_authorization p form ≡ none)
            × (is_demo_identity (form (codes "identity")) ≡ true))
  unfolding authorize grant_code random_value
  authorize_origin env p form code a h = elim (Option-cases env.random) [
    | inl n ↦ inl (ground arith)
    | inr (bytes, e) ↦
        let seen = lookup-store (encode bytes) code (authorization_of p env.now form) p in
        elim (Bool-cases (text_eq (encode bytes) code)) [
          | inr other ↦ inl (ground (arith, seen))
          | inl same ↦ elim (Option-cases (validate_authorization p form)) [
            | inr (m, invalid) ↦ inl (ground arith)
            | inl valid ↦ elim (Bool-cases (is_demo_identity (form (codes "identity")))) [
              | inr unknown ↦ inl (ground arith)
              | inl known ↦ inr (
                bytes,
                e,
                ground (arith, text_eq_iff (encode bytes) code),
                ground (arith, seen),
                valid,
                known,
              )
            ]
          ]
        ]
  ]

  authorize_unread : (env : Env) (p : Provider) → (authorize env p none).0 ≡ p
  unfolding authorize
  authorize_unread env p = refl

  token_origin :
      (env : Env) (p : Provider) (form : Option Form) (code : Text) (a : Authorization)
      → lookup code (token crypto env p form).0 ≡ some a
      → lookup code p ≡ some a
  unfolding token
  token_origin env p none code a h = h
  token_origin env p (some form) code a h =
      ground (arith, lookup-discard (form (codes "code")) code p)

  route_pending :
      (env : Env) (r : Request) (p : Provider) (code : Text) (a : Authorization)
      → lookup code (handle crypto env r p).0 ≡ some a
      → (lookup code p ≡ some a)
        ⊎ ((r.endpoint ≡ post_authorize) × (lookup code (authorize env p r.form).0 ≡ some a))
  unfolding handle route
  route_pending env r p code a h = ground (arith, token_origin env p r.form code a)

  handle_origin :
      (env : Env) (r : Request) (p : Provider) (code : Text) (a : Authorization)
      → lookup code (handle crypto env r p).0 ≡ some a
      → (lookup code p ≡ some a) ⊎ Authorizes env r p code a
  handle_origin env r p code a h = elim (route_pending env r p code a h) [
    | inl old ↦ inl old
    | inr (is_post, k) ↦ elim (Option-cases r.form) [
      | inl unread ↦ inl (ground (arith, authorize_unread env p))
      | inr (form, posted) ↦ elim (authorize_origin env p form code a (ground arith)) [
        | inl old ↦ inl old
        | inr (bytes, random, fresh, stored, valid, known) ↦ inr (record {
          form = form;
          bytes = bytes;
          is_post = is_post;
          posted = posted;
          valid = valid;
          known = known;
          random = random;
          fresh = fresh;
          stored = stored;
        })
      ]
    ]
  ]

  -- Earlier in the sequence, a request was granted `code` for `a`.
  pub record Granted (calls : List (Env × Request)) (p : Provider) (code : Text) (a : Authorization)
      : Type 0 where
    pub before : List (Env × Request)
    pub rest : List (Env × Request)
    pub env : Env
    pub request : Request
    pub split : calls ≡ before ++ (env, request) ∷ rest
    pub authorizes : Authorizes env request (after before p) code a

  Granted-later :
      (env : Env) (r : Request) (calls : List (Env × Request)) (p : Provider) (code : Text)
      (a : Authorization)
      → Granted calls (handle crypto env r p).0 code a
      → Granted ((env, r) ∷ calls) p code a
  unfolding after
  Granted-later env r calls p code a g = record {
    before = (env, r) ∷ g.before;
    rest = g.rest;
    env = g.env;
    request = g.request;
    split = ap (λ (t : List (Env × Request)). (env, r) ∷ t) g.split;
    authorizes = g.authorizes;
  }

  pub after_origin :
      (calls : List (Env × Request)) (p : Provider) (code : Text) (a : Authorization)
      → lookup code (after calls p) ≡ some a
      → (lookup code p ≡ some a) ⊎ Granted calls p code a
  unfolding after
  after_origin [] p code a h = inl h
  after_origin ((env, r) ∷ calls) p code a h =
      elim (after_origin calls (handle crypto env r p).0 code a h) [
        | inr g ↦ inr (Granted-later env r calls p code a g)
        | inl k ↦ elim (handle_origin env r p code a k) [
          | inl old ↦ inl old
          | inr new ↦ inr (record {
            before = [];
            rest = calls;
            env = env;
            request = r;
            split = refl;
            authorizes = new;
          })
        ]
      ]
