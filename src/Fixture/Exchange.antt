-- ===== src/Fixture/Exchange.antt =====
-- What a token request must show, and what it gets.
use learning_center_referenc.Prelude.{
  ℕ, ◌≤◌, ◌≡◌, Option, none, some, List, [], arith, Text, codes, text_eq_iff, Option-cases, inl,
  inr, ◌∙◌,
}
use learning_center_referenc.Jwt.{Crypto}
use learning_center_referenc.Fixture.{
  Authorization, Provider, Form, lookup, redeemed, issue, challenge_of,
}
use learning_center_referenc.Fixture.Handlers.{
  Reply, Request, post_token, Env, write_json, http_error, invalid_grant, token_reply, exchange,
  token, route, handle,
}
use learning_center_referenc.Fixture.Codes.{lookup-empty}
use learning_center_referenc.Fixture.Origin.{after, Granted, after_origin}

-- What a reply with tokens rests on, in the state that the request found.
pub record Exchanged (crypto : Crypto) (env : Env) (p : Provider) (form : Form) (a : Authorization)
    (reply : Reply) : Type 0 where
  pub found : lookup (form (codes "code")) p ≡ some a
  pub running : env.now ≤ a.expires_at
  pub shown : challenge_of crypto (form (codes "code_verifier")) ≡ a.code_challenge
  pub tokens : Text × Text
  pub signed : issue crypto p env.later a ≡ some tokens
  pub sent : reply.body ≡ (token_reply tokens).body

module _ (crypto : Crypto) where
  redeemed-some :
      (p : Provider) (now : ℕ) (form : Form) (o : Option Authorization) (a : Authorization)
      → redeemed crypto p now form o ≡ some a
      → (o ≡ some a)
        × (now ≤ a.expires_at)
        × (challenge_of crypto (form (codes "code_verifier")) ≡ a.code_challenge)
  unfolding redeemed
  redeemed-some p now form none a h = ground arith
  redeemed-some p now form (some b) a h = (
    ground arith,
    ground arith,
    ground
        (arith, text_eq_iff (challenge_of crypto (form (codes "code_verifier"))) b.code_challenge),
  )

  exchange_ok :
      (env : Env) (p : Provider) (form : Form)
      → (exchange crypto env p form (lookup (form (codes "code")) p)).status ≡ 200
      → (a : Authorization) × Exchanged crypto env p form a
          (exchange crypto env p form (lookup (form (codes "code")) p))
  unfolding exchange invalid_grant write_json http_error
  exchange_ok env p form h =
      elim (Option-cases (redeemed crypto p env.now form (lookup (form (codes "code")) p))) [
        | inl n ↦ absurd (ground arith)
        | inr (a, e) ↦ elim (Option-cases (issue crypto p env.later a)) [
          | inl n ↦ absurd (ground arith)
          | inr (tokens, s) ↦
              let (found, running, shown) = redeemed-some p env.now form _ a e in
              (
                a,
                record {
                  found = found;
                  running = running;
                  shown = shown;
                  tokens = tokens;
                  signed = s;
                  sent = ground arith;
                },
              )
        ]
      ]

  token_ok :
      (env : Env) (r : Request) (p : Provider)
      → r.endpoint ≡ post_token
      → (handle crypto env r p).1.status ≡ 200
      → (form : Form) × (r.form ≡ some form)
        × ((exchange crypto env p form (lookup (form (codes "code")) p)).status ≡ 200)
        × ((handle crypto env r p).1.body
            ≡ (exchange crypto env p form (lookup (form (codes "code")) p)).body)
  unfolding handle route token invalid_grant write_json
  token_ok env r p is_post h = elim (Option-cases r.form) [
    | inl n ↦ absurd (ground arith)
    | inr (form, f) ↦ (form, f, ground arith, ground arith)
  ]

-- From a provider with no code waiting, whatever requests come before, a token request that gets
-- tokens presents a code that an earlier request was given for a valid form that chose one of the
-- two demo identities. It comes before the code expires and shows a verifier whose challenge that
-- form gave, and the tokens are signed for that form's identity and nonce.
pub tokens_authorized :
    (crypto : Crypto) (calls : List (Env × Request)) (p : Provider) (env : Env) (r : Request)
    → p.pending ≡ []
    → r.endpoint ≡ post_token
    → (handle crypto env r (after crypto calls p)).1.status ≡ 200
    → (form : Form) × (a : Authorization) × (r.form ≡ some form)
      × Granted crypto calls p (form (codes "code")) a
      × Exchanged crypto env
          (after crypto calls p)
          form
          a
          (handle crypto env r (after crypto calls p)).1
tokens_authorized crypto calls p env r empty is_post h =
    let (form, posted, status, body) = token_ok crypto env r (after crypto calls p) is_post h in
    let (a, x) = exchange_ok crypto env (after crypto calls p) form status in
    elim (after_origin crypto calls p (form (codes "code")) a x.found) [
      | inl old ↦ absurd (ground (arith, lookup-empty (form (codes "code")) p empty))
      | inr g ↦ (
        form,
        a,
        posted,
        g,
        record {
          found = x.found;
          running = x.running;
          shown = x.shown;
          tokens = x.tokens;
          signed = x.signed;
          sent = body ∙ x.sent;
        },
      )
    ]
