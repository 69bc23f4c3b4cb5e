-- ===== src/Fixture/Codes.antt =====
-- The life of an authorization code over a sequence of requests.
use learning_center_referenc.Prelude.{
  ℕ, ◌+◌, ◌≤◌, ◌≡◌, refl, Bool, false, ◌&&◌, Option, none, some, List, [], ◌∷◌, arith, ◌==◌,
  if◌then◌else◌, Text, codes, text_eq, text_eq_iff, find, delete, is_some, Option-cases, inl, inr,
}
use learning_center_referenc.Jwt.{Crypto}
use learning_center_referenc.Jwt.Base64.{encode}
use learning_center_referenc.Fixture.{
  Authorization, Provider, Form, authorization_of, lookup, store, discard, for_code, redeemed,
}
use learning_center_referenc.Fixture.Handlers.{
  random_value, Body, location, Request, post_token, Env, write_json, http_error, grant_code,
  authorize, invalid_grant, exchange, token, route, handle,
}

find-delete_code :
    (code c : Text) (entries : List (Text × Authorization))
    → find (for_code c) (delete (for_code code) entries)
      ≡ (if text_eq code c then none else find (for_code c) entries)
unfolding find delete
find-delete_code code c [] = ground arith
find-delete_code code c (e ∷ entries) = ground (
  arith,
  text_eq_iff e.0 code,
  text_eq_iff e.0 c,
  text_eq_iff code c,
  find-delete_code code c entries,
)

pub lookup-discard :
    (code c : Text) (p : Provider)
    → lookup c (discard code p) ≡ (if text_eq code c then none else lookup c p)
unfolding lookup discard
lookup-discard code c p = ground (arith, find-delete_code code c p.pending)

pub lookup-store :
    (code c : Text) (a : Authorization) (p : Provider)
    → lookup c (store code a p) ≡ (if text_eq code c then some a else lookup c p)
unfolding lookup store find
lookup-store code c a p = ground (arith, text_eq_iff code c, find-delete_code code c p.pending)

pub lookup-empty : (code : Text) (p : Provider) → p.pending ≡ [] → lookup code p ≡ none
unfolding lookup find
lookup-empty code p h = ground arith

-- The form of a token request that presents a code, and the code that a redirect hands out.
unfoldable pub presents : Text → Request → Bool
presents code r = elim r.endpoint [
  | post_token ↦ elim r.form [ none ↦ false | some form ↦ text_eq (form (codes "code")) code ]
  | _ ↦ false
]

unfoldable pub hands_out : Text → Body → Bool
hands_out code (location uri c state) = text_eq c code
hands_out code _ = false

module _ (crypto : Crypto) (code : Text) where
  -- Whether the request got tokens for the code, and whether it got the code.
  unfoldable pub redeems : Env → Request → Provider → ℕ
  redeems env r p = if presents code r && (handle crypto env r p).1.status == 200 then 1 else 0

  unfoldable pub issues : Env → Request → Provider → ℕ
  issues env r p = if hands_out code (handle crypto env r p).1.body then 1 else 0

  abbrev pub live : Provider → ℕ
  live p = if is_some (lookup code p) then 1 else 0

  authorize_bounded :
      (env : Env) (p : Provider) (form : Option Form)
      → live (authorize env p form).0
        ≤ (if hands_out code (authorize env p form).1.body then 1 else 0) + live p
  unfolding authorize grant_code random_value hands_out http_error
  authorize_bounded env p none = ground arith
  authorize_bounded env p (some form) = elim (Option-cases env.random) [
    | inl n ↦ ground arith
    | inr (bytes, e) ↦
        ground (arith, lookup-store (encode bytes) code (authorization_of p env.now form) p)
  ]

  exchange_nothing :
      (env : Env) (p : Provider) (form : Form) → (exchange crypto env p form none).status ≡ 400
  unfolding exchange redeemed invalid_grant write_json
  exchange_nothing env p form = refl

  token_bounded :
      (env : Env) (p : Provider) (form : Form)
      → (if text_eq (form (codes "code")) code && (token crypto env p (some form)).1.status == 200
            then 1
            else 0)
          + live (token crypto env p (some form)).0
        ≤ live p
  unfolding token invalid_grant write_json
  token_bounded env p form = elim (Option-cases (lookup code p)) [
    | inl n ↦ ground (
      arith,
      text_eq_iff (form (codes "code")) code,
      lookup-discard (form (codes "code")) code p,
      exchange_nothing env p form,
    )
    | inr (a, e) ↦
        ground (
          arith,
          text_eq_iff (form (codes "code")) code,
          lookup-discard (form (codes "code")) code p,
        )
  ]

  pub token_unread : (env : Env) (p : Provider) → token crypto env p none ≡ (p, invalid_grant)
  unfolding token
  token_unread env p = refl

  redeems_bounded :
      (env : Env) (r : Request) (p : Provider)
      → redeems env r p + live (handle crypto env r p).0 ≤ issues env r p + live p
  unfolding redeems issues handle route presents
  redeems_bounded env r p = elim (Option-cases r.form) [
    | inl n ↦ ground (arith, authorize_bounded env p r.form, token_unread env p)
    | inr (form, f) ↦ ground (arith, authorize_bounded env p r.form, token_bounded env p form)
  ]

  -- Over a sequence of requests: how often the code was exchanged for tokens, and handed out.
  unfoldable pub redeemed_in : List (Env × Request) → Provider → ℕ
  redeemed_in [] p = 0
  redeemed_in ((env, r) ∷ calls) p = redeems env r p + redeemed_in calls (handle crypto env r p).0

  unfoldable pub issued_in : List (Env × Request) → Provider → ℕ
  issued_in [] p = 0
  issued_in ((env, r) ∷ calls) p = issues env r p + issued_in calls (handle crypto env r p).0

-- Whatever requests arrive, a code is exchanged for tokens at most as often as it was handed out,
-- and once more if it was waiting at the start.
pub codes_once :
    (crypto : Crypto) (code : Text) (calls : List (Env × Request)) (p : Provider)
    → redeemed_in crypto code calls p
      ≤ issued_in crypto code calls p + (if is_some (lookup code p) then 1 else 0)
unfolding redeemed_in issued_in
codes_once crypto code [] p = omega arith
codes_once crypto code ((env, r) ∷ calls) p =
    let rest = codes_once crypto code calls (handle crypto env r p).0 in
    omega (arith, rest, redeems_bounded crypto code env r p)
