-- ===== src/Config.antt =====
-- api/cmd/server/main.go: the settings that main reads from the environment and what it accepts.
-- The environment is a function from a name to its value, empty if unset; `url.Parse` is a
-- parameter.
use learning_center_referenc.Prelude.{
  ℕ, ◌+◌, ◌-◌, ◌*◌, ◌^◌, ◌<◌, ◌≡◌, ◌≢◌, ◌↔◌, ◌⊎◌, Bool, true, false, not, ◌&&◌, Option, none, some,
  List, [], ◌∷◌, Text, codes, text_eq, text_eq_iff, texts, Option-cases, inl, inr, is_blank, leb,
  ltb, ◌==◌, if◌then◌else◌, arith,
}
use learning_center_referenc.Authn.{
  Verdict, Claims, demo_verify_claims, unavailable_verify_claims, oidc_verify_claims, Token,
}

pub record DeploymentConfig : Type 0 where
  pub env : Text
  pub auth_mode : Text
  pub database_url : Text
  pub issuer : Text
  pub runtime_url : Text
  pub runtime_role : Text

-- What url.Parse gives.
pub record Url : Type 0 where
  pub scheme : Text
  pub host : Text

pub data ConfigError : Type 0 where
  unknown_env requires_oidc requires_database requires_https_issuer requires_runtime_scope :
      ConfigError

module _ (parse_url : Text → Option Url) where
  unfoldable pub is_https : Text → Bool
  is_https issuer = elim (parse_url issuer) [
    | none ↦ false
    | some u ↦ text_eq u.scheme (codes "https") && not (text_eq u.host [])
  ]

  unfoldable pub validate_deployment_config : DeploymentConfig → Option ConfigError
  validate_deployment_config c =
      if not (text_eq c.env (codes "local")) && not (text_eq c.env (codes "public"))
      then some unknown_env
      else if not (text_eq c.env (codes "public"))
      then none
      else if not (text_eq c.auth_mode (codes "oidc"))
      then some requires_oidc
      else if is_blank c.database_url
      then some requires_database
      else if not (is_https c.issuer)
      then some requires_https_issuer
      else if is_blank c.runtime_url && is_blank c.runtime_role
      then some requires_runtime_scope
      else none

  is_https_iff :
      (issuer : Text)
      → (is_https issuer ≡ true)
        ↔ ((u : Url) × (parse_url issuer ≡ some u) × (u.scheme ≡ codes "https") × (u.host ≢ []))
  unfolding is_https
  is_https_iff issuer = elim (Option-cases (parse_url issuer)) [
    | inl n ↦ (λ h. absurd (ground arith), λ t. ground (arith, t.1))
    | inr (u, p) ↦ (
      λ h. (
        u,
        p,
        ground (arith, text_eq_iff u.scheme (codes "https")),
        ground (arith, text_eq_iff u.host []),
      ),
      λ t.
          ground
            (arith, t.1, t.2, t.3, text_eq_iff t.0.scheme (codes "https"), text_eq_iff t.0.host []),
    )
  ]

  validate_public :
      (c : DeploymentConfig)
      → c.env ≡ codes "public"
      → (validate_deployment_config c ≡ none) ↔ (
          (c.auth_mode ≡ codes "oidc")
          × (is_blank c.database_url ≡ false)
          × (is_https c.issuer ≡ true)
          × ((is_blank c.runtime_url ≡ false) ⊎ (is_blank c.runtime_role ≡ false)))
  unfolding validate_deployment_config
  validate_public c p = grind texts

  -- A public deployment is accepted exactly if it authenticates through OpenID Connect with an
  -- issuer over HTTPS, has a database, and names a runtime role or a runtime connection.
  pub validate_public_iff :
      (c : DeploymentConfig)
      → c.env ≡ codes "public"
      → (validate_deployment_config c ≡ none) ↔ (
          (c.auth_mode ≡ codes "oidc")
          × (is_blank c.database_url ≡ false)
          × ((u : Url) × (parse_url c.issuer ≡ some u) × (u.scheme ≡ codes "https") × (u.host ≢ []))
          × ((is_blank c.runtime_url ≡ false) ⊎ (is_blank c.runtime_role ≡ false)))
  validate_public_iff c p =
      let (to, from) = validate_public c p in
      (
        λ h.
            let (mode, database, https, scope) = to h in
            (mode, database, (is_https_iff c.issuer).0 https, scope),
        λ h. from (h.0, h.1, (is_https_iff c.issuer).1 h.2, h.3),
      )

-- envOr
unfoldable pub env_or : (Text → Text) → Text → Text → Text
env_or getenv key default = if text_eq (getenv key) [] then default else getenv key

abbrev digit : ℕ → Option ℕ
digit c = if leb b'0' c && leb c b'9' then some (c - b'0') else none

-- The number that decimal digits continue, `value` being read so far.
unfoldable pub digits_from : ℕ → Text → Option ℕ
digits_from value [] = some value
digits_from value (c ∷ s) = elim (digit c) [ none ↦ none | some d ↦ digits_from (value * 10 + d) s ]

abbrev digits : Text → Option ℕ
digits [] = none
digits (c ∷ s) = digits_from 0 (c ∷ s)

abbrev atoi_signed : Bool → Option ℕ → Option ℕ
atoi_signed negative none = none
atoi_signed negative (some n) =
    if negative then (if n == 0 then some 0 else none) else if ltb n (2 ^ 63) then some n else none

-- strconv.Atoi, where a negative result is an error too.
unfoldable pub atoi : Text → Option ℕ
atoi [] = none
atoi (c ∷ s) =
    if c == b'-'
    then atoi_signed true (digits s)
    else if c == b'+'
    then atoi_signed false (digits s)
    else atoi_signed false (digits (c ∷ s))

-- envIntOr: `none` is the error.
unfoldable pub env_int_or : (Text → Text) → Text → ℕ → Option ℕ
env_int_or getenv key default = if text_eq (getenv key) [] then some default else atoi (getenv key)

-- The map of the demo mode, its last entry first: of equal keys that one counts.
unfoldable pub demo_tokens : (Text → Text) → List (Text × Claims)
demo_tokens getenv =
    (
      env_or getenv (codes "DEMO_SERVICE_TOKEN") (codes "local-service-token"),
      record { subject = codes "demo|federation-api"; scopes = codes "credentials:read" ∷ [] },
    )
    ∷ (
      env_or getenv (codes "DEMO_ADMIN_TOKEN") (codes "local-admin-token"),
      record { subject = codes "demo|admin"; scopes = [] },
    )
    ∷ (
      env_or getenv (codes "DEMO_LEARNER_TOKEN") (codes "local-learner-token"),
      record { subject = codes "demo|learner"; scopes = [] },
    )
    ∷ []

-- The verifiers of configureAuth; `none` is the error of an unsupported mode. `oidc` stands for the
-- verification of go-oidc, `none` if its discovery fails.
unfoldable pub configure_auth :
    (Text → Text) → Option (Text → Option Token) → Text → Option (Text → Verdict Claims)
configure_auth getenv oidc mode =
    if text_eq mode (codes "disabled")
    then some unavailable_verify_claims
    else if text_eq mode (codes "demo")
    then some (demo_verify_claims (demo_tokens getenv))
    else if text_eq mode (codes "oidc")
    then elim oidc [ none ↦ none | some verify ↦ some (oidc_verify_claims verify) ]
    else none

atoi_signed_bounded :
    (negative : Bool) (m : Option ℕ) (n : ℕ) → atoi_signed negative m ≡ some n → n < 2 ^ 63
atoi_signed_bounded negative none n h = ground arith
atoi_signed_bounded negative (some k) n h = ground arith

atoi_bounded : (s : Text) (n : ℕ) → atoi s ≡ some n → n < 2 ^ 63
unfolding atoi
atoi_bounded [] n h = ground arith
atoi_bounded (c ∷ s) n h = ground (
  arith,
  atoi_signed_bounded true (digits s) n,
  atoi_signed_bounded false (digits s) n,
  atoi_signed_bounded false (digits (c ∷ s)) n,
)

-- A setting that is read is the default or at most 2^63 - 1, so Go's int holds it.
pub env_int_or_bounded :
    (getenv : Text → Text) (key : Text) (default n : ℕ)
    → env_int_or getenv key default ≡ some n
    → (n ≡ default) ⊎ (n < 2 ^ 63)
unfolding env_int_or
env_int_or_bounded getenv key default n h = ground (arith, atoi_bounded (getenv key) n)
