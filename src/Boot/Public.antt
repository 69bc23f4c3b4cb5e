-- ===== src/Boot/Public.antt =====
-- What a public deployment that serves has.
use learning_center_referenc.Prelude.{
  ◌≡◌, ◌≢◌, ◌⊎◌, inl, inr, true, false, Option, none, some, [], arith, Text, codes, text_eq,
  text_eq_iff, is_blank, Option-cases, Bool-cases, ap,
}
use learning_center_referenc.Authn.{Verdict, Claims, Token, oidc_verify_claims}
use learning_center_referenc.Config.{
  Url, validate_deployment_config, validate_public_iff, env_or, configure_auth,
}
use learning_center_referenc.Dbsetup.{Database}
use learning_center_referenc.Store.Connect.{
  Pool, Connected-cases, opened, new_with_role, new, set_role, new_with_role_pool,
  new_with_role_adopts,
}
use learning_center_referenc.Boot.{
  Served, Outside, auth_mode, deployment_config, new_oidc_verifier, runtime_pool, open_runtime,
  seed_and_open, set_up, open_database, configured_verifier, boot_with, boot,
}

module _ {S : Type 0} (out : Outside S) where
  -- The parts of a start that serves.
  record Started (db : Database S) (s : Served) : Type 0 where
    valid : validate_deployment_config out.parse_url (deployment_config out.getenv) ≡ none
    opened_ : (open_database out db).1 ≡ inr s.pool
    verifier : configured_verifier out ≡ some s.verify

  boot-Started : (db : Database S) (s : Served) → (boot out db).1 ≡ inr s → Started db s
  unfolding boot boot_with
  boot-Started db s h = record {
    valid = ground arith;
    opened_ = ground arith;
    verifier = ground arith;
  }

  -- With a database configured, the pool that serves is the runtime pool of the setup pool.
  pool_of_database :
      (db : Database S) (p : Option Pool)
      → (open_database out db).1 ≡ inr p
      → out.getenv (codes "DATABASE_URL") ≢ []
      → (setup pool : Pool) × (p ≡ some pool) × (runtime_pool out setup ≡ opened pool)
  unfolding open_database set_up seed_and_open open_runtime
  pool_of_database db p h given =
      let named = text_eq_iff (out.getenv (codes "DATABASE_URL")) [] in
      elim (Connected-cases (new out.driver (out.getenv (codes "DATABASE_URL")))) [
        | inr (e, shut) ↦ absurd (ground (arith, named))
        | inl (setup, up) ↦ elim (Connected-cases (runtime_pool out setup)) [
          | inr (e, shut) ↦ absurd (ground (arith, named))
          | inl (pool, ready) ↦ (setup, pool, ground (arith, named), ready)
        ]
      ]

  -- A pool with less than the owner's login: it adopts a role, or has a URL of its own.
  pub record Restricted (pool : Pool) : Type 0 where
    pub asked :
        ((pool.role ≡ out.getenv (codes "DB_RUNTIME_ROLE"))
          × (pool.role ≢ [])
          × (out.driver.runs pool.url (set_role pool.role) ≡ true))
        ⊎ ((pool.role ≡ [])
            × (pool.url ≡ out.getenv (codes "RUNTIME_DATABASE_URL"))
            × (pool.url ≢ []))

  Restricted-of_scope :
      (setup pool : Pool)
      → runtime_pool out setup ≡ opened pool
      → (out.getenv (codes "RUNTIME_DATABASE_URL") ≢ [])
        ⊎ (out.getenv (codes "DB_RUNTIME_ROLE") ≢ [])
      → Restricted pool
  unfolding runtime_pool env_or
  Restricted-of_scope setup pool ready asked =
      let role = text_eq_iff (out.getenv (codes "DB_RUNTIME_ROLE")) [] in
      let url = text_eq_iff (out.getenv (codes "RUNTIME_DATABASE_URL")) [] in
      let opens : new_with_role out.driver
            (env_or out.getenv (codes "RUNTIME_DATABASE_URL") (out.getenv (codes "DATABASE_URL")))
            (out.getenv (codes "DB_RUNTIME_ROLE"))
          ≡ opened pool =
        ground (arith, role, url) in
      let (at, as_role) = new_with_role_pool out.driver _ _ pool opens in
      elim (Bool-cases (text_eq (out.getenv (codes "DB_RUNTIME_ROLE")) [])) [
        | inl unset ↦ record {
          asked = inr (ground (arith, role), ground (arith, role, url), ground (arith, role, url));
        }
        | inr set ↦
            let adopts = new_with_role_adopts out.driver _ _ pool opens (ground (arith, role)) in
            record { asked = inl (as_role, ground (arith, role), cc (at, as_role, adopts.1)) }
      ]

  -- In the mode `oidc`, the verifier is that of the discovered issuer, for a given audience.
  verifier_of_oidc :
      (verify : Text → Verdict Claims)
      → auth_mode out.getenv ≡ codes "oidc"
      → configured_verifier out ≡ some verify
      → (check : Text → Option Token) × (out.discover
            (out.getenv (codes "OIDC_ISSUER_URL"))
            (out.getenv (codes "OIDC_AUDIENCE"))
          ≡ some check)
        × (verify ≡ oidc_verify_claims check)
        × (is_blank (out.getenv (codes "OIDC_AUDIENCE")) ≡ false)
  unfolding configured_verifier configure_auth new_oidc_verifier text_eq
  verifier_of_oidc verify mode h =
      elim (Option-cases (
        out.discover (out.getenv (codes "OIDC_ISSUER_URL")) (out.getenv (codes "OIDC_AUDIENCE")))) [
          | inl missing ↦ absurd (ground (arith, mode))
          | inr (check, found) ↦ (check, found, ground (arith, mode), ground (arith, mode))
        ]

is_blank-ne-nil : (s : Text) → is_blank s ≡ false → s ≢ []
unfolding is_blank
is_blank-ne-nil s h = λ e. ground (arith, ap is_blank e)

-- A public deployment that comes to serve has a pool with a restricted scope, which adopts the
-- configured role or has a URL of its own. It verifies tokens against the issuer that it has
-- discovered under an HTTPS address, for an audience that is not blank.
pub boot_public :
    {S : Type 0} (out : Outside S) (db : Database S) (s : Served)
    → env_or out.getenv (codes "DEPLOYMENT_ENV") (codes "local") ≡ codes "public"
    → (boot out db).1 ≡ inr s
    → (pool : Pool) × (check : Text → Option Token) × (u : Url) × (s.pool ≡ some pool)
      × Restricted out pool
      × (out.discover (out.getenv (codes "OIDC_ISSUER_URL")) (out.getenv (codes "OIDC_AUDIENCE"))
          ≡ some check)
      × (s.verify ≡ oidc_verify_claims check)
      × (is_blank (out.getenv (codes "OIDC_AUDIENCE")) ≡ false)
      × (out.parse_url (out.getenv (codes "OIDC_ISSUER_URL")) ≡ some u)
      × (u.scheme ≡ codes "https")
unfolding deployment_config
boot_public out db s public h =
    let t = boot-Started out db s h in
    let (mode, database, (u, parsed, https, _), scope) =
      (validate_public_iff out.parse_url (deployment_config out.getenv) public).0 t.valid in
    let (setup, pool, serves, ready) =
      pool_of_database out db s.pool t.opened_ (is_blank-ne-nil _ database) in
    let (check, found, verifies, audience) = verifier_of_oidc out s.verify mode t.verifier in
    (
      pool,
      check,
      u,
      serves,
      Restricted-of_scope out setup pool ready (elim scope [
        | inl url ↦ inl (is_blank-ne-nil _ url)
        | inr role ↦ inr (is_blank-ne-nil _ role)
      ]),
      found,
      verifies,
      audience,
      parsed,
      https,
    )
