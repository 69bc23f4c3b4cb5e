-- ===== src/Boot.antt =====
-- main of api/cmd/server/main.go up to the listening socket, with NewOIDCVerifier of
-- authn.go: what the process does with the environment and the database before
-- it serves. A halt is a call of `fatal`, under its message.
pub mod Public
pub mod Restart
use learning_center_referenc.Prelude.{
  ℕ, String, Bool, true, false, ◌&&◌, ◌||◌, not, Option, none, some, List, [], ◌∷◌, ◌++◌, map, ◌⊎◌,
  inl, inr, lower, ◌==◌, if◌then◌else◌, Text, codes, text_eq, is_blank,
}
use learning_center_referenc.Authn.{Verdict, Claims, Token}
use learning_center_referenc.Config.{
  Url, DeploymentConfig, validate_deployment_config, env_or, env_int_or, configure_auth,
}
use learning_center_referenc.Dbsetup.{Database, migrate, apply_seed}
use learning_center_referenc.Store.Connect.{
  Pool, Driver, Connected, opened, refused, new_with_role, new, current_role,
}

pub data Halt : Type 0 where
  configuration database migrate_ seed runtime_database authentication : Halt

-- What main hands to the router and to the listener; without a database there is no pool.
pub record Served : Type 0 where
  pub pool : Option Pool
  pub verify : Text → Verdict Claims
  pub rate_limit : ℕ
  pub trust_proxy : Bool
  pub max_concurrent : ℕ
  pub address : Text

-- What the process finds outside: the environment, url.Parse, the drivers, the discovery of an
-- OpenID Connect issuer, the embedded migrations, the files, and which steps the database fails.
pub record Outside (S : Type 0) : Type 0 where
  pub getenv : Text → Text
  pub parse_url : Text → Option Url
  pub driver : Driver
  pub discover : (issuer audience : Text) → Option (Text → Option Token)
  pub files : List Text
  pub read : Text → Option Text
  pub read_file : Text → Option Text
  pub run : Text → S → Option S
  pub fails : String → Text → Bool

-- strings.ToLower, as far as it can give an ASCII letter: two letters beyond ASCII do.
abbrev to_lower : ℕ → ℕ
to_lower c = if c == 304 then b'i' else if c == 8490 then b'k' else lower c

unfoldable pub auth_mode : (Text → Text) → Text
auth_mode getenv = map to_lower (env_or getenv (codes "AUTH_MODE") (codes "disabled"))

unfoldable pub deployment_config : (Text → Text) → DeploymentConfig
deployment_config getenv = record {
  env = env_or getenv (codes "DEPLOYMENT_ENV") (codes "local");
  auth_mode = auth_mode getenv;
  database_url = getenv (codes "DATABASE_URL");
  issuer = getenv (codes "OIDC_ISSUER_URL");
  runtime_url = getenv (codes "RUNTIME_DATABASE_URL");
  runtime_role = getenv (codes "DB_RUNTIME_ROLE");
}

-- NewOIDCVerifier
unfoldable pub new_oidc_verifier :
    ((issuer audience : Text) → Option (Text → Option Token))
    → (issuer audience : Text) → Option (Text → Option Token)
new_oidc_verifier discover issuer audience =
    if is_blank issuer || is_blank audience then none else discover issuer audience

module _ {S : Type 0} (out : Outside S) where
  unfoldable pub migrate_on_start : Database S → Database S × Option Halt
  migrate_on_start db =
      let o = migrate out.run out.read out.fails out.files db in
      if text_eq (out.getenv (codes "MIGRATE_ON_START")) (codes "1")
      then (o.database, elim o.stop [ none ↦ none | some stop ↦ some migrate_ ])
      else (db, none)

  unfoldable pub seed_on_start : Database S → Database S × Option Halt
  seed_on_start db =
      if text_eq (out.getenv (codes "SEED_FILE")) []
      then (db, none)
      else elim (out.read_file (out.getenv (codes "SEED_FILE"))) [
        | none ↦ (db, some seed)
        | some sql ↦ elim (apply_seed out.run out.fails sql db) [
          | none ↦ (db, some seed)
          | some db' ↦ (db', none)
        ]
      ]

  -- The pool that serves requests: a restricted one if either setting asks for it.
  unfoldable pub runtime_pool : Pool → Connected
  runtime_pool setup =
      if not (text_eq (out.getenv (codes "RUNTIME_DATABASE_URL")) [])
        || not (text_eq (out.getenv (codes "DB_RUNTIME_ROLE")) [])
      then new_with_role out.driver
          (env_or out.getenv (codes "RUNTIME_DATABASE_URL") (out.getenv (codes "DATABASE_URL")))
          (out.getenv (codes "DB_RUNTIME_ROLE"))
      else opened setup

  unfoldable pub open_runtime : Pool → Halt ⊎ Option Pool
  open_runtime setup = elim (runtime_pool setup) [
    | refused e ↦ inl runtime_database
    | opened pool ↦ elim (current_role out.driver pool) [
      | none ↦ inl runtime_database
      | some role ↦ inr (some pool)
    ]
  ]

  unfoldable pub seed_and_open : Pool → Database S → Database S × (Halt ⊎ Option Pool)
  seed_and_open setup db =
      let (db', stop) = seed_on_start db in
      elim stop [ some h ↦ (db', inl h) | none ↦ (db', open_runtime setup) ]

  -- The branch of a configured DATABASE_URL, once its pool is open.
  unfoldable pub set_up : Pool → Database S → Database S × (Halt ⊎ Option Pool)
  set_up setup db =
      let (db', stop) = migrate_on_start db in
      elim stop [ some h ↦ (db', inl h) | none ↦ seed_and_open setup db' ]

  unfoldable pub open_database : Database S → Database S × (Halt ⊎ Option Pool)
  open_database db =
      if text_eq (out.getenv (codes "DATABASE_URL")) []
      then (db, inr none)
      else elim (new out.driver (out.getenv (codes "DATABASE_URL"))) [
        | refused e ↦ (db, inl database)
        | opened setup ↦ set_up setup db
      ]

  unfoldable pub configured_verifier : Option (Text → Verdict Claims)
  configured_verifier =
      configure_auth out.getenv
        (new_oidc_verifier out.discover (out.getenv (codes "OIDC_ISSUER_URL"))
          (out.getenv (codes "OIDC_AUDIENCE")))
        (auth_mode out.getenv)

  abbrev served : ℕ → ℕ → Option Pool → (Text → Verdict Claims) → Served
  served rate_limit max_concurrent pool verify = record {
    pool = pool;
    verify = verify;
    rate_limit = rate_limit;
    trust_proxy = text_eq (out.getenv (codes "TRUST_PROXY")) (codes "1");
    max_concurrent = max_concurrent;
    address = b':' ∷ env_or out.getenv (codes "PORT") (codes "8080");
  }

  -- main, with its settings read.
  unfoldable pub boot_with : ℕ → ℕ → Database S → Database S × (Halt ⊎ Served)
  boot_with rate_limit max_concurrent db =
      let (db', pool) = open_database db in
      elim pool [
        | inl h ↦ (db', inl h)
        | inr p ↦ elim configured_verifier [
          | none ↦ (db', inl authentication)
          | some verify ↦ (db', inr (served rate_limit max_concurrent p verify))
        ]
      ]

  unfoldable pub boot : Database S → Database S × (Halt ⊎ Served)
  boot db = elim (validate_deployment_config out.parse_url (deployment_config out.getenv)) [
    | some e ↦ (db, inl configuration)
    | none ↦ elim (env_int_or out.getenv (codes "RATE_LIMIT_PER_MINUTE") 120) [
      | none ↦ (db, inl configuration)
      | some rate_limit ↦ elim (env_int_or out.getenv (codes "MAX_CONCURRENT_REQUESTS") 0) [
        | none ↦ (db, inl configuration)
        | some max_concurrent ↦ boot_with rate_limit max_concurrent db
      ]
    ]
  ]
