-- ===== src/Tests/Start.antt =====
-- A start of the server as a public deployment, and the next start.
use learning_center_referenc.Prelude.{
  ℕ, ◌+◌, ◌≡◌, ◌≢◌, ◌≤◌, refl, true, false, if◌then◌else◌, Option, none, some, [], ◌∷◌, arith, inr,
  length, Text, codes, text_eq, text_leb, is_space, is_blank, where_, sort_by, All,
}
use learning_center_referenc.Authn.{Token, has_text, oidc_verify_claims}
use learning_center_referenc.Config.{
  Url, is_https, validate_deployment_config, env_or, env_int_or, configure_auth,
}
use learning_center_referenc.Dbsetup.{
  apply_seed, Database, is_migration, migration_names, apply_one, turn, migrate_from, first_failure,
  migrate,
}
use learning_center_referenc.Dbsetup.Runs.{AllRecorded}
use learning_center_referenc.Store.Connect.{
  Pool, Driver, opened, all_role_chars, is_role_name, set_role, new_with_role, new, current_role,
  new_with_role_adopts,
}
use learning_center_referenc.Boot.{
  Served, Outside, auth_mode, deployment_config, new_oidc_verifier, migrate_on_start, seed_on_start,
  runtime_pool, open_runtime, seed_and_open, set_up, open_database, configured_verifier, boot_with,
  boot,
}
use learning_center_referenc.Boot.Public.{Restricted, boot_public}
use learning_center_referenc.Boot.Restart.{calm, boot_restart, boot_migrates}

start : Unit {0}
unfolding text_eq text_leb is_space is_blank where_ sort_by has_text is_https
    validate_deployment_config env_or env_int_or configure_auth is_migration migration_names
    apply_one turn migrate_from first_failure migrate all_role_chars is_role_name set_role
    new_with_role new current_role auth_mode deployment_config new_oidc_verifier apply_seed
    migrate_on_start seed_on_start runtime_pool open_runtime seed_and_open set_up open_database
    configured_verifier boot_with boot
start = tt

abbrev getenv : Text → Text
getenv key =
    if text_eq key (codes "DEPLOYMENT_ENV")
    then codes "public"
    else if text_eq key (codes "AUTH_MODE")
    then codes "OIDC"
    else if text_eq key (codes "DATABASE_URL")
    then codes "postgres://owner"
    else if text_eq key (codes "DB_RUNTIME_ROLE")
    then codes "app_runtime"
    else if text_eq key (codes "MIGRATE_ON_START")
    then codes "1"
    else if text_eq key (codes "OIDC_ISSUER_URL")
    then codes "https://id.example"
    else if text_eq key (codes "OIDC_AUDIENCE")
    then codes "api"
    else []

abbrev check : Text → Option Token
check raw = none

abbrev driver : Driver
driver = record {
  parses = λ url. true;
  opens = λ url. true;
  runs = λ url statement. text_eq statement (codes "set role \"app_runtime\"");
  current_user = λ pool. some pool.role;
}

abbrev outside : Outside ℕ
outside = record {
  getenv = getenv;
  parse_url = λ url. some (record { scheme = codes "https"; host = codes "id.example" });
  driver = driver;
  discover = λ issuer audience. some check;
  files = codes "0002_b.up.sql" ∷ codes "0001_a.up.sql" ∷ [];
  read = λ name. some name;
  read_file = λ path. none;
  run = λ sql n. some (n + 1);
  fails = λ step name. false;
}

abbrev blank_db : Database ℕ
blank_db = record { schema = 0; versions = [] }

abbrev restricted : Pool
restricted = record { url = codes "postgres://owner"; role = codes "app_runtime" }

abbrev serving : Served
serving = record {
  pool = some restricted;
  verify = oidc_verify_claims check;
  rate_limit = 120;
  trust_proxy = false;
  max_concurrent = 0;
  address = codes ":8080";
}

booted : (boot outside blank_db).1 ≡ inr serving
unfolding start
booted = refl

role_opened :
    new_with_role driver (codes "postgres://owner") (codes "app_runtime") ≡ opened restricted
unfolding start
role_opened = refl

is_public : env_or getenv (codes "DEPLOYMENT_ENV") (codes "local") ≡ codes "public"
unfolding start
is_public = refl

no_seed : getenv (codes "SEED_FILE") ≡ []
unfolding start
no_seed = refl

new_with_role_adopts_example :
    (restricted ≡ record { url = codes "postgres://owner"; role = codes "app_runtime" })
    × (driver.runs (codes "postgres://owner") (set_role (codes "app_runtime")) ≡ true)
    × All (λ c. c ≢ b'"') (codes "app_runtime")
    × (length (codes "app_runtime") ≤ 63)
new_with_role_adopts_example =
    new_with_role_adopts driver (codes "postgres://owner") (codes "app_runtime") restricted
      role_opened (λ e. ground arith)

boot_public_example :
    (pool : Pool) × (verifies : Text → Option Token) × (u : Url) × (serving.pool ≡ some pool)
    × Restricted outside pool
    × (outside.discover (getenv (codes "OIDC_ISSUER_URL")) (getenv (codes "OIDC_AUDIENCE"))
        ≡ some verifies)
    × (serving.verify ≡ oidc_verify_claims verifies)
    × (is_blank (getenv (codes "OIDC_AUDIENCE")) ≡ false)
    × (outside.parse_url (getenv (codes "OIDC_ISSUER_URL")) ≡ some u)
    × (u.scheme ≡ codes "https")
boot_public_example = boot_public outside blank_db serving is_public booted

boot_restart_example :
    boot (calm outside) (boot outside blank_db).0 ≡ ((boot outside blank_db).0, inr serving)
boot_restart_example = boot_restart outside blank_db serving no_seed booted

database_given : getenv (codes "DATABASE_URL") ≢ []
unfolding start
database_given e = ground arith

migration_asked : getenv (codes "MIGRATE_ON_START") ≡ codes "1"
unfolding start
migration_asked = refl

boot_migrates_example :
    AllRecorded (boot outside blank_db).0.versions (migration_names outside.files)
boot_migrates_example = boot_migrates outside blank_db serving database_given migration_asked booted
