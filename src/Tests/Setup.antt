-- ===== src/Tests/Setup.antt =====
-- The migration runner and the server's settings on small inputs.
use learning_center_referenc.Prelude.{
  ℕ, ◌+◌, ◌^◌, ◌<◌, ◌≡◌, refl, ◌≢◌, ◌↔◌, ◌⊎◌, String, Bool, false, Option, none, some, List, [],
  ◌∷◌, Text, codes, text_eq, text_leb, where_, sort_by, is_blank,
}
use learning_center_referenc.Authn.{has_text}
use learning_center_referenc.Dbsetup.{
  Database, is_migration, migration_names, apply_one, turn, migrate_from, first_failure, migrate,
}
use learning_center_referenc.Dbsetup.Runs.{replay, recorded, migrate_lands, migrate_rerun}
use learning_center_referenc.Config.{
  DeploymentConfig, Url, validate_deployment_config, validate_public_iff, env_int_or, atoi,
  digits_from, env_int_or_bounded,
}

-- A script counts as run: the schema is the number of scripts run.
abbrev run : Text → ℕ → Option ℕ
run sql n = some (n + 1)

abbrev read : Text → Option Text
read name = some name

abbrev answers : String → Text → Bool
answers step name = false

abbrev files : List Text
files = codes "0002_b.up.sql" ∷ codes "0001_a.up.sql" ∷ codes "0001_a.down.sql" ∷ []

abbrev empty : Database ℕ
empty = record { schema = 0; versions = [] }

setup : Unit {0}
unfolding text_eq where_ sort_by has_text text_leb is_migration migration_names apply_one turn
    migrate_from first_failure migrate replay recorded
setup = tt

migrate_in_order :
    (migrate run read answers files empty).applied
    ≡ codes "0001_a.up.sql" ∷ codes "0002_b.up.sql" ∷ []
unfolding setup
migrate_in_order = refl

migrate_lands_example :
    (replay run read (migrate run read answers files empty).applied 0
      ≡ some (migrate run read answers files empty).database.schema)
    × ((migrate run read answers files empty).database.versions
        ≡ recorded (migrate run read answers files empty).applied [])
migrate_lands_example = migrate_lands run read answers files empty

migrate_complete : (migrate run read answers files empty).stop ≡ none
unfolding setup
migrate_complete = refl

migrate_rerun_example :
    migrate run read (λ step name. false) files (migrate run read answers files empty).database
    ≡ record {
      database = (migrate run read answers files empty).database;
      applied = [];
      stop = none;
    }
migrate_rerun_example = migrate_rerun run read answers files empty migrate_complete

abbrev parse_url : Text → Option Url
parse_url issuer = some (record { scheme = codes "https"; host = codes "id.example" })

abbrev public_config : DeploymentConfig
public_config = record {
  env = codes "public";
  auth_mode = codes "oidc";
  database_url = codes "postgres://db";
  issuer = codes "https://id.example";
  runtime_url = [];
  runtime_role = codes "app";
}

public_config_accepted : (validate_deployment_config parse_url public_config ≡ none) ↔ (
    (public_config.auth_mode ≡ codes "oidc")
    × (is_blank public_config.database_url ≡ false)
    × ((u : Url) × (parse_url public_config.issuer ≡ some u)
        × (u.scheme ≡ codes "https")
        × (u.host ≢ []))
    × ((is_blank public_config.runtime_url ≡ false)
        ⊎ (is_blank public_config.runtime_role ≡ false)))
public_config_accepted = validate_public_iff parse_url public_config refl

abbrev getenv : Text → Text
getenv key = codes "30"

abbrev thirty : ℕ
thirty = 30

setting : env_int_or getenv (codes "RATE_LIMIT_PER_MINUTE") 120 ≡ some 30
unfolding env_int_or text_eq atoi digits_from
setting = refl

setting_bounded : (thirty ≡ 120) ⊎ (thirty < 2 ^ 63)
setting_bounded = env_int_or_bounded getenv (codes "RATE_LIMIT_PER_MINUTE") 120 30 setting
