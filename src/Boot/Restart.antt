-- ===== src/Boot/Restart.antt =====
-- A start that serves, and the next start on the database that it leaves.
use learning_center_referenc.Prelude.{
  ◌≡◌, ◌≢◌, refl, inl, inr, false, Option, none, [], arith, codes, text_eq_iff, Option-cases,
}
use learning_center_referenc.Dbsetup.{apply_seed, Database, migrate, migration_names}
use learning_center_referenc.Dbsetup.Runs.{migrate_rerun, AllRecorded, migrate-AllRecorded}
use learning_center_referenc.Store.Connect.{Pool, Connected-cases, new}
use learning_center_referenc.Boot.{
  Served, Outside, migrate_on_start, seed_on_start, runtime_pool, open_runtime, seed_and_open,
  set_up, open_database, configured_verifier, boot_with, boot,
}

-- The same outside, on which the database answers.
abbrev pub calm : {S : Type 0} → Outside S → Outside S
calm out = record out { fails = λ step name. false }

module _ {S : Type 0} (out : Outside S) where
  migrate_again :
      (db : Database S)
      → (migrate_on_start out db).1 ≡ none
      → migrate_on_start (calm out) (migrate_on_start out db).0
        ≡ ((migrate_on_start out db).0, none)
  unfolding migrate_on_start
  migrate_again db h = elim (Option-cases (migrate out.run out.read out.fails out.files db).stop) [
    | inl done ↦ ground (arith, done, migrate_rerun out.run out.read out.fails out.files db done)
    | inr (stop, broken) ↦ ground arith
  ]

  same_runtime : (setup : Pool) → open_runtime (calm out) setup ≡ open_runtime out setup
  unfolding open_runtime runtime_pool
  same_runtime setup = refl

  open_database_again :
      (db : Database S) (p : Option Pool)
      → out.getenv (codes "SEED_FILE") ≡ []
      → (open_database out db).1 ≡ inr p
      → open_database (calm out) (open_database out db).0 ≡ ((open_database out db).0, inr p)
  unfolding open_database set_up seed_and_open seed_on_start
  open_database_again db p unseeded h =
      let named = text_eq_iff (out.getenv (codes "SEED_FILE")) [] in
      elim (Connected-cases (new out.driver (out.getenv (codes "DATABASE_URL")))) [
        | inr (e, shut) ↦ ground arith
        | inl (setup, up) ↦ elim (Option-cases (migrate_on_start out db).1) [
          | inl done ↦ ground (arith, migrate_again db done, named, same_runtime setup)
          | inr (halt, stopped) ↦ ground arith
        ]
      ]

  opened_pool :
      (db : Database S) (s : Served)
      → (boot out db).1 ≡ inr s
      → ((open_database out db).1 ≡ inr s.pool) × ((boot out db).0 ≡ (open_database out db).0)
  unfolding boot boot_with
  opened_pool db s h = (ground arith, ground arith)

  -- A start that serves leaves a database with which the next start serves the same, and which that
  -- start does not change, if the database answers it and no seed file is given.
  pub boot_restart :
      (db : Database S) (s : Served)
      → out.getenv (codes "SEED_FILE") ≡ []
      → (boot out db).1 ≡ inr s
      → boot (calm out) (boot out db).0 ≡ ((boot out db).0, inr s)
  unfolding boot boot_with configured_verifier
  boot_restart db s unseeded h =
      let (pool, left) = opened_pool db s h in
      ground (arith, left, open_database_again db s.pool unseeded pool)

  seed-versions : (db : Database S) → (seed_on_start out db).0.versions ≡ db.versions
  unfolding seed_on_start apply_seed
  seed-versions db = elim (Option-cases (out.read_file (out.getenv (codes "SEED_FILE")))) [
    | inl missing ↦ ground arith
    | inr (sql, found) ↦ ground arith
  ]

  migrated :
      (db : Database S)
      → out.getenv (codes "MIGRATE_ON_START") ≡ codes "1"
      → (migrate_on_start out db).1 ≡ none
      → AllRecorded (migrate_on_start out db).0.versions (migration_names out.files)
  unfolding migrate_on_start
  migrated db asked h =
      let given = text_eq_iff (out.getenv (codes "MIGRATE_ON_START")) (codes "1") in
      elim (Option-cases (migrate out.run out.read out.fails out.files db).stop) [
        | inl done ↦
            ground (arith, given, migrate-AllRecorded out.run out.read out.fails out.files db done)
        | inr (stop, broken) ↦ absurd (ground (arith, given))
      ]

  -- A start that is asked to migrate its database serves only with every embedded migration
  -- recorded.
  pub boot_migrates :
      (db : Database S) (s : Served)
      → out.getenv (codes "DATABASE_URL") ≢ []
      → out.getenv (codes "MIGRATE_ON_START") ≡ codes "1"
      → (boot out db).1 ≡ inr s
      → AllRecorded (boot out db).0.versions (migration_names out.files)
  unfolding open_database set_up seed_and_open
  boot_migrates db s given asked h =
      let named = text_eq_iff (out.getenv (codes "DATABASE_URL")) [] in
      let (pool, left) = opened_pool db s h in
      elim (Connected-cases (new out.driver (out.getenv (codes "DATABASE_URL")))) [
        | inr (e, shut) ↦ absurd (ground (arith, named))
        | inl (setup, up) ↦ elim (Option-cases (migrate_on_start out db).1) [
          | inl done ↦ ground (
            arith,
            named,
            left,
            seed-versions (migrate_on_start out db).0,
            migrated db asked done,
          )
          | inr (halt, stopped) ↦ absurd (ground (arith, named))
        ]
      ]
