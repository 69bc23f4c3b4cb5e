-- ===== src/Dbsetup.antt =====
-- api/internal/dbsetup/dbsetup.go: the migration runner. The schema is a state `S` that a script
-- changes through the parameter `run`; `none` is an error of the database, which rolls back. The
-- advisory lock makes the run of one instance a step of its own.
pub mod Runs
use learning_center_referenc.Prelude.{
  ℕ, String, Bool, true, false, ◌&&◌, ◌||◌, not, Option, none, some, List, [], ◌∷◌, ◌++◌, Text,
  codes, text_eq, text_leb, ltb, ◌==◌, if◌then◌else◌, where_, sort_by,
}
use mathlib.Core.List.{reverse}
use learning_center_referenc.Authn.{has_text}

-- The tables of the application, and schema_migrations.
pub record Database (S : Type 0) : Type 0 where
  pub schema : S
  pub versions : List Text

abbrev starts_with : Text → Text → Bool
starts_with [] s = true
starts_with (c ∷ p) [] = false
starts_with (c ∷ p) (d ∷ s) = c == d && starts_with p s

-- fs.Glob(files, "*.up.sql") over the names of the embedded directory.
unfoldable pub is_migration : Text → Bool
is_migration name = starts_with (reverse (codes ".up.sql")) (reverse name)

unfoldable pub migration_names : List Text → List Text
migration_names files = sort_by text_leb (where_ is_migration files)

-- What ends a run early: the step, and the name it was at.
pub record Stop : Type 0 where
  pub step : String
  pub name : Text

pub record Outcome (S : Type 0) : Type 0 where
  pub database : Database S
  pub applied : List Text
  pub stop : Option Stop

-- What the loop did with one name.
pub data Turn (S : Type 0) : Type 0 where
  skipped : Turn S
  landed : Database S → Turn S
  broken : String → Turn S

-- What Migrate does before its loop; none of it is about a name.
abbrev pub preparation : List String
preparation =
    "acquiring migration connection" ∷ "acquiring migration lock" ∷ "creating schema_migrations"
    ∷ "listing migrations" ∷ []

unfoldable pub first_failure : (String → Text → Bool) → List String → Option String
first_failure fails [] = none
first_failure fails (step ∷ steps) =
    let rest = first_failure fails steps in if fails step [] then some step else rest

module _ {S : Type 0} (run : Text → S → Option S) (read : Text → Option Text) where
  -- A step of the connection that fails, by its name.
  abbrev pub Fails : Type 0
  Fails = String → Text → Bool

  -- applyOne: the transaction of one migration.
  unfoldable pub apply_one : Fails → Text → Text → Database S → Turn S
  apply_one fails name sql db =
      if fails "beginning tx" name then broken "beginning tx" else elim (run sql db.schema) [
        | none ↦ broken "applying"
        | some schema ↦
            if fails "recording" name || has_text db.versions name
            then broken "recording"
            else if fails "committing" name
            then broken "committing"
            else landed (record { schema = schema; versions = name ∷ db.versions })
      ]

  -- The body of the loop of Migrate.
  unfoldable pub turn : Fails → Text → Database S → Turn S
  turn fails name db =
      if fails "checking" name
      then broken "checking"
      else if has_text db.versions name
      then skipped
      else elim (read name) [ none ↦ broken "reading" | some sql ↦ apply_one fails name sql db ]

  unfoldable pub migrate_from : Fails → List Text → Database S → Outcome S
  migrate_from fails [] db = record { database = db; applied = []; stop = none }
  migrate_from fails (name ∷ names) db = elim (turn fails name db) [
    | skipped ↦ migrate_from fails names db
    | landed db' ↦
        let rest = migrate_from fails names db' in record rest { applied = name ∷ rest.applied }
    | broken step ↦ record {
      database = db;
      applied = [];
      stop = some (record { step = step; name = name });
    }
  ]

  unfoldable pub migrate : Fails → List Text → Database S → Outcome S
  migrate fails files db = elim (first_failure fails preparation) [
    | some step ↦ record {
      database = db;
      applied = [];
      stop = some (record { step = step; name = [] });
    }
    | none ↦ migrate_from fails (migration_names files) db
  ]

-- ApplySeed, in one implicit transaction.
unfoldable pub apply_seed :
    {S : Type 0}
    → (Text → S → Option S)
    → (String → Text → Bool)
    → Text
    → Database S
    → Option (Database S)
apply_seed run fails sql db = if fails "applying seed" [] then none else elim (run sql db.schema) [
  | none ↦ none
  | some schema ↦ some (record db { schema = schema })
]
