-- ===== src/Dbsetup/Runs.antt =====
-- What a run of the migrations leaves behind, and what a second run does.
use learning_center_referenc.Prelude.{
  ◌≡◌, refl, ◌⊎◌, inl, inr, String, Bool, true, false, Option, none, some, List, [], ◌∷◌, Text,
  text_eq_refl, arith, Option-cases, All,
}
use learning_center_referenc.Authn.{has_text}
use learning_center_referenc.Dbsetup.{
  Turn, skipped, landed, broken, turn, Database, apply_one, migrate_from, migrate, first_failure,
  preparation, migration_names,
}

-- The names, each put in front of the versions.
unfoldable pub recorded : List Text → List Text → List Text
recorded [] versions = versions
recorded (name ∷ names) versions = recorded names (name ∷ versions)

Turn-cases :
    {S : Type 0} (t : Turn S)
    → (t ≡ skipped)
      ⊎ (((db : Database S) × (t ≡ landed db)) ⊎ ((step : String) × (t ≡ broken step)))
Turn-cases skipped = inl refl
Turn-cases (landed db) = inr (inl (db, refl))
Turn-cases (broken step) = inr (inr (step, refl))

module _ {S : Type 0} (run : Text → S → Option S) (read : Text → Option Text) where
  -- The schema after the scripts of these names, one after the other.
  unfoldable pub replay : List Text → S → Option S
  replay [] s = some s
  replay (name ∷ names) s = elim (read name) [
    | none ↦ none
    | some sql ↦ elim (run sql s) [ none ↦ none | some s' ↦ replay names s' ]
  ]

  -- A migration that lands has run its script and recorded its name, once.
  turn-landed :
      (fails : String → Text → Bool) (name : Text) (db db' : Database S)
      → turn run read fails name db ≡ landed db'
      → (sql : Text) × (read name ≡ some sql)
        × (run sql db.schema ≡ some db'.schema)
        × (db'.versions ≡ name ∷ db.versions)
        × (has_text db.versions name ≡ false)
  unfolding turn apply_one
  turn-landed fails name db db' h = elim (Option-cases (read name)) [
    | inl n ↦ absurd (ground arith)
    | inr (sql, found) ↦ (sql, found, ground arith, ground arith, ground arith)
  ]

  turn-skipped :
      (fails : String → Text → Bool) (name : Text) (db : Database S)
      → turn run read fails name db ≡ skipped
      → has_text db.versions name ≡ true
  unfolding turn apply_one
  turn-skipped fails name db h = ground arith

  abbrev Lands : List Text → Database S → Database S → Type 0
  Lands applied db db' =
      (replay applied db.schema ≡ some db'.schema) × (db'.versions ≡ recorded applied db.versions)

  landed-Lands :
      (fails : String → Text → Bool) (name : Text) (names : List Text) (db db' db'' : Database S)
      → turn run read fails name db ≡ landed db'
      → Lands names db' db''
      → Lands (name ∷ names) db db''
  unfolding replay recorded
  landed-Lands fails name names db db' db'' h l =
      let (sql, found, ran, versions, fresh) = turn-landed fails name db db' h in ground arith

  migrate_from-Lands :
      (fails : String → Text → Bool) (names : List Text) (db : Database S)
      → let out = migrate_from run read fails names db in Lands out.applied db out.database
  unfolding migrate_from replay recorded
  migrate_from-Lands fails [] db = (refl, refl)
  migrate_from-Lands fails (name ∷ names) db = elim (Turn-cases (turn run read fails name db)) [
    | inl skips ↦ ground (arith, migrate_from-Lands fails names db)
    | inr (inl (db', lands)) ↦ ground (
      arith,
      landed-Lands fails name (migrate_from run read fails names db').applied db db'
          (migrate_from run read fails names db').database lands
          (migrate_from-Lands fails names db'),
    )
    | inr (inr (step, breaks)) ↦ ground arith
  ]

-- Whatever step fails, a run of the migrations leaves the database as the migrations that it
-- reports, each run once and in that order, leave it, with exactly those names recorded.
pub migrate_lands :
    {S : Type 0} (run : Text → S → Option S) (read : Text → Option Text)
    (fails : String → Text → Bool) (files : List Text) (db : Database S)
    → let out = migrate run read fails files db in
      (replay run read out.applied db.schema ≡ some out.database.schema)
      × (out.database.versions ≡ recorded out.applied db.versions)
unfolding migrate replay recorded
migrate_lands run read fails files db = elim (Option-cases (first_failure fails preparation)) [
  | inl n ↦ ground (arith, migrate_from-Lands run read fails (migration_names files) db)
  | inr (step, failed) ↦ ground arith
]

has_text-recorded :
    (names versions : List Text) (n : Text)
    → has_text versions n ≡ true
    → has_text (recorded names versions) n ≡ true
unfolding recorded has_text
has_text-recorded [] versions n h = h
has_text-recorded (name ∷ names) versions n h =
    has_text-recorded names (name ∷ versions) n (ground arith)

-- Every one of these names is recorded.
abbrev pub AllRecorded : List Text → List Text → Type 0
AllRecorded versions names = All (λ name. has_text versions name ≡ true) names

AllRecorded-recorded :
    (more versions names : List Text)
    → AllRecorded versions names
    → AllRecorded (recorded more versions) names
AllRecorded-recorded more versions [] h = tt
AllRecorded-recorded more versions (n ∷ names) h =
    (has_text-recorded more versions n h.0, AllRecorded-recorded more versions names h.1)

module _ {S : Type 0} (run : Text → S → Option S) (read : Text → Option Text) where
  keeps_recorded :
      (fails : String → Text → Bool) (names : List Text) (db : Database S) (n : Text)
      → has_text db.versions n ≡ true
      → has_text (migrate_from run read fails names db).database.versions n ≡ true
  keeps_recorded fails names db n h =
      rw (migrate_from-Lands run read fails names db).1
        (has_text-recorded (migrate_from run read fails names db).applied db.versions n h)

  landed_recorded :
      (fails : String → Text → Bool) (name : Text) (db db' : Database S)
      → turn run read fails name db ≡ landed db'
      → has_text db'.versions name ≡ true
  unfolding has_text
  landed_recorded fails name db db' h =
      ground (arith, turn-landed run read fails name db db' h, text_eq_refl name)

  completes-AllRecorded :
      (fails : String → Text → Bool) (names : List Text) (db : Database S)
      → (migrate_from run read fails names db).stop ≡ none
      → AllRecorded (migrate_from run read fails names db).database.versions names
  unfolding migrate_from
  completes-AllRecorded fails [] db h = tt
  completes-AllRecorded fails (name ∷ names) db h =
      elim (Turn-cases (turn run read fails name db)) [
        | inl skips ↦ ground (
          arith,
          completes-AllRecorded fails names db,
          keeps_recorded fails names db name (turn-skipped run read fails name db skips),
        )
        | inr (inl (db', lands)) ↦ ground (
          arith,
          completes-AllRecorded fails names db',
          keeps_recorded fails names db' name (landed_recorded fails name db db' lands),
        )
        | inr (inr (step, breaks)) ↦ absurd (ground arith)
      ]

  skips_all :
      (names : List Text) (db : Database S)
      → AllRecorded db.versions names
      → migrate_from run read (λ step name. false) names db
        ≡ record { database = db; applied = []; stop = none }
  unfolding migrate_from turn
  skips_all [] db h = refl
  skips_all (name ∷ names) db h = ground (arith, skips_all names db h.1)

-- A run that meets no error is final: running the same migrations again, with a database that
-- answers, applies none and changes nothing.
pub migrate_rerun :
    {S : Type 0} (run : Text → S → Option S) (read : Text → Option Text)
    (fails : String → Text → Bool) (files : List Text) (db : Database S)
    → (migrate run read fails files db).stop ≡ none
    → migrate run read (λ step name. false) files (migrate run read fails files db).database
      ≡ record { database = (migrate run read fails files db).database; applied = []; stop = none }
unfolding migrate first_failure
migrate_rerun run read fails files db h =
    let names = migration_names files in
    elim (Option-cases (first_failure fails preparation)) [
      | inl n ↦ ground (
        arith,
        skips_all run read names (migrate_from run read fails names db).database,
        completes-AllRecorded run read fails names db,
      )
      | inr (step, failed) ↦ absurd (ground arith)
    ]

-- After a run that meets no error, every migration is recorded.
pub migrate-AllRecorded :
    {S : Type 0} (run : Text → S → Option S) (read : Text → Option Text)
    (fails : String → Text → Bool) (files : List Text) (db : Database S)
    → (migrate run read fails files db).stop ≡ none
    → AllRecorded (migrate run read fails files db).database.versions (migration_names files)
unfolding migrate
migrate-AllRecorded run read fails files db h =
    elim (Option-cases (first_failure fails preparation)) [
      | inl n ↦ ground (arith, completes-AllRecorded run read fails (migration_names files) db)
      | inr (step, failed) ↦ absurd (ground arith)
    ]
