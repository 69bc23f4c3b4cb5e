-- ===== src/Tests/Private.antt =====
-- A test's database on a server that has one already.
use learning_center_referenc.Prelude.{
  ◌⊎◌, Text, ℕ, ◌+◌, ◌≡◌, refl, true, false, none, some, [], ◌∷◌, codes, text_eq, text_leb, where_,
  sort_by, find, exists, delete,
}
use learning_center_referenc.Authn.{has_text}
use learning_center_referenc.Dbsetup.{
  Database, is_migration, migration_names, apply_one, turn, migrate_from, first_failure, migrate,
  apply_seed,
}
use learning_center_referenc.Dbsetup.Runs.{AllRecorded}
use learning_center_referenc.Testdb.{
  Server, Outside, Db, made, hex_text, doubled, quote_ident, unquoted, read_ident, database_of,
  set_database, create_database, clean_up, filled, connected, create, seed, close_pool, drop,
  close_admin,
}
use learning_center_referenc.Testdb.Private.{create_private, new_migrated}

abbrev out : Outside ℕ
out = record {
  getenv = λ key. codes "postgres://localhost/app";
  opens = λ url. true;
  random = some (0 ∷ 1 ∷ 18 ∷ 171 ∷ 205 ∷ 255 ∷ []);
  with_path = λ url path. some path;
  creates = true;
  drops = true;
  blank = record { schema = 0; versions = [] };
  files = codes "0002_b.up.sql" ∷ codes "0001_a.up.sql" ∷ codes "0001_a.down.sql" ∷ [];
  read = λ name. some name;
  read_file = λ path. some path;
  run = λ sql n. some (n + 1);
  fails = λ step name. false;
}

abbrev app : Database ℕ
app = record { schema = 7; versions = [] }

abbrev server : Server ℕ
server = (codes "app", app) ∷ []

abbrev test_db : Db
test_db = record { url = codes "/lcr_test_000112abcdff"; name = codes "lcr_test_000112abcdff" }

create_program : Unit {0}
unfolding text_eq where_ sort_by find exists delete has_text text_leb is_migration migration_names
    apply_one turn migrate_from first_failure migrate apply_seed hex_text doubled quote_ident
    unquoted read_ident database_of set_database create_database clean_up filled connected create
    seed
create_program = tt

created : create out true server ≡ record {
  server =
      (
        test_db.name,
        record { schema = 2; versions = codes "0002_b.up.sql" ∷ codes "0001_a.up.sql" ∷ [] },
      )
      ∷ server;
  cleanups = close_pool ∷ drop (codes "\"lcr_test_000112abcdff\"") ∷ close_admin ∷ [];
  ended = made test_db;
}
unfolding create_program
created = refl

seeded :
    (seed out (codes "seed.sql") test_db (create out false server).server).0
    ≡ (test_db.name, record { schema = 1; versions = [] }) ∷ server
unfolding create_program
seeded = refl

create_private_example :
    let r = create out true server in
    ((r.server ≡ server)
      ⊎ ((name : Text) × (db : Database ℕ) × (database_of name server ≡ none)
          × (r.server ≡ (name, db) ∷ server)))
    × (clean_up out r.cleanups r.server ≡ server)
create_private_example = create_private out true server

is_made : (create out true server).ended ≡ made test_db
unfolding create_program
is_made = refl

new_migrated_example :
    (database_of test_db.name server ≡ none)
    × (db : Database ℕ) × (database_of test_db.name (create out true server).server ≡ some db)
    × AllRecorded db.versions (migration_names out.files)
new_migrated_example = new_migrated out server test_db is_made
