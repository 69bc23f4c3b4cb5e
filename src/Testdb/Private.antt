-- ===== src/Testdb/Private.antt =====
-- What a test's database does to the server, and what the test gets.
use learning_center_referenc.Prelude.{
  if◌then◌else◌, ◌≡◌, ◌≢◌, refl, ◌⊎◌, inl, inr, Bool, true, false, ◌||◌, not, none, some, List, [],
  ◌∷◌, ◌++◌, arith, ◌==◌, Text, codes, text_eq, text_eq_iff, find, exists, delete, Bool-cases,
  Option-cases,
}
use learning_center_referenc.Dbsetup.{Database, migrate, migration_names}
use learning_center_referenc.Dbsetup.Runs.{AllRecorded, migrate-AllRecorded}
use learning_center_referenc.Testdb.{
  Server, Outside, Db, Cleanup, close_admin, drop, close_pool, made, hex_text, doubled, quote_ident,
  unquoted, read_ident, named, database_of, set_database, create_database, clean_up, filled,
  connected, create,
}

unquoted-doubled : (s : Text) → unquoted false (doubled s ++ b'"' ∷ []) ≡ some s
unfolding unquoted doubled
unquoted-doubled [] = refl
unquoted-doubled (c ∷ s) = elim (Bool-cases (c == b'"')) [
  | inl quote ↦ ground (arith, unquoted-doubled s)
  | inr plain ↦ ground (arith, unquoted-doubled s)
]

-- A quoted name is read as the name.
read_ident-quote_ident : (name : Text) → read_ident (quote_ident name) ≡ some name
unfolding read_ident quote_ident
read_ident-quote_ident name = unquoted-doubled name

module _ {S : Type 0} where
  delete_absent :
      (name : Text) (server : Server S)
      → exists (named name) server ≡ false
      → delete (named name) server ≡ server
  unfolding exists delete
  delete_absent name [] h = refl
  delete_absent name (e ∷ server) h = ground (arith, delete_absent name server)

  database_of_absent :
      (name : Text) (server : Server S)
      → exists (named name) server ≡ false
      → database_of name server ≡ none
  unfolding exists database_of find
  database_of_absent name [] h = refl
  database_of_absent name (e ∷ server) h = ground (arith, database_of_absent name server)

  database_of_head :
      (name : Text) (db : Database S) (server : Server S)
      → database_of name ((name, db) ∷ server) ≡ some db
  unfolding database_of find
  database_of_head name db server = ground (arith, text_eq_iff name name)

  module _ (out : Outside S) (migrated : Bool) where
    module _ (name : Text) (server : Server S) where
      filled_lem :
          (url : Text) (cleanups : List Cleanup)
          → let r =
              filled out migrated
                (record { url = url; name = name })
                cleanups
                ((name, out.blank) ∷ server) in
            (db : Database S) × (r.server ≡ (name, db) ∷ server) × (r.cleanups ≡ cleanups)
      unfolding filled database_of set_database find
      filled_lem url cleanups =
          let o = migrate out.run out.read out.fails out.files out.blank in
          let same = text_eq_iff name name in
          elim (Bool-cases migrated) [
            | inr empty ↦ (out.blank, ground arith, ground arith)
            | inl asked ↦ elim (Option-cases o.stop) [
              | inl done ↦ (o.database, ground (arith, same), ground (arith, same))
              | inr (stop, broken) ↦ (o.database, ground (arith, same), ground (arith, same))
            ]
          ]

      -- However the run ends, it leaves one new database, and a cleanup that drops it.
      connected_lem :
          (base : Text)
          → let r = connected out migrated base name ((name, out.blank) ∷ server) in
            (db : Database S) × (r.server ≡ (name, db) ∷ server)
            × (clean_up out r.cleanups r.server
                ≡ clean_up out (drop (quote_ident name) ∷ []) r.server)
      unfolding connected clean_up
      connected_lem base = elim (Option-cases (out.with_path base (b'/' ∷ name))) [
        | inl unparsed ↦ (out.blank, ground arith, ground arith)
        | inr (url, parsed) ↦
            let cleanups = close_pool ∷ drop (quote_ident name) ∷ close_admin ∷ [] in
            let (db, left, kept) = filled_lem url cleanups in
            elim (Bool-cases (out.opens url)) [
              | inl opened ↦ (db, ground arith, ground (arith, kept))
              | inr closed ↦ (out.blank, ground arith, ground arith)
            ]
      ]

    -- A creation stops before the server changes, or goes on from a new database.
    create_cases :
        (server : Server S)
        → let r = create out migrated server in
          ((r.server ≡ server)
            × (clean_up out r.cleanups server ≡ server)
            × ((d : Db) → r.ended ≢ made d))
          ⊎ ((base name : Text) × (exists (named name) server ≡ false)
              × (r ≡ connected out migrated base name ((name, out.blank) ∷ server)))
    unfolding create create_database clean_up
    create_cases server =
        let base = out.getenv (codes "DATABASE_URL") in
        elim (Bool-cases (text_eq base [] || not (out.opens base))) [
          | inl unset ↦ inl (ground arith, ground arith, λ d. ground arith)
          | inr answers ↦ elim (Option-cases out.random) [
            | inl exhausted ↦ inl (ground arith, ground arith, λ d. ground arith)
            | inr (bytes, drawn) ↦
                let name = codes "lcr_test_" ++ hex_text bytes in
                let quoted = read_ident-quote_ident name in
                elim (Bool-cases (not out.creates || exists (named name) server)) [
                  | inl refused ↦
                      inl (
                        ground (arith, quoted),
                        ground (arith, quoted),
                        λ d. ground (arith, quoted),
                      )
                  | inr free ↦ inr (base, name, ground arith, ground (arith, quoted))
                ]
          ]
        ]

    dropped :
        (name : Text) (db : Database S) (server : Server S)
        → exists (named name) server ≡ false
        → clean_up out (drop (quote_ident name) ∷ []) ((name, db) ∷ server)
          ≡ (if out.drops then server else (name, db) ∷ server)
    unfolding clean_up delete
    dropped name db server free =
        ground (
          arith,
          read_ident-quote_ident name,
          delete_absent name server free,
          text_eq_iff name name,
        )

    -- However the creation of a test's database ends, the databases of the server are as they were,
    -- but for at most one more, under a name that was free. The registered cleanups then leave the
    -- server as it was before the creation if it drops what it is told to, and as the creation left
    -- it if it does not.
    pub create_private :
        (server : Server S)
        → let r = create out migrated server in
          ((r.server ≡ server)
            ⊎ ((name : Text) × (db : Database S) × (database_of name server ≡ none)
                × (r.server ≡ (name, db) ∷ server)))
          × (clean_up out r.cleanups r.server ≡ (if out.drops then server else r.server))
    create_private server = elim (create_cases server) [
      | inl (same, undone, unmade) ↦ (inl same, ground arith)
      | inr (base, name, free, goes) ↦
          let (db, left, kept) = connected_lem name server base in
          (
            inr (name, db, database_of_absent name server free, ground (arith, left)),
            ground (arith, left, kept, dropped name db server free),
          )
    ]

  module _ (out : Outside S) where
    filled-made :
        (name url : Text) (server : Server S) (cleanups : List Cleanup) (d : Db)
        → let r =
            filled out true
              (record { url = url; name = name })
              cleanups
              ((name, out.blank) ∷ server) in
          r.ended ≡ made d
          → (d.name ≡ name)
            × (db : Database S) × (r.server ≡ (name, db) ∷ server)
            × AllRecorded db.versions (migration_names out.files)
    unfolding filled set_database
    filled-made name url server cleanups d h =
        let o = migrate out.run out.read out.fails out.files out.blank in
        let same = text_eq_iff name name in
        let found = database_of_head name out.blank server in
        elim (Option-cases o.stop) [
          | inl done ↦ (
            ground (arith, found),
            o.database,
            ground (arith, found, same),
            migrate-AllRecorded out.run out.read out.fails out.files out.blank done,
          )
          | inr (stop, broken) ↦ absurd (ground (arith, found))
        ]

    -- The database that New hands to a test was not on the server, and has every embedded migration
    -- recorded.
    pub new_migrated :
        (server : Server S) (d : Db)
        → (create out true server).ended ≡ made d
        → (database_of d.name server ≡ none)
          × (db : Database S) × (database_of d.name (create out true server).server ≡ some db)
          × AllRecorded db.versions (migration_names out.files)
    unfolding connected
    new_migrated server d h = elim (create_cases out true server) [
      | inl (same, undone, unmade) ↦ absurd (unmade d h)
      | inr (base, name, free, goes) ↦ elim (Option-cases (out.with_path base (b'/' ∷ name))) [
        | inl unparsed ↦ absurd (ground arith)
        | inr (url, parsed) ↦ elim (Bool-cases (out.opens url)) [
          | inr closed ↦ absurd (ground arith)
          | inl opened ↦
              let cleanups = close_pool ∷ drop (quote_ident name) ∷ close_admin ∷ [] in
              let (it, db, left, recorded) =
                filled-made name url server cleanups d (ground arith) in
              (
                ground (arith, database_of_absent name server free),
                db,
                ground (arith, left, database_of_head name db server),
                recorded,
              )
        ]
      ]
    ]
