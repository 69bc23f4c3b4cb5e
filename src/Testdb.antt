-- ===== src/Testdb.antt =====
-- api/internal/testdb/testdb.go: a private database for each test. A server is its databases by
-- their names; a cleanup that a test registers is a value, and the last one registered runs first.
pub mod Private
use learning_center_referenc.Prelude.{
  ℕ, ◌+◌, ◌-◌, ◌/◌, ◌%◌, String, Bool, true, false, ◌||◌, not, Option, none, some, List, [], ◌∷◌,
  ◌++◌, ltb, ◌==◌, if◌then◌else◌, Text, codes, text_eq, find, exists, delete,
}
use learning_center_referenc.Dbsetup.{Database, migrate, apply_seed}

abbrev pub Server : Type 0 → Type 0
Server S = List (Text × Database S)

-- What a test finds outside: the environment, which URLs a pool opens on, the six random bytes, the
-- URL with another path, what a statement of the administrator meets, a database just created, and
-- what a migration meets.
pub record Outside (S : Type 0) : Type 0 where
  pub getenv : Text → Text
  pub opens : Text → Bool
  pub random : Option (List ℕ)
  pub with_path : (url path : Text) → Option Text
  pub creates : Bool
  pub drops : Bool
  pub blank : Database S
  pub files : List Text
  pub read : Text → Option Text
  pub read_file : Text → Option Text
  pub run : Text → S → Option S
  pub fails : String → Text → Bool

pub record Db : Type 0 where
  pub url : Text
  pub name : Text

-- The calls of t.Cleanup.
pub data Cleanup : Type 0 where
  close_admin : Cleanup
  drop : (ident : Text) → Cleanup
  close_pool : Cleanup

-- How `create` ends: by t.Skip, by a panic, by t.Fatalf with its message, or with a database.
pub data Ended : Type 0 where
  skipped panicked : Ended
  fatal : String → Ended
  made : Db → Ended

pub record Run (S : Type 0) : Type 0 where
  pub server : Server S
  pub cleanups : List Cleanup
  pub ended : Ended

abbrev hex_digit : ℕ → ℕ
hex_digit d = if ltb d 10 then b'0' + d else b'a' + (d - 10)

-- hex.EncodeToString
unfoldable pub hex_text : List ℕ → Text
hex_text [] = []
hex_text (b ∷ bytes) = hex_digit (b / 16) ∷ hex_digit (b % 16) ∷ hex_text bytes

-- strings.ReplaceAll(name, `"`, `""`)
unfoldable pub doubled : Text → Text
doubled [] = []
doubled (c ∷ s) = let rest = doubled s in if c == b'"' then c ∷ c ∷ rest else c ∷ rest

unfoldable pub quote_ident : Text → Text
quote_ident name = b'"' ∷ (doubled name ++ b'"' ∷ [])

abbrev preceded : ℕ → Option Text → Option Text
preceded c none = none
preceded c (some s) = some (c ∷ s)

-- A quoted identifier as SQL spells it, read from behind its first quote; the test says whether
-- the character before was a quote that ends it or is doubled.
unfoldable pub unquoted : Bool → Text → Option Text
unquoted false [] = none
unquoted true [] = some []
unquoted false (c ∷ s) =
    let ends = unquoted true s in
    let rest = unquoted false s in if c == b'"' then ends else preceded c rest
unquoted true (c ∷ s) = let rest = unquoted false s in if c == b'"' then preceded c rest else none

unfoldable pub read_ident : Text → Option Text
read_ident [] = none
read_ident (c ∷ s) = if c == b'"' then unquoted false s else none

abbrev pub named : {S : Type 0} → Text → Text × Database S → Bool
named name entry = text_eq entry.0 name

unfoldable pub database_of : {S : Type 0} → Text → Server S → Option (Database S)
database_of name server = elim (find (named name) server) [ none ↦ none | some e ↦ some e.1 ]

unfoldable pub set_database : {S : Type 0} → Text → Database S → Server S → Server S
set_database name db [] = []
set_database name db (e ∷ server) =
    let rest = set_database name db server in if named name e then (name, db) ∷ server else e ∷ rest

module _ {S : Type 0} (out : Outside S) where
  -- create database: the name must be free.
  unfoldable pub create_database : Text → Server S → Option (Server S)
  create_database ident server = elim (read_ident ident) [
    | none ↦ none
    | some name ↦
        if not out.creates || exists (named name) server
        then none
        else some ((name, out.blank) ∷ server)
  ]

  -- drop database if exists ... with (force): an error is reported, and the next cleanup runs.
  unfoldable pub clean_up : List Cleanup → Server S → Server S
  clean_up [] server = server
  clean_up (close_admin ∷ rest) server = clean_up rest server
  clean_up (close_pool ∷ rest) server = clean_up rest server
  clean_up (drop ident ∷ rest) server = clean_up rest (elim (read_ident ident) [
    | none ↦ server
    | some name ↦ if out.drops then delete (named name) server else server
  ])

  -- The last steps, on the open pool: the migrations, if they are asked for.
  unfoldable pub filled : Bool → Db → List Cleanup → Server S → Run S
  filled migrated d cleanups server =
      let done : Run S = record { server = server; cleanups = cleanups; ended = made d } in
      if not migrated then done else elim (database_of d.name server) [
        | none ↦ record done { ended = fatal "migrate" }
        | some db ↦
            let o = migrate out.run out.read out.fails out.files db in
            let left : Run S = record done { server = set_database d.name o.database server } in
            elim o.stop [ none ↦ left | some stop ↦ record left { ended = fatal "migrate" } ]
      ]

  -- From the created database on.
  unfoldable pub connected : Bool → (base name : Text) → Server S → Run S
  connected migrated base name server =
      let cleanups = drop (quote_ident name) ∷ close_admin ∷ [] in
      let stopped : String → Run S =
        λ message. record { server = server; cleanups = cleanups; ended = fatal message } in
      elim (out.with_path base (b'/' ∷ name)) [
        | none ↦ stopped "parse DATABASE_URL"
        | some url ↦
            let opened =
              filled migrated (record { url = url; name = name }) (close_pool ∷ cleanups) server in
            if not (out.opens url) then stopped "connect to" else opened
      ]

  -- New is `create true`, NewEmpty is `create false`.
  unfoldable pub create : Bool → Server S → Run S
  create migrated server =
      let stopped : List Cleanup → Ended → Run S =
        λ cleanups ended. record { server = server; cleanups = cleanups; ended = ended } in
      let base = out.getenv (codes "DATABASE_URL") in
      if text_eq base []
      then stopped [] skipped
      else if not (out.opens base)
      then stopped [] (fatal "connect")
      else elim out.random [
        | none ↦ stopped (close_admin ∷ []) panicked
        | some bytes ↦
            let name = codes "lcr_test_" ++ hex_text bytes in
            elim (create_database (quote_ident name) server) [
              | none ↦ stopped (close_admin ∷ []) (fatal "create database")
              | some server' ↦ connected migrated base name server'
            ]
      ]

  -- DB.Seed: the server afterwards, and the message of a t.Fatalf.
  unfoldable pub seed : (path : Text) → Db → Server S → Server S × Option String
  seed path d server = elim (out.read_file path) [
    | none ↦ (server, some "read seed")
    | some sql ↦ elim (database_of d.name server) [
      | none ↦ (server, some "seed")
      | some db ↦ elim (apply_seed out.run out.fails sql db) [
        | none ↦ (server, some "seed")
        | some db' ↦ (set_database d.name db' server, none)
      ]
    ]
  ]
