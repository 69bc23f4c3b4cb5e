-- ===== src/Lib.antt =====
-- Verification of the Learning Center API, the Go service under api/.
--
-- The program. A PostgreSQL database holds members, courses, enrollments and safeguarding records.
-- The store (api/internal/store) reads and writes it; the rules of eligibility
-- (api/internal/safeguarding) and the credentials contract (api/internal/credentials) are pure
-- functions of what it reads. Two maintenance commands rebuild the progress projection
-- (api/internal/projection) and reset the demo (api/internal/demoreset), a runner applies the
-- migrations (api/internal/dbsetup). The router (api/internal/httpapi) authenticates requests
-- (api/internal/authn), authorizes them by role or scope, limits them, and calls the store. The
-- server (api/cmd/server) reads its settings, opens the database, migrates and seeds it, chooses
-- the verifier of tokens and serves the router over a pool of connections. For local use, an
-- identity provider with two fictional members (api/cmd/oidcfixture) signs tokens.
--
-- The files.
--   Prelude: names shared by all files, rows of a table as lists, sorting, texts as code points.
--   Clock: instants, in nanoseconds since Go's zero time; durations in int64; the date formats.
--   Learning, Safeguarding, Credentials, Authn: the packages of these names.
--   Store: Schema has the tables, Result the errors and the environment, Queries the shared
--   selects, Enroll, Complete, Dashboard, Catalog and Compliance the operations of store.go,
--   Connect the opening of a pool, Invariant what holds between two operations. Spec is an
--   abstract store: which tickets (enrollments) there are and which lessons each has done, with
--   neither projection rows nor statuses.
--   Projection, Demoreset, Dbsetup: Reconcile, Reset and Migrate; Demoreset/Command is
--   api/cmd/resetdemo.
--   Machine: steps of enrollments, completions, reconciliations and resets, and what they reach.
--   Httpapi: RateLimit, Concurrency and Clients are the limits, Handlers and Router the routes,
--   Serve the chain of middleware, Deps the interface to the store and the verifiers.
--   RateLimit/Reference is a limiter that keeps every client's window and never sweeps.
--   Config, Boot, Wiring: api/cmd/server/main.go, its settings, the order of its start, and the
--   store behind the router.
--   Jwt: signing a token, with its JSON and base64. Fixture: the identity provider, its handlers and
--   its routes.
--   Testdb: api/internal/testdb, the private database of a test.
--   Tests: runs on small inputs, and each result applied to one.
--
-- How it is modelled. An operation of the store is a function on the tables; a transaction returns
-- the tables to commit or an error, and an error leaves the tables as they were. Two transactions
-- that lock the same rows run one after the other, so a history is a sequence of operations. The
-- record `Env` holds what an operation meets: the two clocks, the id that the database generates,
-- and which steps it fails, by the name that the code gives the step. A step may fail in the model
-- where it could not in the code; no result depends on that. A commit that fails is taken to have
-- rolled back. The SQL is read as functions on lists of rows: a select by key is a search, a join
-- along a primary key a lookup, `on conflict do nothing` a test; a new row comes first, and
-- nothing reads the order of a table except through a sort. The tables have the columns that the
-- code reads; columns restricted to a few words are data types. Uuids and positions are numbers,
-- since the code only compares them. The int4 arithmetic of `completed * 100` is written out; a
-- result that needs it to stay in range says so. A count that a query casts to int4 is taken to fit.
--
-- Loops are structural recursion over lists. Only the decimal digits of a number use fuel, the
-- number plus one, and a number has at most that many digits.
--
-- A token is signed by a parameter, as are the digest and the random bytes: `Crypto` and the
-- `Env` of Fixture/Handlers hold what crypto/rsa, crypto/sha256 and crypto/rand answer. The driver
-- of the database is one too: what pgxpool and a query answer is a function in `Driver`.
--
-- Not modelled: path matching (chi), the JSON of the API's responses, logging, the pool's own
-- connections, contexts and timeouts, the verification of a token by go-oidc (a parameter),
-- net.ParseIP, net.SplitHostPort and url.Parse (parameters), the markup of the login page,
-- listening, signals and shutdown of the two servers, and the web client.
pub mod Prelude
pub mod Clock
pub mod Learning
pub mod Safeguarding
pub mod Credentials
pub mod Store
pub mod Demoreset
pub mod Dbsetup
pub mod Machine
pub mod Projection
pub mod Httpapi
pub mod Wiring
pub mod Authn
pub mod Config
pub mod Jwt
pub mod Fixture
pub mod Boot
pub mod Testdb
pub mod Tests
