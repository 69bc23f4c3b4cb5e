-- ===== src/Wiring.antt =====
-- api/cmd/server/main.go: the store behind the router's dependencies, and requests served one after
-- the other. An id arrives as text, which the database casts to a uuid: `cast` is that parameter.
-- The handlers pass on only texts that match uuidRe; were a cast to fail, so would the query.
pub mod Keeps
pub mod SignedIn
use learning_center_referenc.Prelude.{ℕ, Bool, Option, none, some, Text}
use learning_center_referenc.Learning.{Uuid, Member, EnrollmentProgress, Dashboard}
use learning_center_referenc.Safeguarding.{Inputs}
use learning_center_referenc.Authn.{Verdict, Claims, subject_of}
use learning_center_referenc.Store.Result.{Err, failed, Result, ok, err, Env}
use learning_center_referenc.Store.Schema.{Db}
use learning_center_referenc.Store.Dashboard.{resolve_member_by_subject, load_dashboard}
use learning_center_referenc.Store.Catalog.{list_published_courses}
use learning_center_referenc.Store.Compliance.{
  load_safeguarding_inputs, load_member_credentials, list_compliance,
}
use learning_center_referenc.Store.Enroll.{enroll}
use learning_center_referenc.Store.Complete.{complete_lesson}
use learning_center_referenc.Boot.{Served}
use learning_center_referenc.Httpapi.Deps.{LearningStore, Deps}

module _ (cast : Text → Option Uuid) where
  abbrev on_enroll : Env → Uuid → Option Uuid → Db → Db × Result (EnrollmentProgress × Bool)
  on_enroll env m none db = (db, err (failed "loading course"))
  on_enroll env m (some course) db = enroll env m course db

  abbrev on_complete :
      Env → Uuid → Option Uuid → Option Uuid → Db → Db × Result (EnrollmentProgress × Bool)
  on_complete env m none l db = (db, err (failed "loading enrollment"))
  on_complete env m (some e) none db = (db, err (failed "loading lesson"))
  on_complete env m (some e) (some l) db = complete_lesson env m e l db

  abbrev on_inputs : Env → Option Uuid → Db → Result Inputs
  on_inputs env none db = err (failed "looking up member")
  on_inputs env (some m) db = load_safeguarding_inputs env m db

  unfoldable pub learning_store : Env → LearningStore Db
  learning_store env = record {
    list_published_courses = list_published_courses env;
    enroll = λ m course db. on_enroll env m (cast course) db;
    complete_lesson = λ m e l db. on_complete env m (cast e) (cast l) db;
    load_dashboard = load_dashboard env;
    list_compliance = list_compliance env;
  }

  -- What main puts into the dependencies when a database is configured.
  unfoldable pub wired : Env → (Text → Verdict Claims) → Bool → ℕ → Bool → ℕ → Deps Db
  wired env verify pings rate_limit trust_proxy max_concurrent = record {
    eligibility = some (λ id db. on_inputs env (cast id) db);
    credentials = some (load_member_credentials env);
    identity = some (resolve_member_by_subject env);
    learning = some (learning_store env);
    auth = some (λ raw. subject_of (verify raw));
    service_auth = some verify;
    db = some (λ db. pings);
    rate_limit_per_minute = rate_limit;
    trust_proxy = trust_proxy;
    max_concurrent_requests = max_concurrent;
  }

  -- The dependencies that main passes to NewRouter.
  unfoldable pub deps_of : Env → Bool → Served → Deps Db
  deps_of env pings s = elim s.pool [
    | some pool ↦ wired env s.verify pings s.rate_limit s.trust_proxy s.max_concurrent
    | none ↦ record {
      eligibility = none;
      credentials = none;
      identity = none;
      learning = none;
      auth = some (λ raw. subject_of (s.verify raw));
      service_auth = some s.verify;
      db = none;
      rate_limit_per_minute = s.rate_limit;
      trust_proxy = s.trust_proxy;
      max_concurrent_requests = s.max_concurrent;
    }
  ]
