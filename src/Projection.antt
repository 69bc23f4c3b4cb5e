-- ===== src/Projection.antt =====
-- api/internal/projection/reconcile.go: the comparison of every enrollment's projection with its
-- events, and the repair. Also the exit code of api/cmd/reconcileprogress.
pub mod Repair
pub mod Reports
pub mod Sound
pub mod Commits
pub mod Keeps
use learning_center_referenc.Prelude.{
  ℕ, ◌*◌, String, Bool, true, false, not, ◌&&◌, ◌||◌, Option, none, some, List, [], ◌∷◌, map,
  length, ◌==◌, ltb, if◌then◌else◌, exists, where_, update, keyed, is_some, sort_by,
}
use learning_center_referenc.Learning.{Uuid, EnrollmentStatus, active, completed, withdrawn}
use learning_center_referenc.Store.Result.{
  Err, failed, Result, ok, err, ◌>>=◌, ◌>>◌, guard, Env, attempt,
}
use learning_center_referenc.Store.Schema.{Enrollment, Progress, Db}
use learning_center_referenc.Store.Queries.{
  is_withdrawn, progress_by, total_lessons, completed_lessons, percent, derived_status,
}
use learning_center_referenc.Store.Dashboard.{enrolled_leb}
use learning_center_referenc.Store.Complete.{is_storable}

pub record Counts : Type 0 where
  pub completed_lessons : ℕ
  pub total_lessons : ℕ
  pub percent_complete : ℕ
  pub status : EnrollmentStatus

pub record Drift : Type 0 where
  pub enrollment_id : Uuid
  pub projected : Counts
  pub is_missing : Bool
  pub expected : Counts

pub record Report : Type 0 where
  pub checked : ℕ
  pub drifted : List Drift
  pub is_applied : Bool

-- coalesce(ep.completed_lessons, 0), coalesce(ep.total_lessons, 0), ..., e.status
unfoldable pub projected_counts : Db → Enrollment → Counts
projected_counts db e =
    let p = progress_by db e.id in
    record {
      completed_lessons = elim p [ none ↦ 0 | some x ↦ x.completed_lessons ];
      total_lessons = elim p [ none ↦ 0 | some x ↦ x.total_lessons ];
      percent_complete = elim p [ none ↦ 0 | some x ↦ x.percent_complete ];
      status = e.status;
    }

unfoldable pub expected_counts : Db → Enrollment → Counts
expected_counts db e =
    let done = completed_lessons db e.id in
    let total = total_lessons db e.course_id in
    record {
      completed_lessons = done;
      total_lessons = total;
      percent_complete = percent done total;
      status = if is_withdrawn e.status then withdrawn else derived_status done total;
    }

-- One row of the query.
unfoldable pub drift_of : Db → Enrollment → Drift
drift_of db e = record {
  enrollment_id = e.id;
  projected = projected_counts db e;
  is_missing = not (is_some (progress_by db e.id));
  expected = expected_counts db e;
}

abbrev pub status_eq : EnrollmentStatus → EnrollmentStatus → Bool
status_eq active active = true
status_eq completed completed = true
status_eq withdrawn withdrawn = true
status_eq _ _ = false

unfoldable pub counts_eq : Counts → Counts → Bool
counts_eq a b =
    a.completed_lessons == b.completed_lessons
    && (a.total_lessons == b.total_lessons
        && (a.percent_complete == b.percent_complete && status_eq a.status b.status))

-- d.Missing || d.Projected != d.Expected
unfoldable pub is_drifted : Drift → Bool
is_drifted d = d.is_missing || not (counts_eq d.projected d.expected)

-- `completed * 100` leaves the range of int4.
unfoldable pub overflows : Db → Enrollment → Bool
overflows db e =
    not (total_lessons db e.course_id == 0)
    && not (ltb (completed_lessons db e.id * 100) 2147483648)

-- The rows of the query, order by e.enrolled_at, e.id.
unfoldable pub query_rows : Db → List Drift
query_rows db = map (drift_of db) (sort_by enrolled_leb db.enrollments)

unfoldable pub drifted_rows : Db → List Drift
drifted_rows db = where_ is_drifted (query_rows db)

abbrev pub progress_of : Drift → Progress
progress_of d = record {
  enrollment_id = d.enrollment_id;
  completed_lessons = d.expected.completed_lessons;
  total_lessons = d.expected.total_lessons;
  percent_complete = d.expected.percent_complete;
}

-- insert into enrollment_progress ... on conflict (enrollment_id) do update
unfoldable pub upsert : Drift → Db → Db
upsert d db = record db {
  progress =
      if is_some (progress_by db d.enrollment_id)
      then update (keyed (λ (p : Progress). p.enrollment_id) d.enrollment_id)
          (λ p. record p {
            completed_lessons = d.expected.completed_lessons;
            total_lessons = d.expected.total_lessons;
            percent_complete = d.expected.percent_complete;
          })
          db.progress
      else progress_of d ∷ db.progress;
}

abbrev pub set_status : EnrollmentStatus → Enrollment → Enrollment
set_status s e = record e { status = s }

-- update enrollment set status = $2 where id = $1
unfoldable pub restatus : Drift → Db → Db
restatus d db = record db {
  enrollments =
      update (keyed (λ (e : Enrollment). e.id) d.enrollment_id) (set_status d.expected.status)
        db.enrollments;
}

-- The loop over the drifted rows. The check constraints hold for what the upsert writes.
unfoldable pub repair_each : Env → List Drift → Db → Result Db
repair_each env [] db = ok db
repair_each env (d ∷ ds) db =
    let rest = repair_each env ds (restatus d (upsert d db)) in
    (do
      attempt env "rebuilding projection"
      guard (is_storable d.expected.completed_lessons d.expected.total_lessons)
          (failed "rebuilding projection")
      attempt env "updating status"
      rest)

unfoldable pub report_of : Bool → Db → Report
report_of apply db = record {
  checked = length (query_rows db);
  drifted = drifted_rows db;
  is_applied = apply;
}

abbrev lock_all : Env → Bool → Result (Unit {0})
lock_all env apply = if apply then attempt env "locking enrollments" else ok tt

abbrev pub is_empty : List Drift → Bool
is_empty [] = true
is_empty (_ ∷ _) = false

-- From the report on: a run that repairs nothing rolls back.
unfoldable pub finish : Env → Bool → Db → Result (Report × Db)
finish env apply db =
    if not apply || is_empty (drifted_rows db) then ok (report_of apply db, db) else (do
      db' ← repair_each env (drifted_rows db) db
      attempt env "committing reconcile"
      ok (report_of apply db, db'))

-- The transaction: the report, and the tables to commit.
unfoldable pub reconcile_tx : Env → Bool → Db → Result (Report × Db)
reconcile_tx env apply db = do
  attempt env "beginning reconcile"
  lock_all env apply
  attempt env "computing expected progress"
  guard (not (exists (overflows db) db.enrollments)) (failed "computing expected progress")
  attempt env "scanning expected progress"
  attempt env "iterating expected progress"
  finish env apply db

unfoldable pub reconcile : Env → Bool → Db → Db × Result Report
reconcile env apply db = elim (reconcile_tx env apply db) [
  | err e ↦ (db, err e)
  | ok (report, db') ↦ (db', ok report)
]

-- The exit code of the command after a run without error: 3 for drift that was not applied.
unfoldable pub exit_code : Report → ℕ
exit_code r = if not (is_empty r.drifted) && not r.is_applied then 3 else 0
