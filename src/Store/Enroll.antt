-- ===== src/Store/Enroll.antt =====
-- `Store.Enroll`: one transaction, then the read model of the enrollment.
pub mod Effect
pub mod Keeps
pub mod Retry
use learning_center_referenc.Prelude.{
  ℕ, String, Bool, true, false, Option, none, some, List, [], ◌∷◌, ◌==◌, if◌then◌else◌, exists,
  find, is_some, not,
}
use learning_center_referenc.Learning.{Uuid, active, EnrollmentProgress}
use learning_center_referenc.Store.Result.{
  Err, not_found, failed, Result, ok, err, ◌>>=◌, ◌>>◌, require, guard, Env, attempt,
}
use learning_center_referenc.Store.Dashboard.{load_enrollment_progress}
use learning_center_referenc.Store.Schema.{Course, Enrollment, Progress, Db}
use learning_center_referenc.Store.Queries.{
  is_published, member_by, course_by, enrollment_by, progress_by, for_pair, total_lessons,
}

-- The lesson count of a published course.
unfoldable pub published_lesson_count : Db → Uuid → Result ℕ
published_lesson_count db c = do
  course ← require not_found (course_by db c)
  guard (is_published course.status) not_found
  ok (total_lessons db c)

abbrev pub new_enrollment : Env → Uuid → Uuid → Enrollment
new_enrollment env member course = record {
  id = env.fresh;
  member_id = member;
  course_id = course;
  status = active;
  enrolled_at = env.db_now;
}

-- insert ... on conflict (member_id, course_id) do nothing: whether a row was inserted. The id is
-- a primary key, and the member is a foreign key.
unfoldable pub insert_enrollment : Env → Uuid → Uuid → Db → Result (Bool × Db)
insert_enrollment env member course db =
    if exists (for_pair member course) db.enrollments then ok (false, db) else (do
      guard (not (is_some (enrollment_by db env.fresh))) (failed "creating enrollment")
      guard (is_some (member_by db member)) (failed "creating enrollment")
      ok (true, record db { enrollments = new_enrollment env member course ∷ db.enrollments }))

-- insert ... on conflict (enrollment_id) do nothing
unfoldable pub insert_progress : Uuid → ℕ → Db → Db
insert_progress enrollment lesson_count db = record db {
  progress = elim (progress_by db enrollment) [
    | some _ ↦ db.progress
    | none ↦
        record {
          enrollment_id = enrollment;
          completed_lessons = 0;
          total_lessons = lesson_count;
          percent_complete = 0;
        }
        ∷ db.progress
  ];
}

-- The transaction: the enrollment's id, whether it is new, and the tables to commit. An error
-- rolls back.
unfoldable pub enroll_tx : Env → Uuid → Uuid → Db → Result (Uuid × Bool × Db)
enroll_tx env member course db = do
  attempt env "beginning enrollment"
  attempt env "loading course"
  lesson_count ← published_lesson_count db course
  attempt env "creating enrollment"
  (created, db') ← insert_enrollment env member course db
  attempt env "loading enrollment"
  e ← require (failed "loading enrollment") (find (for_pair member course) db'.enrollments)
  attempt env "initializing progress"
  let db'' = insert_progress e.id lesson_count db'
  attempt env "committing enrollment"
  ok (e.id, created, db'')

-- The tables afterwards, and what the call returns: the read model is loaded after the commit.
unfoldable pub enroll : Env → Uuid → Uuid → Db → Db × Result (EnrollmentProgress × Bool)
enroll env member course db = elim (enroll_tx env member course db) [
  | err e ↦ (db, err e)
  | ok (id, created, db') ↦
      (db', (do p ← load_enrollment_progress env member id db'; ok (p, created)))
]
