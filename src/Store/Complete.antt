-- ===== src/Store/Complete.antt =====
-- `Store.CompleteLesson`: one transaction that appends the event and refreshes the projection,
-- then the read model of the enrollment.
pub mod Effect
pub mod Status
pub mod Views
pub mod Keeps
pub mod Succeeds
pub mod Retry
pub mod Refusals
pub mod History
use learning_center_referenc.Prelude.{
  ℕ, ◌*◌, String, Bool, true, false, Option, none, some, List, [], ◌∷◌, ◌==◌, ltb, leb,
  if◌then◌else◌, exists, find, update, is_some, not, ◌&&◌, ◌||◌, keyed,
}
use learning_center_referenc.Learning.{Uuid, Ordering, EnrollmentStatus, EnrollmentProgress}
use learning_center_referenc.Store.Result.{
  Err, not_found, forbidden, out_of_order, enrollment_withdrawn, failed, Result, ok, err, ◌>>=◌,
  ◌>>◌, require, guard, Env, attempt,
}
use learning_center_referenc.Store.Dashboard.{load_enrollment_progress}
use learning_center_referenc.Store.Schema.{
  Course, CourseModule, Lesson, Enrollment, Event, Progress, Db,
}
use learning_center_referenc.Store.Queries.{
  is_withdrawn, is_sequential, course_by, module_by, lesson_by, enrollment_by, progress_by, of_pair,
  total_lessons, completed_lessons, is_done, percent, derived_status,
}

-- The lesson's place: the ordering of its course and the positions of its module and itself.
pub record Place : Type 0 where
  pub ordering : Ordering
  pub module_position : ℕ
  pub lesson_position : ℕ

-- lesson l join module m join course c where l.id = $1 and c.id = $2
unfoldable pub lesson_place : Db → Uuid → Uuid → Option Place
lesson_place db lesson course = elim (lesson_by db lesson) [
  | none ↦ none
  | some l ↦ elim (module_by db l.module_id) [
    | none ↦ none
    | some m ↦ elim (course_by db m.course_id) [
      | none ↦ none
      | some c ↦
          if c.id == course
          then some (record {
            ordering = c.ordering;
            module_position = m.position;
            lesson_position = l.position;
          })
          else none
    ]
  ]
]

-- A lesson of the course that stands before the two positions.
unfoldable pub is_earlier : Db → Uuid → ℕ → ℕ → Lesson → Bool
is_earlier db course module_position lesson_position l = elim (module_by db l.module_id) [
  | none ↦ false
  | some m ↦
      m.course_id == course
      && (ltb m.position module_position
          || (m.position == module_position && ltb l.position lesson_position))
]

-- exists (an earlier lesson with no completion event of the enrollment)
unfoldable pub unfinished_earlier : Db → Uuid → Uuid → ℕ → ℕ → Bool
unfinished_earlier db enrollment course module_position lesson_position =
    exists
      (λ l.
        is_earlier db course module_position lesson_position l && not (is_done db enrollment l.id))
      db.lessons

-- The sequential check: passed at once by a course of open order.
unfoldable pub check_order : Env → Db → Uuid → Uuid → Place → Result (Unit {0})
check_order env db enrollment course p =
    if is_sequential p.ordering
    then (do
      attempt env "checking lesson order"
      guard (not (unfinished_earlier db enrollment course p.module_position p.lesson_position))
          out_of_order)
    else ok tt

-- insert ... on conflict (enrollment_id, lesson_id, event_type) do nothing
unfoldable pub insert_event : Env → Uuid → Uuid → Uuid → Db → Bool × Db
insert_event env enrollment lesson actor db =
    let present = is_done db enrollment lesson in
    (
      not present,
      record db {
        events =
            if present
            then db.events
            else record {
              enrollment_id = enrollment;
              lesson_id = lesson;
              actor_member_id = actor;
              occurred_at = env.db_now;
            }
              ∷ db.events;
      },
    )

-- The check constraints of enrollment_progress, and the int4 range of `completed * 100`.
unfoldable pub is_storable : ℕ → ℕ → Bool
is_storable done total =
    (total == 0 || ltb (done * 100) 2147483648) && leb (percent done total) 100 && leb done total

abbrev pub with_counts : ℕ → ℕ → Progress → Progress
with_counts done total p = record p {
  completed_lessons = done;
  total_lessons = total;
  percent_complete = percent done total;
}

-- The two counts, recomputed from their sources, written to the enrollment's projection row.
unfoldable pub projected : Uuid → Enrollment → Db → Db
projected enrollment e db =
    let done = completed_lessons db enrollment in
    let total = total_lessons db e.course_id in
    record db {
      progress =
          update (keyed (λ (p : Progress). p.enrollment_id) enrollment) (with_counts done total)
            db.progress;
    }

unfoldable pub project_completion : Uuid → Enrollment → Db → Result Db
project_completion enrollment e db =
    if is_some (progress_by db enrollment)
      && not (is_storable (completed_lessons db enrollment) (total_lessons db e.course_id))
    then err (failed "projecting completion")
    else ok (projected enrollment e db)

-- set status = s ... where e.status <> 'withdrawn'
abbrev pub with_status : EnrollmentStatus → Enrollment → Enrollment
with_status s e = record e { status = if is_withdrawn e.status then e.status else s }

-- The enrollment's status from its projection row; with no such row nothing is updated.
unfoldable pub update_status : Uuid → Db → Db
update_status enrollment db = record db {
  enrollments = elim (progress_by db enrollment) [
    | none ↦ db.enrollments
    | some p ↦
        update (keyed (λ (e : Enrollment). e.id) enrollment)
          (with_status (derived_status p.completed_lessons p.total_lessons)) db.enrollments
  ];
}

-- The transaction: whether an event was recorded, and the tables to commit.
unfoldable pub complete_tx : Env → Uuid → Uuid → Uuid → Db → Result (Bool × Db)
complete_tx env member enrollment lesson db = do
  attempt env "beginning completion"
  attempt env "loading enrollment"
  e ← require not_found (enrollment_by db enrollment)
  guard (e.member_id == member) forbidden
  guard (not (is_withdrawn e.status)) enrollment_withdrawn
  attempt env "loading lesson"
  p ← require not_found (lesson_place db lesson e.course_id)
  check_order env db enrollment e.course_id p
  attempt env "recording completion"
  let inserted = insert_event env enrollment lesson member db
  attempt env "projecting completion"
  projected ← project_completion enrollment e inserted.1
  attempt env "updating enrollment status"
  let db' = update_status enrollment projected
  attempt env "committing completion"
  ok (inserted.0, db')

unfoldable pub complete_lesson :
    Env → Uuid → Uuid → Uuid → Db → Db × Result (EnrollmentProgress × Bool)
complete_lesson env member enrollment lesson db =
    elim (complete_tx env member enrollment lesson db) [
      | err e ↦ (db, err e)
      | ok (recorded, db') ↦
          (db', (do p ← load_enrollment_progress env member enrollment db'; ok (p, recorded)))
    ]
