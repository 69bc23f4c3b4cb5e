-- ===== src/Store/Invariant.antt =====
-- What holds of the tables between two operations. The schema enforces a part of it; the rest is
-- kept by the code.
use learning_center_referenc.Prelude.{
  ◌≡◌, Bool, true, false, ◌&&◌, some, List, map, Distinct, ◌==◌, if◌then◌else◌, exists, where_,
  is_some,
}
use learning_center_referenc.Learning.{Uuid, EnrollmentStatus}
use learning_center_referenc.Store.Schema.{Enrollment, Progress, Db}
use learning_center_referenc.Store.Queries.{
  is_withdrawn, is_sequential, enrollment_by, progress_by, in_course, of_enrollment, total_lessons,
  completed_lessons, is_done, percent, derived_status,
}
use learning_center_referenc.Store.Complete.{Place, lesson_place, unfinished_earlier}

-- A lesson of the course has this id.
unfoldable pub lesson_in : Db → Uuid → Uuid → Bool
lesson_in db course lesson = exists (λ l. l.id == lesson && in_course db course l) db.lessons

-- The lessons that an enrollment has completed.
abbrev pub lessons_done : Db → Uuid → List Uuid
lessons_done db e = map (λ ev. ev.lesson_id) (where_ (of_enrollment e) db.events)

abbrev pub enrollment_ids : Db → List Uuid
enrollment_ids db = map (λ (e : Enrollment). e.id) db.enrollments

abbrev pub progress_ids : Db → List Uuid
progress_ids db = map (λ (p : Progress). p.enrollment_id) db.progress

pub record WellFormed (db : Db) : Type 0 where
  pub enrollment_keys : Distinct (enrollment_ids db)
  pub progress_keys : Distinct (progress_ids db)
  pub done_once : (e : Uuid) → Distinct (lessons_done db e)
  pub done_owned : (e l : Uuid) → is_done db e l ≡ true → is_some (enrollment_by db e) ≡ true
  pub done_in_course :
      (e l : Uuid) (r : Enrollment)
      → enrollment_by db e ≡ some r
      → is_done db e l ≡ true
      → lesson_in db r.course_id l ≡ true
  pub progress_owned :
      (e : Uuid) → is_some (progress_by db e) ≡ true → is_some (enrollment_by db e) ≡ true

-- The projection row that the event log and the course's lessons give.
unfoldable pub expected_progress : Db → Enrollment → Progress
expected_progress db e =
    let done = completed_lessons db e.id in
    let total = total_lessons db e.course_id in
    record {
      enrollment_id = e.id;
      completed_lessons = done;
      total_lessons = total;
      percent_complete = percent done total;
    }

unfoldable pub expected_status : Db → Enrollment → EnrollmentStatus
expected_status db e =
    if is_withdrawn e.status
    then e.status
    else derived_status (completed_lessons db e.id) (total_lessons db e.course_id)

-- Every enrollment has the projection row and the status that its events give.
pub record Synced (db : Db) : Type 0 where
  pub row :
      (e : Uuid) (r : Enrollment)
      → enrollment_by db e ≡ some r
      → progress_by db e ≡ some (expected_progress db r)
  pub status :
      (e : Uuid) (r : Enrollment) → enrollment_by db e ≡ some r → r.status ≡ expected_status db r

-- In a sequential course a lesson is completed only after every earlier one.
abbrev pub InOrder : Db → Type 0
InOrder db =
    (e l : Uuid) (r : Enrollment) (p : Place)
    → enrollment_by db e ≡ some r
    → is_done db e l ≡ true
    → lesson_place db l r.course_id ≡ some p
    → is_sequential p.ordering ≡ true
    → unfinished_earlier db e r.course_id p.module_position p.lesson_position ≡ false

pub record Inv (db : Db) : Type 0 where
  pub formed : WellFormed db
  pub synced : Synced db
  pub ordered : InOrder db
