-- ===== src/Tests/Fixtures.antt =====
-- A sequential course with two lessons, one learner, and the tables before and after the learner's
-- enrollment and completions.
use learning_center_referenc.Prelude.{
  ◌≡◌, refl, ◌<◌, ◌*◌, true, false, some, [], ◌∷◌, codes, find, exists, count, update, where_,
  delete, arith,
}
use learning_center_referenc.Learning.{sequential, active}
use learning_center_referenc.Store.Result.{Env, ok, Healthy}
use learning_center_referenc.Store.Schema.{published, Enrollment, Db}
use learning_center_referenc.Store.Queries.{
  in_course, total_lessons, completed_lessons, is_done, percent, derived_status,
}
use learning_center_referenc.Store.Enroll.{
  published_lesson_count, insert_enrollment, insert_progress, enroll_tx, enroll,
}
use learning_center_referenc.Store.Complete.{
  lesson_place, is_earlier, unfinished_earlier, check_order, insert_event, is_storable, projected,
  project_completion, update_status, complete_tx, complete_lesson,
}
use learning_center_referenc.Store.Invariant.{Inv}
use learning_center_referenc.Store.Enroll.Keeps.{enroll_tx-Inv}
use learning_center_referenc.Store.Complete.Keeps.{complete_tx-Inv}
use learning_center_referenc.Machine.{IsFresh, IsFresh-Inv}

-- Everything that a run of the store computes.
unfoldable pub program : Unit {0}
unfolding find exists count update where_ delete in_course total_lessons completed_lessons is_done
    percent derived_status published_lesson_count insert_enrollment insert_progress enroll_tx enroll
    lesson_place is_earlier unfinished_earlier check_order insert_event is_storable projected
    project_completion update_status complete_tx complete_lesson
program = tt

abbrev pub env : Env
env = record { now = 1000; db_now = 1000; fresh = 100; fails = λ step. false }

pub env-Healthy : Healthy env
env-Healthy step = refl

abbrev pub fresh_db : Db
fresh_db = record {
  members =
      record {
        id = 1;
        auth_subject = some (codes "demo|learner");
        display_name = "Ada";
        association_id = some 0xaa;
      }
      ∷ [];
  member_roles = record { member_id = 1; role = "learner" } ∷ [];
  courses =
      record {
        id = 10;
        title = "Safe play";
        slug = "safe-play";
        ordering = sequential;
        status = published;
      }
      ∷ [];
  modules = record { id = 20; course_id = 10; position = 1 } ∷ [];
  lessons =
      record { id = 31; module_id = 20; title = "One"; lesson_type = "text"; position = 1 }
      ∷ record { id = 32; module_id = 20; title = "Two"; lesson_type = "text"; position = 2 }
      ∷ [];
  enrollments = [];
  events = [];
  progress = [];
  background_checks = [];
  trainings = [];
  holds = [];
  credentials = [];
}

abbrev pub enrollment : Enrollment
enrollment = record { id = 100; member_id = 1; course_id = 10; status = active; enrolled_at = 1000 }

abbrev pub enrolled_db : Db
enrolled_db = record fresh_db {
  enrollments = enrollment ∷ [];
  progress =
      record { enrollment_id = 100; completed_lessons = 0; total_lessons = 2; percent_complete = 0 }
      ∷ [];
}

-- The tables after the first lesson.
abbrev pub half_db : Db
half_db = record enrolled_db {
  events =
      record { enrollment_id = 100; lesson_id = 31; actor_member_id = 1; occurred_at = 1000 } ∷ [];
  progress =
      record {
        enrollment_id = 100;
        completed_lessons = 1;
        total_lessons = 2;
        percent_complete = 50;
      }
      ∷ [];
}

pub enroll_run : enroll_tx env 1 10 fresh_db ≡ ok (100, true, enrolled_db)
unfolding program
enroll_run = refl

pub complete_run : complete_tx env 1 100 31 enrolled_db ≡ ok (true, half_db)
unfolding program
complete_run = refl

pub fresh_db-IsFresh : IsFresh fresh_db
fresh_db-IsFresh = record { no_enrollments = refl; no_events = refl; no_progress = refl }

pub fresh_db-Inv : Inv fresh_db
fresh_db-Inv = IsFresh-Inv fresh_db fresh_db-IsFresh

pub enrolled_db-Inv : Inv enrolled_db
enrolled_db-Inv = enroll_tx-Inv env 1 10 fresh_db 100 true enrolled_db fresh_db-Inv enroll_run

pub half_db-Inv : Inv half_db
half_db-Inv = complete_tx-Inv env 1 100 31 enrolled_db true half_db enrolled_db-Inv complete_run

pub course_bound : total_lessons enrolled_db 10 * 100 < 2147483648
unfolding program
course_bound = ground arith
