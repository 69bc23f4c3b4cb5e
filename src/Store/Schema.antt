-- ===== src/Store/Schema.antt =====
-- The tables that store.go reads and writes (api/migrations/0001 to 0006). Columns that no code
-- reads are left out (created_at, updated_at, reason, date_of_birth, ...). A position is only
-- compared, so a number stands for it. `date` columns are instants at midnight UTC, as the driver
-- delivers them.
use learning_center_referenc.Prelude.{ℕ, String, Option, List, Text}
use learning_center_referenc.Clock.{Instant}
use learning_center_referenc.Learning.{Uuid, Ordering, EnrollmentStatus}
use learning_center_referenc.Credentials.{RoleCredential}

pub record MemberRow : Type 0 where
  pub id : Uuid
  pub auth_subject : Option Text
  pub display_name : String
  pub association_id : Option Uuid

pub record MemberRole : Type 0 where
  pub member_id : Uuid
  pub role : String

pub data CourseStatus : Type 0 where
  draft published archived : CourseStatus

pub record Course : Type 0 where
  pub id : Uuid
  pub title : String
  pub slug : String
  pub ordering : Ordering
  pub status : CourseStatus

pub record CourseModule : Type 0 where
  pub id : Uuid
  pub course_id : Uuid
  pub position : ℕ

pub record Lesson : Type 0 where
  pub id : Uuid
  pub module_id : Uuid
  pub title : String
  pub lesson_type : String
  pub position : ℕ

pub record Enrollment : Type 0 where
  pub id : Uuid
  pub member_id : Uuid
  pub course_id : Uuid
  pub status : EnrollmentStatus
  pub enrolled_at : Instant

-- `event_type` has the one value 'lesson_completed'.
pub record Event : Type 0 where
  pub enrollment_id : Uuid
  pub lesson_id : Uuid
  pub actor_member_id : Uuid
  pub occurred_at : Instant

pub record Progress : Type 0 where
  pub enrollment_id : Uuid
  pub completed_lessons : ℕ
  pub total_lessons : ℕ
  pub percent_complete : ℕ

pub data CheckStatus : Type 0 where
  pending approved rejected : CheckStatus

pub record BackgroundCheck : Type 0 where
  pub member_id : Uuid
  pub approved_at : Instant
  pub expires_at : Instant
  pub status : CheckStatus

pub record SafeSportTraining : Type 0 where
  pub member_id : Uuid
  pub completed_at : Instant
  pub expires_at : Instant

pub record DisciplinaryHold : Type 0 where
  pub member_id : Uuid
  pub source : String
  pub placed_at : Instant
  pub lifted_at : Option Instant

pub record MemberCredential : Type 0 where
  pub member_id : Uuid
  pub credential : RoleCredential

pub record Db : Type 0 where
  pub members : List MemberRow
  pub member_roles : List MemberRole
  pub courses : List Course
  pub modules : List CourseModule
  pub lessons : List Lesson
  pub enrollments : List Enrollment
  pub events : List Event
  pub progress : List Progress
  pub background_checks : List BackgroundCheck
  pub trainings : List SafeSportTraining
  pub holds : List DisciplinaryHold
  pub credentials : List MemberCredential
