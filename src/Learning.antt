-- ===== src/Learning.antt =====
-- api/internal/learning/models.go: the domain types shared by the HTTP and persistence layers.
use learning_center_referenc.Prelude.{ℕ, String, Bool, Option, List, contains}
use learning_center_referenc.Clock.{Instant}

-- A `uuid` of the database: 128 bits, read as a number.
abbrev pub Uuid : Type 0
Uuid = ℕ

pub record Member : Type 0 where
  pub id : Uuid
  pub display_name : String
  pub roles : List String

unfoldable pub has_role : Member → String → Bool
unfolding contains
has_role m role = contains m.roles role

-- The column `ordering` of a course, which the schema restricts to these values.
pub data Ordering : Type 0 where
  sequential open_order : Ordering

-- The column `status` of an enrollment.
pub data EnrollmentStatus : Type 0 where
  active completed withdrawn : EnrollmentStatus

pub EnrollmentStatus-discrete : Discrete EnrollmentStatus
EnrollmentStatus-discrete = hlevel

pub record CourseSummary : Type 0 where
  pub id : Uuid
  pub title : String
  pub slug : String
  pub ordering : Ordering
  pub lesson_count : ℕ

pub record LessonProgress : Type 0 where
  pub id : Uuid
  pub title : String
  pub lesson_type : String
  pub position : ℕ
  pub is_completed : Bool
  pub completed_at : Option Instant

pub record EnrollmentProgress : Type 0 where
  pub enrollment_id : Uuid
  pub course_id : Uuid
  pub course_title : String
  pub status : EnrollmentStatus
  pub completed_lessons : ℕ
  pub total_lessons : ℕ
  pub percent_complete : ℕ
  pub lessons : List LessonProgress

pub record Dashboard : Type 0 where
  pub member : Member
  pub enrollments : List EnrollmentProgress

pub record ComplianceMember : Type 0 where
  pub id : Uuid
  pub display_name : String
  pub roles : List String
  pub status : String
  pub reason : String
  pub next_expiration : Option Instant
