-- ===== src/Store/Queries.antt =====
-- The selects that several operations share.
use learning_center_referenc.Prelude.{
  ℕ, ◌*◌, ◌/◌, Bool, true, false, ◌&&◌, Option, none, some, ltb, ◌==◌, if◌then◌else◌, exists, count,
  find, keyed,
}
use learning_center_referenc.Learning.{
  Uuid, Ordering, sequential, EnrollmentStatus, active, completed, withdrawn,
}
use learning_center_referenc.Store.Schema.{
  MemberRow, Course, CourseStatus, published, CourseModule, Lesson, Enrollment, Event, Progress, Db,
}

abbrev pub is_published : CourseStatus → Bool
is_published published = true
is_published _ = false

abbrev pub is_withdrawn : EnrollmentStatus → Bool
is_withdrawn withdrawn = true
is_withdrawn _ = false

abbrev pub is_sequential : Ordering → Bool
is_sequential sequential = true
is_sequential _ = false

-- Selects by primary key.
abbrev pub member_by : Db → Uuid → Option MemberRow
member_by db id = find (keyed (λ (m : MemberRow). m.id) id) db.members

abbrev pub course_by : Db → Uuid → Option Course
course_by db id = find (keyed (λ (c : Course). c.id) id) db.courses

abbrev pub module_by : Db → Uuid → Option CourseModule
module_by db id = find (keyed (λ (m : CourseModule). m.id) id) db.modules

abbrev pub lesson_by : Db → Uuid → Option Lesson
lesson_by db id = find (keyed (λ (l : Lesson). l.id) id) db.lessons

abbrev pub enrollment_by : Db → Uuid → Option Enrollment
enrollment_by db id = find (keyed (λ (e : Enrollment). e.id) id) db.enrollments

abbrev pub progress_by : Db → Uuid → Option Progress
progress_by db id = find (keyed (λ (p : Progress). p.enrollment_id) id) db.progress

-- enrollment where member_id = m and course_id = c, a unique pair
abbrev pub for_pair : Uuid → Uuid → Enrollment → Bool
for_pair m c e = e.member_id == m && e.course_id == c

-- lesson l join module m on m.id = l.module_id where m.course_id = c; `module.id` is a key, so a
-- lesson joins with one module at most.
unfoldable pub in_course : Db → Uuid → Lesson → Bool
in_course db c l = elim (module_by db l.module_id) [ none ↦ false | some m ↦ m.course_id == c ]

-- count(l.id) over the lessons of a course
unfoldable pub total_lessons : Db → Uuid → ℕ
total_lessons db c = count (in_course db c) db.lessons

abbrev pub of_enrollment : Uuid → Event → Bool
of_enrollment e ev = ev.enrollment_id == e

-- count(*) from progress_event where enrollment_id = e
unfoldable pub completed_lessons : Db → Uuid → ℕ
completed_lessons db e = count (of_enrollment e) db.events

abbrev pub of_pair : Uuid → Uuid → Event → Bool
of_pair e l ev = ev.enrollment_id == e && ev.lesson_id == l

-- exists (select 1 from progress_event where enrollment_id = e and lesson_id = l)
unfoldable pub is_done : Db → Uuid → Uuid → Bool
is_done db e l = exists (of_pair e l) db.events

-- case when total = 0 then 0 else completed * 100 / total end
unfoldable pub percent : ℕ → ℕ → ℕ
percent done total = if total == 0 then 0 else done * 100 / total

-- case when total > 0 and completed = total then 'completed' else 'active' end
unfoldable pub derived_status : ℕ → ℕ → EnrollmentStatus
derived_status done total = if ltb 0 total && done == total then completed else active
