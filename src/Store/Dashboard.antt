-- ===== src/Store/Dashboard.antt =====
-- `Store.loadEnrollmentProgress`, `loadMemberByID`, `ResolveMemberBySubject` and `LoadDashboard`:
-- the learner's read model.
pub mod Agrees
pub mod Lists
use learning_center_referenc.Prelude.{
  ℕ, suc, String, Bool, false, none, some, List, [], ◌∷◌, ◌&&◌, ◌||◌, ltb, leb, map, ◌==◌,
  if◌then◌else◌, find, where_, Text, text_eq, is_some, sort_by, str_leb, keyed,
}
use learning_center_referenc.Learning.{Uuid, Member, EnrollmentProgress, LessonProgress, Dashboard}
use learning_center_referenc.Store.Result.{
  not_found, Result, ok, ◌>>=◌, ◌>>◌, require, guard, Env, attempt,
}
use learning_center_referenc.Store.Schema.{MemberRow, MemberRole, Course, Lesson, Enrollment, Db}
use learning_center_referenc.Store.Queries.{
  member_by, course_by, module_by, enrollment_by, progress_by, of_pair, total_lessons,
}

-- array_agg(role order by role) of one member
unfoldable pub roles_of : Db → Uuid → List String
roles_of db m =
    sort_by str_leb
      (map (λ r. r.role) (where_ (keyed (λ (r : MemberRole). r.member_id) m) db.member_roles))

abbrev pub to_member : Db → MemberRow → Member
to_member db m = record { id = m.id; display_name = m.display_name; roles = roles_of db m.id }

abbrev pub has_subject : Text → MemberRow → Bool
has_subject subject m = elim m.auth_subject [ none ↦ false | some s ↦ text_eq s subject ]

unfoldable pub resolve_member_by_subject : Env → Text → Db → Result Member
resolve_member_by_subject env subject db = do
  attempt env "resolving member"
  m ← require not_found (find (has_subject subject) db.members)
  ok (to_member db m)

unfoldable pub load_member_by_id : Env → Uuid → Db → Result Member
load_member_by_id env id db = do
  attempt env "loading member"
  m ← require not_found (member_by db id)
  ok (to_member db m)

-- A row of lesson l join module m on m.id = l.module_id.
pub record Placed : Type 0 where
  pub module_position : ℕ
  pub lesson : Lesson

unfoldable pub course_lessons : Db → Uuid → List Lesson → List Placed
course_lessons db c [] = []
course_lessons db c (l ∷ ls) =
    let rest = course_lessons db c ls in
    elim (module_by db l.module_id) [
      | none ↦ rest
      | some m ↦
          if m.course_id == c
          then record { module_position = m.position; lesson = l } ∷ rest
          else rest
    ]

-- order by m.position, l.position
unfoldable pub placed_leb : Placed → Placed → Bool
placed_leb a b =
    ltb a.module_position b.module_position
    || (a.module_position == b.module_position && leb a.lesson.position b.lesson.position)

-- The rows in order, with row_number() and the completion event of each, if there is one.
unfoldable pub lesson_rows : Db → Uuid → ℕ → List Placed → List LessonProgress
lesson_rows db e n [] = []
lesson_rows db e n (p ∷ ps) =
    let ev = find (of_pair e p.lesson.id) db.events in
    record {
      id = p.lesson.id;
      title = p.lesson.title;
      lesson_type = p.lesson.lesson_type;
      position = n;
      is_completed = is_some ev;
      completed_at = elim ev [ none ↦ none | some x ↦ some x.occurred_at ];
    }
    ∷ lesson_rows db e (suc n) ps

-- Without a projection row the counts are zero, against the course's current lesson count.
unfoldable pub progress_row : Db → Enrollment → Course → List LessonProgress → EnrollmentProgress
progress_row db e c lessons =
    let p = progress_by db e.id in
    record {
      enrollment_id = e.id;
      course_id = c.id;
      course_title = c.title;
      status = e.status;
      completed_lessons = elim p [ none ↦ 0 | some x ↦ x.completed_lessons ];
      total_lessons = elim p [ none ↦ total_lessons db c.id | some x ↦ x.total_lessons ];
      percent_complete = elim p [ none ↦ 0 | some x ↦ x.percent_complete ];
      lessons = lessons;
    }

unfoldable pub load_enrollment_progress : Env → Uuid → Uuid → Db → Result EnrollmentProgress
load_enrollment_progress env member enrollment db = do
  attempt env "loading progress"
  e ← require not_found (enrollment_by db enrollment)
  guard (e.member_id == member) not_found
  c ← require not_found (course_by db e.course_id)
  attempt env "loading lessons"
  attempt env "scanning lesson"
  attempt env "iterating lessons"
  let rows = sort_by placed_leb (course_lessons db e.course_id db.lessons)
  ok (progress_row db e c (lesson_rows db enrollment 1 rows))

-- order by e.enrolled_at, e.id
unfoldable pub enrolled_leb : Enrollment → Enrollment → Bool
enrolled_leb a b =
    ltb a.enrolled_at b.enrolled_at || (a.enrolled_at == b.enrolled_at && leb a.id b.id)

unfoldable pub load_each : Env → Uuid → Db → List Enrollment → Result (List EnrollmentProgress)
load_each env member db [] = ok []
load_each env member db (e ∷ es) =
    let rest = load_each env member db es in
    (do p ← load_enrollment_progress env member e.id db; ps ← rest; ok (p ∷ ps))

unfoldable pub load_dashboard : Env → Uuid → Db → Result Dashboard
load_dashboard env member db = do
  m ← load_member_by_id env member db
  attempt env "listing enrollments"
  attempt env "scanning enrollment"
  attempt env "iterating enrollments"
  let mine = where_ (keyed (λ (e : Enrollment). e.member_id) member) db.enrollments
  ps ← load_each env member db (sort_by enrolled_leb mine)
  ok (record { member = m; enrollments = ps })
