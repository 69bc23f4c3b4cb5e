-- ===== src/Tests/Reads.antt =====
-- What the learner of the small course is shown.
use learning_center_referenc.Prelude.{
  List, find, codes, ◌↔◌, ◌≡◌, refl, true, false, none, some, [], ◌∷◌, map, length, sort_by, count,
  mem, Distinct, Ascending, All,
}
use learning_center_referenc.Store.Schema.{MemberRow, Enrollment, Course, Db, draft, published}
use learning_center_referenc.Store.Queries.{course_by, is_published}
use learning_center_referenc.Store.Catalog.{summary, list_published_courses}
use learning_center_referenc.Store.Catalog.Lists.{
  catalog_ids, by_title, Listed, list_published_courses_lists,
}
use learning_center_referenc.Learning.{CourseSummary}
use learning_center_referenc.Store.Queries.{member_by, enrollment_by}
use learning_center_referenc.Store.Dashboard.Lists.{HasCourses, listed_ids, load_dashboard_lists}
use learning_center_referenc.Learning.{Uuid, Dashboard, EnrollmentProgress, active, sequential}
use learning_center_referenc.Store.Result.{ok}
use learning_center_referenc.Store.Dashboard.{
  load_dashboard, to_member, enrolled_leb, course_lessons, placed_leb, lesson_rows, progress_row,
  load_enrollment_progress,
}
use learning_center_referenc.Store.Dashboard.Agrees.{load_enrollment_progress_agrees}
use learning_center_referenc.Tests.Fixtures.{
  program, env, env-Healthy, half_db, half_db-Inv, fresh_db,
}

reading : Unit {0}
unfolding program sort_by course_lessons placed_leb lesson_rows progress_row
    load_enrollment_progress mem
reading = tt

abbrev shown : EnrollmentProgress
shown = record {
  enrollment_id = 100;
  course_id = 10;
  course_title = "Safe play";
  status = active;
  completed_lessons = 1;
  total_lessons = 2;
  percent_complete = 50;
  lessons =
      record {
        id = 31;
        title = "One";
        lesson_type = "text";
        position = 1;
        is_completed = true;
        completed_at = some 1000;
      }
      ∷ record {
        id = 32;
        title = "Two";
        lesson_type = "text";
        position = 2;
        is_completed = false;
        completed_at = none;
      }
      ∷ [];
}

shown_run : load_enrollment_progress env 1 100 half_db ≡ ok shown
unfolding reading
shown_run = refl

lesson_keys : Distinct (map (λ l. l.id) half_db.lessons)
unfolding reading
lesson_keys = (refl, (refl, tt))

shown_agrees :
    (shown.completed_lessons ≡ count (λ r. r.is_completed) shown.lessons)
    × (shown.total_lessons ≡ length shown.lessons)
shown_agrees =
    load_enrollment_progress_agrees env 1 100 half_db shown half_db-Inv lesson_keys shown_run

abbrev member_row : MemberRow
member_row = record {
  id = 1;
  auth_subject = some (codes "demo|learner");
  display_name = "Ada";
  association_id = some 0xaa;
}

half_db-courses : HasCourses half_db
half_db-courses = unfold find in (refl, tt)

member_found : member_by half_db 1 ≡ some member_row
member_found = unfold find in refl

load_dashboard_lists_example :
    (d : Dashboard) × (load_dashboard env 1 half_db ≡ ok d)
    × (d.member ≡ to_member half_db member_row)
    × Distinct (listed_ids d)
    × ((es : List Enrollment) × Ascending enrolled_leb es
        × (listed_ids d ≡ map (λ (e : Enrollment). e.id) es)
        × All (λ e. enrollment_by half_db e.id ≡ some e) es)
    × ((k : Uuid)
        → (mem k (listed_ids d) ≡ true)
          ↔ ((e : Enrollment) × (enrollment_by half_db k ≡ some e) × (e.member_id ≡ 1)))
load_dashboard_lists_example =
    load_dashboard_lists env 1 half_db env-Healthy member_row half_db-Inv.formed.enrollment_keys
      half_db-courses member_found

abbrev safe_play : Course
safe_play = record {
  id = 10;
  title = "Safe play";
  slug = "safe-play";
  ordering = sequential;
  status = published;
}

-- Two published courses, the second with the earlier title, and a draft.
abbrev catalog_db : Db
catalog_db = record fresh_db {
  courses =
      record safe_play { id = 11; title = "Drills"; status = draft }
      ∷ safe_play
      ∷ record safe_play { id = 12; title = "Coaching" }
      ∷ [];
}

catalog_shown :
    list_published_courses env catalog_db
    ≡ ok (
        summary catalog_db (record safe_play { id = 12; title = "Coaching" })
        ∷ summary catalog_db safe_play
        ∷ [])
unfolding reading list_published_courses
catalog_shown = refl

course_keys : Distinct (map (λ (c : Course). c.id) catalog_db.courses)
course_keys = unfold mem in (refl, (refl, (refl, tt)))

list_published_courses_lists_example :
    (cs : List CourseSummary) × (list_published_courses env catalog_db ≡ ok cs)
    × Distinct (catalog_ids cs)
    × Ascending by_title cs
    × All (Listed catalog_db) cs
    × ((k : Uuid)
        → (mem k (catalog_ids cs) ≡ true)
          ↔ ((c : Course) × (course_by catalog_db k ≡ some c) × (is_published c.status ≡ true)))
list_published_courses_lists_example =
    list_published_courses_lists env catalog_db env-Healthy course_keys
