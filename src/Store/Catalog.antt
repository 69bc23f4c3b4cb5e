-- ===== src/Store/Catalog.antt =====
-- `Store.ListPublishedCourses`. A left join, grouped by the course, counts the lessons that
-- `total_lessons` counts.
pub mod Lists
use learning_center_referenc.Prelude.{List, map, where_, sort_by, str_leb}
use learning_center_referenc.Learning.{CourseSummary}
use learning_center_referenc.Store.Result.{Result, ok, ◌>>◌, Env, attempt}
use learning_center_referenc.Store.Schema.{Course, Db}
use learning_center_referenc.Store.Queries.{is_published, total_lessons}

abbrev pub summary : Db → Course → CourseSummary
summary db c = record {
  id = c.id;
  title = c.title;
  slug = c.slug;
  ordering = c.ordering;
  lesson_count = total_lessons db c.id;
}

unfoldable pub list_published_courses : Env → Db → Result (List CourseSummary)
list_published_courses env db = do
  attempt env "listing courses"
  attempt env "scanning course"
  attempt env "iterating courses"
  let shown = where_ (λ (c : Course). is_published c.status) db.courses
  ok (map (summary db) (sort_by (λ (a b : Course). str_leb a.title b.title) shown))
