-- ===== src/Store/Complete/Succeeds.antt =====
-- Store.CompleteLesson and the check constraints of enrollment_progress.
use native.Mathlib.Nat.{div-le_of_le-mul, mul-le-mul_right}
use learning_center_referenc.Prelude.{
  ℕ, ◌*◌, ◌/◌, ◌≡◌, ◌≤◌, ◌<◌, refl, true, false, not, ◌&&◌, some, arith, ◌==◌, List, [], ◌∷◌, map,
  mem, exists, where_, Option-cases, sizes, inl, inr, length, Distinct-length-le, sym, ◌∙◌,
}
use learning_center_referenc.Learning.{Uuid}
use learning_center_referenc.Store.Result.{Env, ok, Healthy}
use learning_center_referenc.Store.Schema.{Enrollment, Lesson, Db}
use learning_center_referenc.Store.Queries.{
  is_withdrawn, is_sequential, enrollment_by, in_course, total_lessons, completed_lessons, is_done,
  percent,
}
use learning_center_referenc.Store.Complete.{
  Place, lesson_place, unfinished_earlier, check_order, insert_event, projected, project_completion,
  is_storable, update_status, complete_tx,
}
use learning_center_referenc.Store.Complete.Effect.{completed_db}
use learning_center_referenc.Store.Complete.Status
use learning_center_referenc.Store.Complete.Views
use learning_center_referenc.Store.Complete.Keeps.{after-WellFormed}
use learning_center_referenc.Store.Invariant.{lesson_in, lessons_done, WellFormed}

-- The ids of the lessons of a course.
course_ids : Db → Uuid → List Uuid
course_ids db c = map (λ l. l.id) (where_ (in_course db c) db.lessons)

mem-course_ids : (db : Db) (c l : Uuid) → mem l (course_ids db c) ≡ lesson_in db c l
unfolding course_ids lesson_in mem where_ exists
mem-course_ids db c l = go db.lessons
  where
    go :
        (ls : List Lesson)
        → mem l (map (λ x. x.id) (where_ (in_course db c) ls))
          ≡ exists (λ x. x.id == l && in_course db c x) ls
    go [] = refl
    go (x ∷ ls) = ground (arith, go ls)

-- In well-formed tables an enrollment never has more completed lessons than its course has lessons.
pub completed-le-total :
    (db : Db) (k : Uuid) (e : Enrollment)
    → WellFormed db
    → enrollment_by db k ≡ some e
    → completed_lessons db k ≤ total_lessons db e.course_id
unfolding completed_lessons total_lessons course_ids
completed-le-total db k e w found =
    let le : length (lessons_done db k) ≤ length (course_ids db e.course_id) =
      Distinct-length-le (lessons_done db k) (course_ids db e.course_id) (w.done_once k) (λ l m.
        mem-course_ids db e.course_id l
        ∙ w.done_in_course k l e found (sym (Status.mem-lessons_done db k l) ∙ m)) in
    grind (sizes, le)

pub percent-le-100 : (done total : ℕ) → done ≤ total → percent done total ≤ 100
unfolding percent
percent-le-100 done total h =
    let bound : done * 100 / total ≤ 100 = div-le_of_le-mul total (mul-le-mul_right 100 h) in
    ground arith

pub is_storable_of_le :
    (done total : ℕ) → done ≤ total → total * 100 < 2147483648 → is_storable done total ≡ true
unfolding is_storable
is_storable_of_le done total h small = ground (arith, percent-le-100 done total h)

-- A completion of a lesson that has a place in the course leaves no more completed lessons than the
-- course has.
module _ (env : Env) (member k lesson : Uuid) (e : Enrollment) (p : Place) (db : Db)
    (w : WellFormed db) (found : enrollment_by db k ≡ some e)
    (placed : lesson_place db lesson e.course_id ≡ some p) where
  after_le :
      completed_lessons (completed_db env member k lesson e db) k ≤ total_lessons db e.course_id
  after_le = elim (Option-cases (enrollment_by (completed_db env member k lesson e db) k)) [
    | inl gone ↦
        absurd (ground (arith, Views.is_some-enrollment_by-completed_db env member k lesson e db k))
    | inr (r, there) ↦
        let (r', was, same) =
          Views.enrollment_by-completed_db_inv env member k lesson e db k r there in
        ground (
          arith,
          completed-le-total (completed_db env member k lesson e db) k r
              (after-WellFormed env member k lesson e db found p placed w) there,
          Views.total_lessons-completed_db env member k lesson e db r.course_id,
        )
  ]

  counts_storable :
      total_lessons db e.course_id * 100 < 2147483648
      → is_storable
          (completed_lessons (insert_event env k lesson member db).1 k)
          (total_lessons (insert_event env k lesson member db).1 e.course_id)
        ≡ true
  unfolding completed_lessons total_lessons in_course projected update_status insert_event
  counts_storable small = is_storable_of_le _ _ after_le small

-- What a completion asks for.
pub record Ready (member k lesson : Uuid) (db : Db) : Type 0 where
  pub e : Enrollment
  pub place : Place
  pub found : enrollment_by db k ≡ some e
  pub owned : e.member_id ≡ member
  pub running : is_withdrawn e.status ≡ false
  pub placed : lesson_place db lesson e.course_id ≡ some place
  pub in_order :
      is_sequential place.ordering ≡ true
      → unfinished_earlier db k e.course_id place.module_position place.lesson_position ≡ false

-- While the database answers, over well-formed tables and for a course whose lesson count times 100
-- fits in int4, a completion of the owner's running enrollment whose lesson has a place in the
-- course, and which the order allows, commits: it records the lesson unless it is done, and no
-- check constraint refuses the new counts.
pub complete_tx_succeeds :
    (env : Env) (member k lesson : Uuid) (db : Db)
    → Healthy env
    → WellFormed db
    → (r : Ready member k lesson db) → total_lessons db r.e.course_id * 100 < 2147483648
    → complete_tx env member k lesson db
      ≡ ok (not (is_done db k lesson), completed_db env member k lesson r.e db)
unfolding complete_tx check_order project_completion insert_event
complete_tx_succeeds env member k lesson db healthy w r small = ground (
  arith,
  r.found,
  r.owned,
  r.running,
  r.placed,
  r.in_order,
  healthy "beginning completion",
  healthy "loading enrollment",
  healthy "loading lesson",
  healthy "checking lesson order",
  healthy "recording completion",
  healthy "projecting completion",
  healthy "updating enrollment status",
  healthy "committing completion",
  counts_storable env member k lesson r.e r.place db w r.found r.placed small,
)
