-- ===== src/Store/Complete/Views.antt =====
-- What can be read after a completion: the events, the enrollments and the projection rows, each
-- against the tables before it.
use learning_center_referenc.Prelude.{
  ℕ, ◌≡◌, refl, ◌≢◌, false, not, ◌&&◌, ◌||◌, some, none, arith, ◌==◌, if◌then◌else◌, is_some,
  exists, count, keyed, find-update, map-key-update, exists_mono,
}
use learning_center_referenc.Learning.{Uuid}
use learning_center_referenc.Store.Result.{Env}
use learning_center_referenc.Store.Schema.{Enrollment, Lesson, Progress, Db}
use learning_center_referenc.Store.Queries.{
  enrollment_by, progress_by, in_course, total_lessons, completed_lessons, is_done, derived_status,
}
use learning_center_referenc.Store.Complete.{
  lesson_place, is_earlier, unfinished_earlier, insert_event, projected, update_status, with_status,
  with_counts,
}
use learning_center_referenc.Store.Complete.Effect.{completed_db}
use learning_center_referenc.Store.Invariant.{lesson_in, enrollment_ids, progress_ids}
use learning_center_referenc.Store.Complete.Status.{
  enrollment_by-update_status_ne, enrollment_by-update_status_self,
  enrollment_by-update_status_none, SameEnrollment, enrollment_by-update_status_inv,
  enrollment_ids-update_status,
}

module _ (env : Env) (member k lesson : Uuid) (e : Enrollment) (db : Db) where
  abbrev recorded : Db
  recorded = (insert_event env k lesson member db).1

  abbrev after : Db
  after = completed_db env member k lesson e db

  -- Exactly the completed lesson is added to the log.
  pub is_done-completed_db :
      (j l : Uuid) → is_done after j l ≡ (is_done db j l || (k == j && lesson == l))
  unfolding is_done insert_event projected update_status exists
  is_done-completed_db j l = ground arith

  pub completed_lessons-completed_db_ne :
      (j : Uuid) → j ≢ k → completed_lessons after j ≡ completed_lessons db j
  unfolding completed_lessons insert_event projected update_status count
  completed_lessons-completed_db_ne j n = ground arith

  pub enrollment_by-completed_db_ne :
      (j : Uuid) → j ≢ k → enrollment_by after j ≡ enrollment_by db j
  unfolding insert_event projected
  enrollment_by-completed_db_ne j n = enrollment_by-update_status_ne k j (projected k e recorded) n

  pub is_some-enrollment_by-completed_db :
      (j : Uuid) → is_some (enrollment_by after j) ≡ is_some (enrollment_by db j)
  unfolding insert_event projected
  is_some-enrollment_by-completed_db j =
      enrollment_by-update_status_none k j (projected k e recorded)

  pub progress_by-completed_db :
      (j : Uuid)
      → progress_by after j ≡ (
          if k == j
          then elim (progress_by db j) [
            | none ↦ none
            | some p ↦
                some (with_counts (completed_lessons after k) (total_lessons db e.course_id) p)
          ]
          else progress_by db j)
  unfolding insert_event projected update_status completed_lessons total_lessons in_course
  progress_by-completed_db j =
      find-update (λ (p : Progress). p.enrollment_id) k j
        (with_counts (completed_lessons recorded k) (total_lessons recorded e.course_id))
        db.progress (λ p. refl)

  pub progress_by-completed_db_self :
      (p : Progress)
      → progress_by db k ≡ some p
      → progress_by after k
        ≡ some (with_counts (completed_lessons after k) (total_lessons db e.course_id) p)
  progress_by-completed_db_self p there = ground (arith, progress_by-completed_db k)

  -- With a projection row, the enrollment gets the status that the new counts give.
  pub enrollment_by-completed_db_self :
      (p : Progress)
      → progress_by db k ≡ some p
      → enrollment_by db k ≡ some e
      → enrollment_by after k
        ≡ some (
            with_status
              (derived_status (completed_lessons after k) (total_lessons db e.course_id))
              e)
  unfolding insert_event projected update_status
  enrollment_by-completed_db_self p there found =
      enrollment_by-update_status_self k (projected k e recorded)
        (with_counts (completed_lessons after k) (total_lessons db e.course_id) p) e
        (progress_by-completed_db_self p there) found

  pub enrollment_by-completed_db_inv :
      (j : Uuid) (r : Enrollment)
      → enrollment_by after j ≡ some r
      → (r' : Enrollment) × (enrollment_by db j ≡ some r') × SameEnrollment r r'
  unfolding insert_event projected
  enrollment_by-completed_db_inv j r h =
      enrollment_by-update_status_inv k j (projected k e recorded) r h

  -- The courses, their modules and lessons are not touched.
  pub lesson_in-completed_db : (c l : Uuid) → lesson_in after c l ≡ lesson_in db c l
  unfolding insert_event projected update_status lesson_in in_course
  lesson_in-completed_db c l = refl

  pub total_lessons-completed_db : (c : Uuid) → total_lessons after c ≡ total_lessons db c
  unfolding insert_event projected update_status total_lessons in_course
  total_lessons-completed_db c = refl

  pub lesson_place-completed_db : (l c : Uuid) → lesson_place after l c ≡ lesson_place db l c
  unfolding insert_event projected update_status lesson_place
  lesson_place-completed_db l c = refl

  -- A completion leaves no more lessons unfinished.
  pub unfinished_earlier-completed_db :
      (j c : Uuid) (m l : ℕ)
      → unfinished_earlier db j c m l ≡ false
      → unfinished_earlier after j c m l ≡ false
  unfolding insert_event projected update_status unfinished_earlier is_earlier
  unfinished_earlier-completed_db j c m l =
      exists_mono (λ (x : Lesson). is_earlier db c m l x && not (is_done db j x.id))
        (λ (x : Lesson). is_earlier db c m l x && not (is_done after j x.id))
        (λ x h. ground (arith, is_done-completed_db j x.id)) db.lessons

  pub enrollment_ids-completed_db : enrollment_ids after ≡ enrollment_ids db
  unfolding insert_event projected
  enrollment_ids-completed_db = enrollment_ids-update_status k (projected k e recorded)

  pub progress_ids-completed_db : progress_ids after ≡ progress_ids db
  unfolding insert_event projected update_status
  progress_ids-completed_db =
      map-key-update (λ (p : Progress). p.enrollment_id)
        (keyed (λ (p : Progress). p.enrollment_id) k)
        (with_counts (completed_lessons recorded k) (total_lessons recorded e.course_id))
        db.progress (λ p. refl)
