-- ===== src/Store/Complete/Keeps.antt =====
-- Store.CompleteLesson and the invariant of the tables.
use learning_center_referenc.Prelude.{
  ◌≡◌, ◌≢◌, Bool, true, false, some, arith, ==_iff, Distinct, where_, keyed, find_sound, sym, ◌∙◌,
}
use native.Mathlib.Decide.{ℕ_discrete}
use learning_center_referenc.Learning.{Uuid}
use learning_center_referenc.Store.Result.{Env, ok}
use learning_center_referenc.Store.Schema.{Enrollment, Db}
use learning_center_referenc.Store.Queries.{
  is_withdrawn, is_sequential, enrollment_by, progress_by, is_done,
}
use learning_center_referenc.Store.Complete.{
  Place, lesson_place, unfinished_earlier, insert_event, projected, update_status, complete_tx,
}
use learning_center_referenc.Store.Complete.Effect.{completed_db, complete_tx_effect}
use learning_center_referenc.Store.Complete.Status
use learning_center_referenc.Store.Complete.Views
use learning_center_referenc.Store.Invariant.{
  lesson_in, lessons_done, WellFormed, Synced, InOrder, Inv, expected_progress, expected_status,
}

module _ (env : Env) (member k lesson : Uuid) (e : Enrollment) (db : Db)
    (found : enrollment_by db k ≡ some e) where
  abbrev pub after : Db
  after = completed_db env member k lesson e db

  lessons_done-after : (j : Uuid) → Distinct (lessons_done db j) → Distinct (lessons_done after j)
  unfolding is_done insert_event projected update_status where_
  lessons_done-after j d = ground (arith, Status.mem-lessons_done db j lesson)

  done_in_course_after :
      (p : Place)
      → lesson_place db lesson e.course_id ≡ some p
      → WellFormed db
      → (j l : Uuid) (r : Enrollment) → enrollment_by after j ≡ some r
      → is_done after j l ≡ true
      → lesson_in after r.course_id l ≡ true
  done_in_course_after p placed w j l r there h =
      let (r', was, same) =
        Views.enrollment_by-completed_db_inv env member k lesson e db j r there in
      ground (
        arith,
        Views.lesson_in-completed_db env member k lesson e db r.course_id l,
        Views.is_done-completed_db env member k lesson e db j l,
        w.done_in_course j l r' was,
        Status.lesson_place-lesson_in db lesson e.course_id p placed,
      )

  pub after-WellFormed :
      (p : Place) → lesson_place db lesson e.course_id ≡ some p → WellFormed db → WellFormed after
  after-WellFormed p placed w = record {
    enrollment_keys =
        rw (Views.enrollment_ids-completed_db env member k lesson e db) w.enrollment_keys;
    progress_keys = rw (Views.progress_ids-completed_db env member k lesson e db) w.progress_keys;
    done_once = λ j. lessons_done-after j (w.done_once j);
    done_owned = λ j l h. ground (
      arith,
      Views.is_some-enrollment_by-completed_db env member k lesson e db j,
      Views.is_done-completed_db env member k lesson e db j l,
      w.done_owned j l,
    );
    done_in_course = done_in_course_after p placed w;
    progress_owned = λ j h. ground (
      arith,
      Views.is_some-enrollment_by-completed_db env member k lesson e db j,
      Views.progress_by-completed_db env member k lesson e db j,
      w.progress_owned j,
    );
  }

  after-InOrder :
      (p : Place)
      → lesson_place db lesson e.course_id ≡ some p
      → (is_sequential p.ordering ≡ true
          → unfinished_earlier db k e.course_id p.module_position p.lesson_position ≡ false)
      → InOrder db
      → InOrder after
  after-InOrder p placed ordered o j l r q there done place sequential =
      let (r', was, same) =
        Views.enrollment_by-completed_db_inv env member k lesson e db j r there in
      Views.unfinished_earlier-completed_db env member k lesson e db j r.course_id q.module_position
        q.lesson_position
        (ground (
          arith,
          Views.is_done-completed_db env member k lesson e db j l,
          Views.lesson_place-completed_db env member k lesson e db l r.course_id,
          o j l r' q was,
          placed,
        ))

  e_id : e.id ≡ k
  e_id = (==_iff e.id k).0 (find_sound (keyed (λ (r : Enrollment). r.id) k) db.enrollments e found)

  Synced-self :
      is_withdrawn e.status ≡ false
      → Synced db
      → (r : Enrollment) → enrollment_by after k ≡ some r
      → (progress_by after k ≡ some (expected_progress after r))
        × (r.status ≡ expected_status after r)
  unfolding expected_progress expected_status
  Synced-self running s r there =
      let row = s.row k e found in
      ground (
        arith,
        e_id,
        Views.progress_by-completed_db_self env member k lesson e db (expected_progress db e) row,
        Views.enrollment_by-completed_db_self env member k lesson e db (expected_progress db e) row
            found,
        Views.total_lessons-completed_db env member k lesson e db e.course_id,
      )

  Synced-other :
      Synced db
      → (j : Uuid) (r : Enrollment) → j ≢ k
      → enrollment_by after j ≡ some r
      → (progress_by after j ≡ some (expected_progress after r))
        × (r.status ≡ expected_status after r)
  unfolding expected_progress expected_status
  Synced-other s j r n there =
      let was : enrollment_by db j ≡ some r =
        sym (Views.enrollment_by-completed_db_ne env member k lesson e db j n) ∙ there in
      ground (
        arith,
        find_sound (keyed (λ (r : Enrollment). r.id) j) db.enrollments r was,
        s.row j r was,
        s.status j r was,
        Views.progress_by-completed_db env member k lesson e db j,
        Views.completed_lessons-completed_db_ne env member k lesson e db j n,
        Views.total_lessons-completed_db env member k lesson e db r.course_id,
      )

  Synced-after :
      is_withdrawn e.status ≡ false
      → Synced db
      → (j : Uuid) (r : Enrollment) → enrollment_by after j ≡ some r
      → (progress_by after j ≡ some (expected_progress after r))
        × (r.status ≡ expected_status after r)
  Synced-after running s j r there = elim (ℕ_discrete j k) [
    | yes same ↦ rw same (Synced-self running s r (rw same at there))
    | no other ↦ Synced-other s j r other there
  ]

  after-Synced : is_withdrawn e.status ≡ false → Synced db → Synced after
  after-Synced running s = record {
    row = λ j r there. (Synced-after running s j r there).0;
    status = λ j r there. (Synced-after running s j r there).1;
  }

-- From tables that are well formed, with the projection in step with the events and the completed
-- lessons in order, a completion that commits leads to such tables.
pub complete_tx-Inv :
    (env : Env) (member k lesson : Uuid) (db : Db) (r : Bool) (db' : Db)
    → Inv db
    → complete_tx env member k lesson db ≡ ok (r, db')
    → Inv db'
complete_tx-Inv env member k lesson db r db' v h =
    let c = complete_tx_effect env member k lesson db r db' h in
    rw c.tables (record {
      formed = after-WellFormed env member k lesson c.e db c.found c.place c.placed v.formed;
      synced = after-Synced env member k lesson c.e db c.found c.running v.synced;
      ordered =
          after-InOrder env member k lesson c.e db c.found c.place c.placed c.in_order v.ordered;
    })
