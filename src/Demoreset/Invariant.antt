-- ===== src/Demoreset/Invariant.antt =====
-- demoreset.Reset and the invariant of the tables.
use learning_center_referenc.Prelude.{
  ℕ, ◌≡◌, refl, true, false, some, none, arith, Bool-cases, inl, inr, Distinct, Distinct-delete,
  keyed, find_sound, ==_iff, ◌⊎◌, fun_ext,
}
use learning_center_referenc.Learning.{Uuid}
use learning_center_referenc.Store.Schema.{Enrollment, Progress, Db}
use learning_center_referenc.Store.Queries.{
  enrollment_by, progress_by, total_lessons, is_done, in_course,
}
use learning_center_referenc.Store.Complete.{lesson_place, unfinished_earlier, is_earlier}
use learning_center_referenc.Store.Invariant.{
  WellFormed, Synced, InOrder, Inv, expected_progress, expected_status, lesson_in, lessons_done,
}
use learning_center_referenc.Demoreset.{is_demo, is_deleted, delete_demo}
use learning_center_referenc.Demoreset.Keeps
use learning_center_referenc.Demoreset.Keeps.{after}

module _ (db : Db) (w : WellFormed db) where
  deleted-cases :
      (k : Uuid)
      → ((is_deleted db k ≡ true)
          × (enrollment_by (delete_demo db) k ≡ none)
          × (progress_by (delete_demo db) k ≡ none))
        ⊎ ((is_deleted db k ≡ false)
            × (enrollment_by (delete_demo db) k ≡ enrollment_by db k)
            × (progress_by (delete_demo db) k ≡ progress_by db k))
  deleted-cases k = elim (Bool-cases (is_deleted db k)) [
    | inl gone ↦ inl (
      gone,
      ground (arith, Keeps.enrollment_by-delete_demo db w k, Keeps.is_deleted_lem db w k),
      Keeps.progress_by_gone db w k gone,
    )
    | inr live ↦ inr (
      live,
      ground (arith, Keeps.enrollment_by-delete_demo db w k, Keeps.is_deleted_lem db w k),
      Keeps.progress_by_kept db w k live,
    )
  ]

  lesson_in-after : (c l : Uuid) → lesson_in (delete_demo db) c l ≡ lesson_in db c l
  unfolding delete_demo lesson_in in_course
  lesson_in-after c l = refl

  total_lessons-after : (c : Uuid) → total_lessons (delete_demo db) c ≡ total_lessons db c
  unfolding delete_demo total_lessons in_course
  total_lessons-after c = refl

  lesson_place-after : (l c : Uuid) → lesson_place (delete_demo db) l c ≡ lesson_place db l c
  unfolding delete_demo lesson_place
  lesson_place-after l c = refl

  unfinished_earlier-after :
      (k c : Uuid) (m n : ℕ)
      → is_deleted db k ≡ false
      → unfinished_earlier (delete_demo db) k c m n ≡ unfinished_earlier db k c m n
  unfolding delete_demo unfinished_earlier is_earlier
  unfinished_earlier-after k c m n live =
      rw (fun_ext (λ (l : Uuid). Keeps.is_done_kept db w k live l))

  -- Whose enrollment is gone has no events left.
  done_live : (k l : Uuid) → is_done (delete_demo db) k l ≡ true → is_deleted db k ≡ false
  done_live k l h = elim (Bool-cases (is_deleted db k)) [
    | inl gone ↦ absurd (ground (arith, Keeps.is_done_gone db w k gone l))
    | inr live ↦ live
  ]

  done_once-after : (k : Uuid) → Distinct (lessons_done (delete_demo db) k)
  done_once-after k = elim (Bool-cases (is_deleted db k)) [
    | inl gone ↦ rw (Keeps.lessons_done_gone db w k gone) tt
    | inr live ↦ rw (Keeps.lessons_done_kept db w k live) (w.done_once k)
  ]

  after-WellFormed : WellFormed (delete_demo db)
  after-WellFormed = record {
    enrollment_keys =
        unfold delete_demo in
        Distinct-delete (λ (e : Enrollment). e.id) (is_demo db) db.enrollments w.enrollment_keys;
    progress_keys =
        unfold delete_demo in
        Distinct-delete (λ (p : Progress). p.enrollment_id) (λ p. is_deleted db p.enrollment_id)
          db.progress w.progress_keys;
    done_once = done_once-after;
    done_owned = λ k l h. ground (
      arith,
      deleted-cases k,
      done_live k l h,
      Keeps.is_done_kept db w k (done_live k l h) l,
      w.done_owned k l,
    );
    done_in_course = λ k l r there h. ground (
      arith,
      Keeps.is_done_kept db w k (done_live k l h) l,
      lesson_in-after r.course_id l,
      w.done_in_course k l r (Keeps.kept db w k r there).0,
    );
    progress_owned = λ k h. ground (arith, deleted-cases k, w.progress_owned k);
  }

  after-InOrder : InOrder db → InOrder (delete_demo db)
  after-InOrder o k l r p there h place sequential = ground (
    arith,
    Keeps.is_done_kept db w k (done_live k l h) l,
    lesson_place-after l r.course_id,
    unfinished_earlier-after k r.course_id p.module_position p.lesson_position (done_live k l h),
    o k l r p (Keeps.kept db w k r there).0,
  )

  Synced-after :
      Synced db
      → (k : Uuid) (r : Enrollment) → enrollment_by (delete_demo db) k ≡ some r
      → (progress_by (delete_demo db) k ≡ some (expected_progress (delete_demo db) r))
        × (r.status ≡ expected_status (delete_demo db) r)
  unfolding expected_progress expected_status
  Synced-after s k r there =
      let was = Keeps.kept db w k r there in
      ground (
        arith,
        was,
        (==_iff r.id k).0 (find_sound (keyed (λ (e : Enrollment). e.id) k) db.enrollments r was.0),
        total_lessons-after r.course_id,
        Keeps.completed_lessons_kept db w k was.1,
        Keeps.progress_by_kept db w k was.1,
        s.row k r was.0,
        s.status k r was.0,
      )

-- From tables that are well formed, with the projection in step with the events and the completed
-- lessons in order, the reset leads to such tables.
pub delete_demo-Inv : (db : Db) → Inv db → Inv (delete_demo db)
delete_demo-Inv db v = record {
  formed = after-WellFormed db v.formed;
  synced = record {
    row = λ k r there. (Synced-after db v.formed v.synced k r there).0;
    status = λ k r there. (Synced-after db v.formed v.synced k r there).1;
  };
  ordered = after-InOrder db v.formed v.ordered;
}
