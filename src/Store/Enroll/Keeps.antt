-- ===== src/Store/Enroll/Keeps.antt =====
-- Store.Enroll and the invariant of the tables.
use native.Mathlib.Decide.{ℕ_discrete}
use learning_center_referenc.Prelude.{
  ℕ, ◌≡◌, refl, inl, inr, Bool, true, false, arith, some, none, Option-cases, ◌==◌, ==_refl, ◌∷◌,
  [], List, exists, find, count, find_by_key, mem-map-key, Distinct, if◌then◌else◌, ap,
}
use learning_center_referenc.Learning.{Uuid}
use learning_center_referenc.Store.Result.{ok, Env}
use learning_center_referenc.Store.Schema.{Db, Enrollment, Event, Progress}
use learning_center_referenc.Store.Queries.{
  enrollment_by, progress_by, for_pair, total_lessons, completed_lessons, is_done, in_course,
  of_enrollment, of_pair, percent, derived_status,
}
use learning_center_referenc.Store.Complete.{lesson_place, unfinished_earlier, is_earlier}
use learning_center_referenc.Store.Enroll.{new_enrollment, insert_progress, enroll_tx}
use learning_center_referenc.Store.Enroll.Effect.{with_enrollment, Existing, enroll_tx_effect}
use learning_center_referenc.Store.Invariant.{
  lesson_in, enrollment_ids, progress_ids, WellFormed, Synced, InOrder, Inv, expected_progress,
  expected_status,
}

-- In tables that are in step, the enrollment that was there has its projection row: nothing changes.
pub Existing-unchanged :
    (member course : Uuid) (db : Db) (id : Uuid) (created : Bool) (db' : Db)
    → Synced db
    → Existing member course db id created db'
    → db' ≡ db
unfolding insert_progress
Existing-unchanged member course db id created db' s x =
    elim (Option-cases (enrollment_by db x.e.id)) [
      | inl missing ↦ absurd (
          ground (
            arith,
            find_by_key (λ (r : Enrollment). r.id) (for_pair member course) db.enrollments x.e
                x.found,
          ))
      | inr (r, there) ↦ ground (arith, x.tables, s.row x.e.id r there)
    ]

no_events :
    (k : Uuid) (evs : List Event)
    → ((l : Uuid) → exists (of_pair k l) evs ≡ false)
    → count (of_enrollment k) evs ≡ 0
unfolding exists count
no_events k [] h = refl
no_events k (ev ∷ evs) h =
    ground (arith, h ev.lesson_id, ==_refl ev.lesson_id, no_events k evs (λ l. ground (arith, h l)))

module _ (env : Env) (member course : Uuid) (db : Db) (unused : enrollment_by db env.fresh ≡ none)
    (w : WellFormed db) where
  abbrev after : Db
  after = insert_progress env.fresh (total_lessons db course) (with_enrollment env member course db)

  fresh_not_done : (l : Uuid) → is_done db env.fresh l ≡ false
  fresh_not_done l = ground (arith, w.done_owned env.fresh l)

  fresh_no_row : progress_by db env.fresh ≡ none
  fresh_no_row = ground (arith, w.progress_owned env.fresh)

  fresh_count : completed_lessons db env.fresh ≡ 0
  unfolding completed_lessons is_done
  fresh_count = no_events env.fresh db.events fresh_not_done

  enrollment_by-after :
      (j : Uuid)
      → enrollment_by after j
        ≡ (if env.fresh == j then some (new_enrollment env member course) else enrollment_by db j)
  unfolding insert_progress find
  enrollment_by-after j = refl

  progress_by-after :
      (j : Uuid)
      → progress_by after j ≡ (
          if env.fresh == j
          then some (record {
            enrollment_id = env.fresh;
            completed_lessons = 0;
            total_lessons = total_lessons db course;
            percent_complete = 0;
          })
          else progress_by db j)
  unfolding insert_progress find
  progress_by-after j = ground (arith, fresh_no_row)

  is_done-after : (j l : Uuid) → is_done after j l ≡ is_done db j l
  unfolding insert_progress is_done
  is_done-after j l = refl

  old_if_done :
      (j l : Uuid) (r : Enrollment)
      → enrollment_by after j ≡ some r
      → is_done after j l ≡ true
      → enrollment_by db j ≡ some r
  old_if_done j l r there h = elim (ℕ_discrete env.fresh j) [
    | yes same ↦ absurd (
        ground (
          arith,
          fresh_not_done l,
          rw (← same) at (is_done-after j l),
          ap (λ (t : ℕ). is_done after t l) same,
        ))
    | no other ↦ ground (arith, enrollment_by-after j)
  ]

  lesson_in-after : (c l : Uuid) → lesson_in after c l ≡ lesson_in db c l
  unfolding insert_progress lesson_in in_course
  lesson_in-after c l = refl

  total_lessons-after : (c : Uuid) → total_lessons after c ≡ total_lessons db c
  unfolding insert_progress total_lessons in_course
  total_lessons-after c = refl

  completed_lessons-after : (j : Uuid) → completed_lessons after j ≡ completed_lessons db j
  unfolding insert_progress completed_lessons
  completed_lessons-after j = refl

  in_order-after :
      (j l c : Uuid) (m n : ℕ)
      → (lesson_place after l c ≡ lesson_place db l c)
        × (unfinished_earlier after j c m n ≡ unfinished_earlier db j c m n)
  unfolding insert_progress lesson_place unfinished_earlier is_earlier is_done
  in_order-after j l c m n = (refl, refl)

  enrollment_keys-after : Distinct (enrollment_ids after)
  unfolding insert_progress
  enrollment_keys-after =
      ground
        (arith, mem-map-key (λ (r : Enrollment). r.id) env.fresh db.enrollments, w.enrollment_keys)

  progress_keys-after : Distinct (progress_ids after)
  unfolding insert_progress
  progress_keys-after = ground (
    arith,
    fresh_no_row,
    mem-map-key (λ (p : Progress). p.enrollment_id) env.fresh db.progress,
    w.progress_keys,
  )

  after-WellFormed : WellFormed after
  after-WellFormed = record {
    enrollment_keys = enrollment_keys-after;
    progress_keys = progress_keys-after;
    done_once = λ j. unfold insert_progress in w.done_once j;
    done_owned =
        λ j l h. ground (arith, enrollment_by-after j, is_done-after j l, w.done_owned j l);
    done_in_course = λ j l r there h. ground (
      arith,
      lesson_in-after r.course_id l,
      is_done-after j l,
      w.done_in_course j l r (old_if_done j l r there h),
    );
    progress_owned =
        λ j h. ground (arith, enrollment_by-after j, progress_by-after j, w.progress_owned j);
  }

  after-InOrder : InOrder db → InOrder after
  after-InOrder o j l r p there h place sequential =
      let same = in_order-after j l r.course_id p.module_position p.lesson_position in
      ground (arith, same, is_done-after j l, o j l r p (old_if_done j l r there h))

  Synced-after :
      Synced db
      → (j : Uuid) (r : Enrollment) → enrollment_by after j ≡ some r
      → (progress_by after j ≡ some (expected_progress after r))
        × (r.status ≡ expected_status after r)
  unfolding expected_progress expected_status percent derived_status
  Synced-after s j r there = ground (
    arith,
    enrollment_by-after j,
    progress_by-after j,
    fresh_count,
    total_lessons-after r.course_id,
    completed_lessons-after r.id,
    s.row j r,
    s.status j r,
  )

  after-Synced : Synced db → Synced after
  after-Synced s = record {
    row = λ j r there. (Synced-after s j r there).0;
    status = λ j r there. (Synced-after s j r there).1;
  }

-- From tables that are well formed, with the projection in step with the events and the completed
-- lessons in order, an enrollment that commits leads to such tables.
pub enroll_tx-Inv :
    (env : Env) (member course : Uuid) (db : Db) (id : Uuid) (created : Bool) (db' : Db)
    → Inv db
    → enroll_tx env member course db ≡ ok (id, created, db')
    → Inv db'
enroll_tx-Inv env member course db id created db' v h =
    elim (enroll_tx_effect env member course db id created db' h) [
      | inl x ↦ rw (Existing-unchanged member course db id created db' v.synced x) v
      | inr x ↦ rw x.tables (record {
        formed = after-WellFormed env member course db x.unused v.formed;
        synced = after-Synced env member course db x.unused v.formed v.synced;
        ordered = after-InOrder env member course db x.unused v.formed v.ordered;
      })
    ]
