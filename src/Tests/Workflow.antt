-- ===== src/Tests/Workflow.antt =====
-- Enrollments and completions on the small course.
use learning_center_referenc.Prelude.{
  ◌≡◌, refl, ◌≢◌, ◌≤◌, ◌↔◌, true, false, not, ◌||◌, ◌&&◌, some, inr, ◌==◌, find, exists,
}
use learning_center_referenc.Learning.{Uuid, sequential}
use learning_center_referenc.Store.Result.{ok, err, forbidden, out_of_order, enrollment_withdrawn}
use learning_center_referenc.Store.Schema.{Enrollment, Event, Db}
use learning_center_referenc.Store.Queries.{
  enrollment_by, completed_lessons, total_lessons, is_sequential, is_withdrawn, is_done, of_pair,
  for_pair,
}
use learning_center_referenc.Store.Invariant.{Inv}
use learning_center_referenc.Store.Enroll.{enroll_tx, enroll}
use learning_center_referenc.Store.Enroll.Keeps.{enroll_tx-Inv}
use learning_center_referenc.Store.Enroll.Retry.{enroll_tx_retry, enroll_tx_succeeds}
use learning_center_referenc.Store.Complete.{
  Place, lesson_place, unfinished_earlier, complete_tx, complete_lesson,
}
use learning_center_referenc.Store.Complete.Effect.{completed_db}
use learning_center_referenc.Store.Complete.Keeps.{complete_tx-Inv}
use learning_center_referenc.Store.Complete.Succeeds.{
  Ready, completed-le-total, complete_tx_succeeds,
}
use learning_center_referenc.Store.Complete.Retry.{complete_tx_retry}
use learning_center_referenc.Store.Complete.Refusals.{
  Placed, complete_tx-forbidden_iff, complete_tx-withdrawn_iff, complete_tx-out_of_order_iff,
  complete_lesson_refused,
}
use learning_center_referenc.Store.Complete.History.{complete_tx_appends}
use learning_center_referenc.Machine.{enrolls, completes, Reach, here, next, Reach-Inv}
use learning_center_referenc.Tests.Fixtures.{
  program, env, env-Healthy, fresh_db, enrolled_db, half_db, enrollment, enroll_run, complete_run,
  fresh_db-IsFresh, fresh_db-Inv, enrolled_db-Inv, half_db-Inv, course_bound,
}

-- The learner of the course enrolls and completes the first lesson.
abbrev history : Reach fresh_db (complete_lesson env 1 100 31 (enroll env 1 10 fresh_db).0).0
history = next (next here (enrolls env 1 10)) (completes env 1 100 31)

history_run : (complete_lesson env 1 100 31 (enroll env 1 10 fresh_db).0).0 ≡ half_db
unfolding program
history_run = refl

Reach-Inv_example : Inv (complete_lesson env 1 100 31 (enroll env 1 10 fresh_db).0).0
Reach-Inv_example = Reach-Inv fresh_db _ fresh_db-IsFresh history

enrolled_db_kept : Inv enrolled_db
enrolled_db_kept = enroll_tx-Inv env 1 10 fresh_db 100 true enrolled_db fresh_db-Inv enroll_run

enroll_tx_retry_example : enroll_tx env 1 10 enrolled_db ≡ ok (100, false, enrolled_db)
enroll_tx_retry_example =
    enroll_tx_retry env env 1 10 fresh_db 100 true enrolled_db fresh_db-Inv enroll_run env-Healthy

first_enrollment_succeeds :
    (id : Uuid) × (db' : Db) × (enroll_tx env 1 10 fresh_db
      ≡ ok (id, not (exists (for_pair 1 10) fresh_db.enrollments), db'))
unfolding program
first_enrollment_succeeds = enroll_tx_succeeds env 1 10 fresh_db _ env-Healthy refl refl refl refl

half_db_kept : Inv half_db
half_db_kept = complete_tx-Inv env 1 100 31 enrolled_db true half_db enrolled_db-Inv complete_run

enrollment_found : enrollment_by enrolled_db 100 ≡ some enrollment
unfolding program
enrollment_found = refl

complete_tx_retry_example : complete_tx env 1 100 31 half_db ≡ ok (false, half_db)
complete_tx_retry_example =
    complete_tx_retry env env 1 100 31 enrolled_db true half_db enrollment enrolled_db-Inv
      complete_run enrollment_found course_bound env-Healthy

half_done : completed_lessons half_db 100 ≤ total_lessons half_db 10
unfolding program
half_done = completed-le-total half_db 100 enrollment half_db-Inv.formed refl

abbrev first_place : Place
first_place = record { ordering = sequential; module_position = 1; lesson_position = 1 }

ready_placed : lesson_place enrolled_db 31 10 ≡ some first_place
unfolding program
ready_placed = refl

ready_in_order : unfinished_earlier enrolled_db 100 10 1 1 ≡ false
unfolding program
ready_in_order = refl

abbrev ready : Ready 1 100 31 enrolled_db
ready = record {
  e = enrollment;
  place = first_place;
  found = enrollment_found;
  owned = refl;
  running = refl;
  placed = ready_placed;
  in_order = λ h. ready_in_order;
}

complete_tx_succeeds_example :
    complete_tx env 1 100 31 enrolled_db
    ≡ ok (not (is_done enrolled_db 100 31), completed_db env 1 100 31 enrollment enrolled_db)
complete_tx_succeeds_example =
    complete_tx_succeeds env 1 100 31 enrolled_db env-Healthy enrolled_db-Inv.formed ready
      course_bound

complete_tx_appends_example :
    ((j l : Uuid) (ev : Event)
      → find (of_pair j l) enrolled_db.events ≡ some ev
      → find (of_pair j l) half_db.events ≡ some ev)
    × ((j l : Uuid) → is_done half_db j l ≡ (is_done enrolled_db j l || (100 == j && 31 == l)))
complete_tx_appends_example = complete_tx_appends env 1 100 31 enrolled_db true half_db complete_run

foreign_forbidden :
    (complete_tx env 2 100 31 enrolled_db ≡ err forbidden)
    ↔ ((e : Enrollment) × (enrollment_by enrolled_db 100 ≡ some e) × (e.member_id ≢ 2))
foreign_forbidden = complete_tx-forbidden_iff env 2 100 31 enrolled_db env-Healthy

withdrawal_refused : (complete_tx env 1 100 31 enrolled_db ≡ err enrollment_withdrawn) ↔ (
    (e : Enrollment) × (enrollment_by enrolled_db 100 ≡ some e)
    × (e.member_id ≡ 1)
    × (is_withdrawn e.status ≡ true))
withdrawal_refused = complete_tx-withdrawn_iff env 1 100 31 enrolled_db env-Healthy

complete_tx-out_of_order_iff_example : (complete_tx env 1 100 32 enrolled_db ≡ err out_of_order) ↔ (
    (t : Placed 1 100 32 enrolled_db) × (is_sequential t.place.ordering ≡ true)
    × (unfinished_earlier enrolled_db 100 t.e.course_id t.place.module_position
          t.place.lesson_position
        ≡ true))
complete_tx-out_of_order_iff_example =
    complete_tx-out_of_order_iff env 1 100 32 enrolled_db env-Healthy

early : (complete_lesson env 1 100 32 enrolled_db).1 ≡ err out_of_order
unfolding program
early = refl

early_lesson_refused :
    ((complete_lesson env 1 100 32 enrolled_db).0 ≡ enrolled_db)
    × (complete_tx env 1 100 32 enrolled_db ≡ err out_of_order)
early_lesson_refused =
    complete_lesson_refused env 1 100 32 enrolled_db out_of_order (inr (inr refl)) early
