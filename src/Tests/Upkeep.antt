-- ===== src/Tests/Upkeep.antt =====
-- The reconciliation and the demo reset on the small course.
use learning_center_referenc.Prelude.{
  ℕ, ◌*◌, ◌<◌, arith, ◌≡◌, refl, ◌↔◌, true, false, none, some, [], length, sort_by, Distinct, mem,
  if◌then◌else◌,
}
use learning_center_referenc.Store.Result.{ok}
use learning_center_referenc.Store.Schema.{Db}
use learning_center_referenc.Store.Queries.{enrollment_by, total_lessons}
use learning_center_referenc.Store.Dashboard.{enrolled_leb}
use learning_center_referenc.Store.Invariant.{Inv, Synced, enrollment_ids}
use learning_center_referenc.Projection.{
  projected_counts, expected_counts, drift_of, counts_eq, is_drifted, overflows, query_rows,
  drifted_rows, upsert, restatus, repair_each, report_of, finish, reconcile_tx, exit_code,
}
use learning_center_referenc.Projection.Reports.{drifted_rows-eq-nil_iff, reconcile_dry}
use learning_center_referenc.Projection.Commits.{reconcile_tx_commits}
use learning_center_referenc.Projection.Sound.{reconcile_tx-Synced}
use learning_center_referenc.Demoreset.{is_demo, is_deleted, delete_demo}
use learning_center_referenc.Demoreset.Keeps.{enrollment_by-delete_demo}
use learning_center_referenc.Demoreset.Invariant.{delete_demo-Inv}
use learning_center_referenc.Tests.Fixtures.{
  env-Healthy, enrolled_db-Inv, program, env, fresh_db, enrolled_db, half_db, half_db-Inv,
}

upkeep : Unit {0}
unfolding program projected_counts expected_counts drift_of counts_eq is_drifted overflows
    query_rows drifted_rows upsert restatus repair_each report_of finish reconcile_tx exit_code
    sort_by enrolled_leb is_demo is_deleted delete_demo mem
upkeep = tt

-- The projection row of the enrollment is lost.
abbrev lost_db : Db
lost_db = record enrolled_db { progress = [] }

one_id : Distinct (enrollment_ids lost_db)
unfolding upkeep
one_id = (refl, tt)

repaired : reconcile_tx env true lost_db ≡ ok (report_of true lost_db, enrolled_db)
unfolding upkeep
repaired = refl

reported : reconcile_tx env false lost_db ≡ ok (report_of false lost_db, lost_db)
unfolding upkeep
reported = refl

drift_exit : exit_code (report_of false lost_db) ≡ 3
unfolding upkeep
drift_exit = refl

drifted_rows-eq-nil_iff_example : (drifted_rows lost_db ≡ []) ↔ Synced lost_db
drifted_rows-eq-nil_iff_example = drifted_rows-eq-nil_iff lost_db one_id

reconcile_tx-Synced_example :
    ((report_of true lost_db).drifted ≡ drifted_rows lost_db) × Synced enrolled_db
reconcile_tx-Synced_example =
    reconcile_tx-Synced env lost_db (report_of true lost_db) enrolled_db one_id repaired

reconcile_dry_example :
    (lost_db ≡ lost_db)
    × ((report_of false lost_db).checked ≡ length lost_db.enrollments)
    × ((exit_code (report_of false lost_db) ≡ 3) ↔ (¬ Synced lost_db))
reconcile_dry_example = reconcile_dry env lost_db (report_of false lost_db) lost_db one_id reported

reset_run : delete_demo half_db ≡ fresh_db
unfolding upkeep
reset_run = refl

reset_db_kept : Inv (delete_demo half_db)
reset_db_kept = delete_demo-Inv half_db half_db-Inv

demo_enrollment_gone : enrollment_by (delete_demo half_db) 100 ≡ elim (enrollment_by half_db 100) [
  | none ↦ none
  | some e ↦ if is_demo half_db e then none else some e
]
demo_enrollment_gone = enrollment_by-delete_demo half_db half_db-Inv.formed 100

small_courses : (c : ℕ) → total_lessons enrolled_db c * 100 < 2147483648
unfolding upkeep
small_courses c = ground arith

reconcile_tx_commits_example :
    (db' : Db) × (reconcile_tx env true enrolled_db ≡ ok (report_of true enrolled_db, db'))
    × Synced db'
reconcile_tx_commits_example =
    reconcile_tx_commits env enrolled_db env-Healthy enrolled_db-Inv.formed small_courses
