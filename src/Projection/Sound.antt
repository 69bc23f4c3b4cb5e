-- ===== src/Projection/Sound.antt =====
-- projection.Reconcile with apply: the tables that it leaves.
use learning_center_referenc.Prelude.{
  ◌≡◌, refl, true, none, some, List, [], ◌∷◌, arith, Distinct, Option-cases, inl, inr,
}
use learning_center_referenc.Learning.{Uuid}
use learning_center_referenc.Store.Result.{Env, ok, Result-cases}
use learning_center_referenc.Store.Schema.{Enrollment, Db}
use learning_center_referenc.Store.Queries.{
  enrollment_by, progress_by, derived_status, completed_lessons, total_lessons, in_course,
}
use learning_center_referenc.Store.Invariant.{
  enrollment_ids, Synced, expected_progress, expected_status,
}
use learning_center_referenc.Projection.{
  Drift, Report, expected_counts, drift_of, drifted_rows, repair_each, report_of, is_empty, finish,
  reconcile_tx,
}
use learning_center_referenc.Projection.Repair.{
  repaired, repair_each-repaired, drift_by, progress_by-repaired, enrollment_by-repaired,
  repaired_sources,
}
use learning_center_referenc.Projection.Reports.{
  drift_by-drifted_rows, drifted_rows-Distinct, in_step_id, not_reported,
}

module _ (db : Db) (u : Distinct (enrollment_ids db)) where
  abbrev after : Db
  after = repaired (drifted_rows db) db

  counts_after :
      (j c : Uuid)
      → (completed_lessons after j ≡ completed_lessons db j)
        × (total_lessons after c ≡ total_lessons db c)
  unfolding completed_lessons total_lessons in_course
  counts_after j c =
      let (events, modules, lessons) = repaired_sources (drifted_rows db) db in
      (rw events, rw (modules, lessons))

  reported :
      (j : Uuid) (e : Enrollment) (d : Drift)
      → enrollment_by db j ≡ some e
      → drift_by j (drifted_rows db) ≡ some d
      → d ≡ drift_of db e
  reported j e d there found = ground (arith, drift_by-drifted_rows db j u)

  repaired_reported :
      (j : Uuid) (e : Enrollment) (d : Drift)
      → enrollment_by db j ≡ some e
      → drift_by j (drifted_rows db) ≡ some d
      → (r : Enrollment) → enrollment_by after j ≡ some r
      → (progress_by after j ≡ some (expected_progress after r))
        × (r.status ≡ expected_status after r)
  unfolding drift_of expected_counts expected_progress expected_status derived_status
  repaired_reported j e d there found r now = ground (
    arith,
    reported j e d there found,
    enrollment_by-repaired (drifted_rows db) db j (drifted_rows-Distinct db u),
    progress_by-repaired (drifted_rows db) db j (drifted_rows-Distinct db u),
    counts_after e.id e.course_id,
  )

  repaired_other :
      (j : Uuid) (e : Enrollment)
      → enrollment_by db j ≡ some e
      → drift_by j (drifted_rows db) ≡ none
      → (r : Enrollment) → enrollment_by after j ≡ some r
      → (progress_by after j ≡ some (expected_progress after r))
        × (r.status ≡ expected_status after r)
  unfolding expected_progress expected_status
  repaired_other j e there absent r now = ground (
    arith,
    not_reported db j e u there absent,
    in_step_id db j e there,
    enrollment_by-repaired (drifted_rows db) db j (drifted_rows-Distinct db u),
    progress_by-repaired (drifted_rows db) db j (drifted_rows-Distinct db u),
    counts_after e.id e.course_id,
  )

  repaired_at :
      (j : Uuid) (r : Enrollment)
      → enrollment_by after j ≡ some r
      → (progress_by after j ≡ some (expected_progress after r))
        × (r.status ≡ expected_status after r)
  repaired_at j r now = elim (Option-cases (enrollment_by db j)) [
    | inl missing ↦ absurd (
        ground (
          arith,
          missing,
          enrollment_by-repaired (drifted_rows db) db j (drifted_rows-Distinct db u),
          drift_by-drifted_rows db j u,
        ))
    | inr (e, there) ↦ elim (Option-cases (drift_by j (drifted_rows db))) [
      | inl absent ↦ repaired_other j e there absent r now
      | inr (d, found) ↦ repaired_reported j e d there found r now
    ]
  ]

  pub repaired-Synced : Synced after
  repaired-Synced = record {
    row = λ j r now. (repaired_at j r now).0;
    status = λ j r now. (repaired_at j r now).1;
  }

pub repaired_empty : (ds : List Drift) (db : Db) → is_empty ds ≡ true → repaired ds db ≡ db
unfolding repaired
repaired_empty [] db h = refl
repaired_empty (d ∷ ds) db h = ground arith

pub applied_tables :
    (env : Env) (db : Db) (report : Report) (db' : Db)
    → reconcile_tx env true db ≡ ok (report, db')
    → (report ≡ report_of true db) × (db' ≡ repaired (drifted_rows db) db)
unfolding reconcile_tx finish
applied_tables env db report db' h = elim (Result-cases (repair_each env (drifted_rows db) db)) [
  | inl (x, done) ↦ ground (
    arith,
    repaired_empty (drifted_rows db) db,
    repair_each-repaired env (drifted_rows db) db x done,
  )
  | inr (e, refused) ↦ ground (arith, repaired_empty (drifted_rows db) db)
]

-- With distinct enrollment ids, an applied run that commits reports every enrollment that was out
-- of step, and leaves tables in which every enrollment has the projection row and the status that
-- its events give.
pub reconcile_tx-Synced :
    (env : Env) (db : Db) (report : Report) (db' : Db)
    → Distinct (enrollment_ids db)
    → reconcile_tx env true db ≡ ok (report, db')
    → (report.drifted ≡ drifted_rows db) × Synced db'
unfolding report_of
reconcile_tx-Synced env db report db' u h =
    let (reported, tables) = applied_tables env db report db' h in
    (ground (arith, reported), rw tables (repaired-Synced db u))
