-- ===== src/Projection/Reports.antt =====
-- projection.Reconcile without apply: the report, and the exit code of the command.
use learning_center_referenc.Prelude.{
  ◌≡◌, refl, ◌↔◌, true, false, none, some, List, [], ◌∷◌, arith, if◌then◌else◌, ==_iff, ==_refl,
  find, find_sound, keyed, Distinct, Option-cases, Bool-cases, inl, inr, ap, ◌∙◌, sym, sort_by,
  find-where_-map, Distinct-where_-map, find-sort_by, Distinct-sort_by, length, length-map,
  length-sort_by,
}
use learning_center_referenc.Learning.{Uuid, EnrollmentStatus, withdrawn, active, completed}
use learning_center_referenc.Store.Result.{Env, ok}
use learning_center_referenc.Store.Schema.{Enrollment, Progress, Db}
use learning_center_referenc.Store.Queries.{
  enrollment_by, progress_by, is_withdrawn, derived_status, completed_lessons, total_lessons,
}
use learning_center_referenc.Store.Dashboard.{enrolled_leb}
use learning_center_referenc.Store.Invariant.{
  enrollment_ids, Synced, expected_progress, expected_status,
}
use learning_center_referenc.Projection.{
  Drift, Report, projected_counts, expected_counts, drift_of, status_eq, counts_eq, is_drifted,
  query_rows, drifted_rows, report_of, is_empty, finish, reconcile_tx, exit_code,
}
use learning_center_referenc.Projection.Repair.{drift_ids, drift_by}

status_eq_iff : (a b : EnrollmentStatus) → (status_eq a b ≡ true) ↔ (a ≡ b)
status_eq_iff active b = ground arith
status_eq_iff completed b = ground arith
status_eq_iff withdrawn b = ground arith

abbrev InStep : Db → Enrollment → Type 0
InStep db e =
    (progress_by db e.id ≡ some (expected_progress db e)) × (e.status ≡ expected_status db e)

-- A row is left out of the report exactly if the projection and the status are the expected ones.
drifted_iff : (db : Db) (e : Enrollment) → (is_drifted (drift_of db e) ≡ false) ↔ InStep db e
unfolding is_drifted drift_of counts_eq projected_counts expected_counts expected_progress
    expected_status
drifted_iff db e = elim (Option-cases (progress_by db e.id)) [
  | inl missing ↦ ground arith
  | inr (p, there) ↦ ground (
    arith,
    (==_iff p.enrollment_id e.id).0
        (find_sound (keyed (λ (p : Progress). p.enrollment_id) e.id) db.progress p there),
    status_eq_iff e.status (
        if is_withdrawn e.status
        then withdrawn
        else derived_status (completed_lessons db e.id) (total_lessons db e.course_id)),
  )
]

pub drift_by-drifted_rows :
    (db : Db) (j : Uuid)
    → Distinct (enrollment_ids db)
    → drift_by j (drifted_rows db) ≡ elim (enrollment_by db j) [
      | none ↦ none
      | some e ↦ if is_drifted (drift_of db e) then some (drift_of db e) else none
    ]
unfolding drifted_rows query_rows drift_of
drift_by-drifted_rows db j u = ground (
  arith,
  find-where_-map (λ (e : Enrollment). e.id) (λ (d : Drift). d.enrollment_id) (drift_of db)
      is_drifted j (sort_by enrolled_leb db.enrollments) (λ e. refl)
      (Distinct-sort_by enrolled_leb (λ (e : Enrollment). e.id) db.enrollments u),
  find-sort_by enrolled_leb (λ (e : Enrollment). e.id) j db.enrollments u,
)

pub drifted_rows-Distinct :
    (db : Db) → Distinct (enrollment_ids db) → Distinct (drift_ids (drifted_rows db))
unfolding drifted_rows query_rows drift_of
drifted_rows-Distinct db u =
    Distinct-where_-map (λ (e : Enrollment). e.id) (λ (d : Drift). d.enrollment_id) (drift_of db)
      is_drifted (sort_by enrolled_leb db.enrollments) (λ e. refl)
      (Distinct-sort_by enrolled_leb (λ (e : Enrollment). e.id) db.enrollments u)

empty_of_no_key : (ds : List Drift) → ((j : Uuid) → drift_by j ds ≡ none) → ds ≡ []
unfolding find
empty_of_no_key [] h = refl
empty_of_no_key (d ∷ ds) h = absurd (ground (arith, h d.enrollment_id, ==_refl d.enrollment_id))

pub in_step_id : (db : Db) (j : Uuid) (e : Enrollment) → enrollment_by db j ≡ some e → e.id ≡ j
in_step_id db j e there =
    (==_iff e.id j).0 (find_sound (keyed (λ (e : Enrollment). e.id) j) db.enrollments e there)

-- An enrollment that is not in the report is in step.
pub not_reported :
    (db : Db) (j : Uuid) (e : Enrollment)
    → Distinct (enrollment_ids db)
    → enrollment_by db j ≡ some e
    → drift_by j (drifted_rows db) ≡ none
    → InStep db e
not_reported db j e u there no_drift =
    (drifted_iff db e).0 (ground (arith, drift_by-drifted_rows db j u))

Synced-none :
    (db : Db) (j : Uuid)
    → Distinct (enrollment_ids db)
    → Synced db
    → drift_by j (drifted_rows db) ≡ none
Synced-none db j u s = elim (Option-cases (enrollment_by db j)) [
  | inl missing ↦ ground (arith, drift_by-drifted_rows db j u)
  | inr (e, there) ↦
      let row : progress_by db e.id ≡ some (expected_progress db e) =
        ap (progress_by db) (in_step_id db j e there) ∙ s.row j e there in
      ground (arith, drift_by-drifted_rows db j u, (drifted_iff db e).1 (row, s.status j e there))
]

-- With distinct enrollment ids, no enrollment is reported exactly if every enrollment has the
-- projection row and the status that its events give.
pub drifted_rows-eq-nil_iff :
    (db : Db) → Distinct (enrollment_ids db) → (drifted_rows db ≡ []) ↔ Synced db
unfolding find
drifted_rows-eq-nil_iff db u = (
  λ clean.
      let step = λ (j : Uuid) (e : Enrollment) (there : enrollment_by db j ≡ some e).
        not_reported db j e u there (rw clean refl) in
      record {
        row = λ j e there. sym (ap (progress_by db) (in_step_id db j e there)) ∙ (step j e there).0;
        status = λ j e there. (step j e there).1;
      },
  λ s. empty_of_no_key (drifted_rows db) (λ j. Synced-none db j u s),
)

is_empty_iff : (ds : List Drift) → (is_empty ds ≡ true) ↔ (ds ≡ [])
is_empty_iff [] = ground arith
is_empty_iff (d ∷ ds) = ground arith

dry_exit :
    (db : Db) → Distinct (enrollment_ids db) → (exit_code (report_of false db) ≡ 3) ↔ (¬ Synced db)
unfolding exit_code report_of
dry_exit db u = (
  λ code s. ground (arith, (is_empty_iff (drifted_rows db)).1 ((drifted_rows-eq-nil_iff db u).1 s)),
  λ off. elim (Bool-cases (is_empty (drifted_rows db))) [
    | inl clean ↦
        absurd (off ((drifted_rows-eq-nil_iff db u).0 ((is_empty_iff (drifted_rows db)).0 clean)))
    | inr drift ↦ rw drift
  ],
)

checked : (db : Db) → (report_of false db).checked ≡ length db.enrollments
unfolding report_of query_rows
checked db =
    length-map (drift_of db) (sort_by enrolled_leb db.enrollments)
    ∙ length-sort_by enrolled_leb db.enrollments

-- With distinct enrollment ids, a run that only reports and meets no error changes nothing, checks
-- every enrollment, and the command exits with code 3 exactly if some enrollment is out of step.
pub reconcile_dry :
    (env : Env) (db : Db) (report : Report) (db' : Db)
    → Distinct (enrollment_ids db)
    → reconcile_tx env false db ≡ ok (report, db')
    → (db' ≡ db)
      × (report.checked ≡ length db.enrollments)
      × ((exit_code report ≡ 3) ↔ (¬ Synced db))
unfolding reconcile_tx finish
reconcile_dry env db report db' u h =
    let r : report ≡ report_of false db = ground arith in
    (ground arith, rw r (checked db), rw r (dry_exit db u))
