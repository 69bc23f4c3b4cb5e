-- ===== src/Projection/Commits.antt =====
-- projection.Reconcile with apply: the checks of the tables on what it writes.
use learning_center_referenc.Prelude.{
  ℕ, ◌*◌, ◌<◌, ◌≡◌, refl, Bool, true, false, not, some, List, [], ◌∷◌, map, arith, ==_refl, exists,
  find, keyed, Distinct, Bool-cases, Option-cases, inl, inr, mem-map-key,
}
use learning_center_referenc.Learning.{Uuid}
use learning_center_referenc.Store.Result.{Env, ok, Healthy}
use learning_center_referenc.Store.Schema.{Enrollment, Db}
use learning_center_referenc.Store.Queries.{enrollment_by, completed_lessons, total_lessons}
use learning_center_referenc.Store.Complete.{is_storable}
use learning_center_referenc.Store.Complete.Succeeds.{completed-le-total, is_storable_of_le}
use learning_center_referenc.Store.Invariant.{WellFormed, Synced}
use learning_center_referenc.Projection.{
  Drift, expected_counts, drift_of, overflows, drifted_rows, repair_each, restatus, upsert,
  report_of, finish, reconcile_tx,
}
use learning_center_referenc.Projection.Repair.{repaired}
use learning_center_referenc.Projection.Reports.{
  drift_by-drifted_rows, drifted_rows-Distinct, in_step_id,
}
use learning_center_referenc.Projection.Sound.{repaired-Synced, repaired_empty}

-- A row that passes a test is the row of its key.
exists_found :
    {R : Type 0} (key : R → ℕ) (p : R → Bool) (rows : List R)
    → Distinct (map key rows)
    → exists p rows ≡ true
    → (r : R) × (find (keyed key (key r)) rows ≡ some r) × (p r ≡ true)
unfolding exists find
exists_found key p [] u h = absurd (ground arith)
exists_found key p (r ∷ rows) u h = elim (Bool-cases (p r)) [
  | inl passes ↦ (r, ground (arith, ==_refl (key r)), passes)
  | inr fails ↦
      let (r', found, passes) = exists_found key p rows u.1 (ground arith) in
      (r', ground (arith, mem-map-key key (key r) rows, found, u.0), passes)
]

-- What the tables hold when a run starts, and that they are small enough for int4.
module _ (db : Db) (w : WellFormed db)
    (small : (c : Uuid) → total_lessons db c * 100 < 2147483648) where
  nothing-overflows : exists (overflows db) db.enrollments ≡ false
  unfolding overflows
  nothing-overflows = elim (Bool-cases (exists (overflows db) db.enrollments)) [
    | inr none_does ↦ none_does
    | inl some_does ↦
        let (e, found, over) =
          exists_found (λ (e : Enrollment). e.id) (overflows db) db.enrollments w.enrollment_keys
            some_does in
        absurd (ground (arith, over, completed-le-total db e.id e w found, small e.course_id))
  ]

  abbrev refused : Drift → Bool
  refused d = not (is_storable d.expected.completed_lessons d.expected.total_lessons)

  nothing_refused : exists refused (drifted_rows db) ≡ false
  unfolding drift_of expected_counts
  nothing_refused = elim (Bool-cases (exists refused (drifted_rows db))) [
    | inr none_is ↦ none_is
    | inl some_is ↦
        let (d, found, bad) =
          exists_found (λ (d : Drift). d.enrollment_id) refused (drifted_rows db)
            (drifted_rows-Distinct db w.enrollment_keys) some_is in
        elim (Option-cases (enrollment_by db d.enrollment_id)) [
          | inl missing ↦
              absurd
                (ground (arith, found, drift_by-drifted_rows db d.enrollment_id w.enrollment_keys))
          | inr (e, there) ↦
              let id : e.id ≡ d.enrollment_id = in_step_id db d.enrollment_id e there in
              absurd (
                ground (
                  arith,
                  found,
                  bad,
                  id,
                  drift_by-drifted_rows db d.enrollment_id w.enrollment_keys,
                  completed-le-total db d.enrollment_id e w there,
                  is_storable_of_le (completed_lessons db e.id) (total_lessons db e.course_id),
                  small e.course_id,
                ))
        ]
  ]

  repair_each-commits :
      (env : Env) (ds : List Drift) (now : Db)
      → Healthy env
      → exists refused ds ≡ false
      → repair_each env ds now ≡ ok (repaired ds now)
  unfolding repair_each repaired exists
  repair_each-commits env [] now healthy h = refl
  repair_each-commits env (d ∷ ds) now healthy h = ground (
    arith,
    healthy "rebuilding projection",
    healthy "updating status",
    repair_each-commits env ds (restatus d (upsert d now)) healthy,
  )

-- While the database answers, an applied run over well-formed tables, whose lesson counts times 100
-- fit in int4, commits: no check constraint refuses what it writes. It leaves every enrollment with
-- the projection row and the status that its events give.
pub reconcile_tx_commits :
    (env : Env) (db : Db)
    → Healthy env
    → WellFormed db
    → ((c : Uuid) → total_lessons db c * 100 < 2147483648)
    → (db' : Db) × (reconcile_tx env true db ≡ ok (report_of true db, db')) × Synced db'
unfolding reconcile_tx finish
reconcile_tx_commits env db healthy w small = (
  repaired (drifted_rows db) db,
  ground (
    arith,
    healthy "beginning reconcile",
    healthy "locking enrollments",
    healthy "computing expected progress",
    healthy "scanning expected progress",
    healthy "iterating expected progress",
    healthy "committing reconcile",
    nothing-overflows db w small,
    repair_each-commits db w small env (drifted_rows db) db healthy (nothing_refused db w small),
    repaired_empty (drifted_rows db) db,
  ),
  repaired-Synced db w.enrollment_keys,
)
