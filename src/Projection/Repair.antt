-- ===== src/Projection/Repair.antt =====
-- What the repair loop leaves, row by row.
use learning_center_referenc.Prelude.{
  ◌≡◌, refl, Option, none, some, List, [], ◌∷◌, map, arith, if◌then◌else◌, ◌==◌, ==_iff, find,
  find_sound, keyed, Distinct, mem-map-key, find-update, Option-cases, inl, inr,
}
use learning_center_referenc.Learning.{Uuid}
use learning_center_referenc.Store.Result.{Env, ok}
use learning_center_referenc.Store.Schema.{Enrollment, Progress, Db}
use learning_center_referenc.Store.Queries.{enrollment_by, progress_by}
use learning_center_referenc.Projection.{
  Drift, progress_of, upsert, restatus, set_status, repair_each,
}

-- The loop without its failures.
unfoldable pub repaired : List Drift → Db → Db
repaired [] db = db
repaired (d ∷ ds) db = repaired ds (restatus d (upsert d db))

pub repair_each-repaired :
    (env : Env) (ds : List Drift) (db db' : Db)
    → repair_each env ds db ≡ ok db'
    → db' ≡ repaired ds db
unfolding repair_each repaired
repair_each-repaired env [] db db' h = ground arith
repair_each-repaired env (d ∷ ds) db db' h =
    ground (arith, repair_each-repaired env ds (restatus d (upsert d db)) db')

abbrev one : Drift → Db → Db
one d db = restatus d (upsert d db)

progress_by-one :
    (d : Drift) (db : Db) (j : Uuid)
    → progress_by (one d db) j
      ≡ (if d.enrollment_id == j then some (progress_of d) else progress_by db j)
unfolding restatus upsert find
progress_by-one d db j = elim (Option-cases (progress_by db d.enrollment_id)) [
  | inl missing ↦ ground arith
  | inr (p, there) ↦ ground (
    arith,
    (==_iff p.enrollment_id d.enrollment_id).0 (
        find_sound (keyed (λ (p : Progress). p.enrollment_id) d.enrollment_id) db.progress p there),
    find-update (λ (p : Progress). p.enrollment_id) d.enrollment_id j
        (λ p. record p {
          completed_lessons = d.expected.completed_lessons;
          total_lessons = d.expected.total_lessons;
          percent_complete = d.expected.percent_complete;
        })
        db.progress (λ p. refl),
  )
]

enrollment_by-one :
    (d : Drift) (db : Db) (j : Uuid)
    → enrollment_by (one d db) j ≡ (
        if d.enrollment_id == j
        then elim (enrollment_by db j) [
          | none ↦ none
          | some e ↦ some (set_status d.expected.status e)
        ]
        else enrollment_by db j)
unfolding restatus upsert
enrollment_by-one d db j =
    find-update (λ (e : Enrollment). e.id) d.enrollment_id j (set_status d.expected.status)
      db.enrollments (λ e. refl)

abbrev pub drift_ids : List Drift → List Uuid
drift_ids = map (λ d. d.enrollment_id)

abbrev pub drift_by : Uuid → List Drift → Option Drift
drift_by j = find (keyed (λ (d : Drift). d.enrollment_id) j)

-- Of each drifted enrollment, the projection row is the expected one afterwards; the other rows
-- are as before.
pub progress_by-repaired :
    (ds : List Drift) (db : Db) (j : Uuid)
    → Distinct (drift_ids ds)
    → progress_by (repaired ds db) j
      ≡ elim (drift_by j ds) [ none ↦ progress_by db j | some d ↦ some (progress_of d) ]
unfolding repaired find
progress_by-repaired [] db j u = refl
progress_by-repaired (d ∷ ds) db j u = ground (
  arith,
  progress_by-repaired ds (one d db) j u.1,
  progress_by-one d db j,
  mem-map-key (λ (d : Drift). d.enrollment_id) d.enrollment_id ds,
)

-- The status of each drifted enrollment is the expected one afterwards.
pub enrollment_by-repaired :
    (ds : List Drift) (db : Db) (j : Uuid)
    → Distinct (drift_ids ds)
    → enrollment_by (repaired ds db) j ≡ elim (drift_by j ds) [
      | none ↦ enrollment_by db j
      | some d ↦ elim (enrollment_by db j) [
        | none ↦ none
        | some e ↦ some (set_status d.expected.status e)
      ]
    ]
unfolding repaired find
enrollment_by-repaired [] db j u = refl
enrollment_by-repaired (d ∷ ds) db j u = ground (
  arith,
  enrollment_by-repaired ds (one d db) j u.1,
  enrollment_by-one d db j,
  mem-map-key (λ (d : Drift). d.enrollment_id) d.enrollment_id ds,
)

-- The events and the courses are not touched.
pub repaired_sources :
    (ds : List Drift) (db : Db)
    → ((repaired ds db).events ≡ db.events)
      × ((repaired ds db).modules ≡ db.modules)
      × ((repaired ds db).lessons ≡ db.lessons)
unfolding repaired restatus upsert
repaired_sources [] db = (refl, refl, refl)
repaired_sources (d ∷ ds) db = repaired_sources ds (one d db)
