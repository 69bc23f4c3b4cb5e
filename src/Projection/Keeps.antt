-- ===== src/Projection/Keeps.antt =====
-- projection.Reconcile and the invariant of the tables.
use learning_center_referenc.Prelude.{
  ℕ, ◌≡◌, refl, ◌∙◌, sym, ap, Bool, true, false, some, List, [], ◌∷◌, arith, keyed, Distinct,
  Option-cases, inl, inr, mem-map-key, map-key-update, is_some,
}
use learning_center_referenc.Learning.{Uuid}
use learning_center_referenc.Store.Result.{Env, ok, Result-cases}
use learning_center_referenc.Store.Schema.{Enrollment, Progress, Db}
use learning_center_referenc.Store.Queries.{enrollment_by, progress_by, in_course, is_done}
use learning_center_referenc.Store.Complete.{lesson_place, is_earlier, unfinished_earlier}
use learning_center_referenc.Store.Invariant.{
  lesson_in, lessons_done, enrollment_ids, progress_ids, WellFormed, InOrder, Inv,
}
use learning_center_referenc.Projection.{
  Report, Drift, upsert, restatus, set_status, drifted_rows, reconcile_tx, reconcile, finish,
}
use learning_center_referenc.Projection.Repair.{
  repaired, progress_by-repaired, enrollment_by-repaired,
}
use learning_center_referenc.Projection.Reports.{drift_by-drifted_rows, drifted_rows-Distinct}
use learning_center_referenc.Projection.Sound.{repaired-Synced, applied_tables}

enrollment_ids-repaired :
    (ds : List Drift) (db : Db) → enrollment_ids (repaired ds db) ≡ enrollment_ids db
unfolding repaired restatus upsert
enrollment_ids-repaired [] db = refl
enrollment_ids-repaired (d ∷ ds) db =
    enrollment_ids-repaired ds (restatus d (upsert d db))
    ∙ map-key-update (λ (e : Enrollment). e.id) (keyed (λ (e : Enrollment). e.id) d.enrollment_id)
        (set_status d.expected.status) db.enrollments (λ e. refl)

upsert-Distinct :
    (d : Drift) (db : Db) → Distinct (progress_ids db) → Distinct (progress_ids (upsert d db))
unfolding upsert
upsert-Distinct d db u = elim (Option-cases (progress_by db d.enrollment_id)) [
  | inl missing ↦
      ground (arith, mem-map-key (λ (p : Progress). p.enrollment_id) d.enrollment_id db.progress)
  | inr (p, there) ↦ ground (
    arith,
    map-key-update (λ (p : Progress). p.enrollment_id)
        (keyed (λ (p : Progress). p.enrollment_id) d.enrollment_id)
        (λ p. record p {
          completed_lessons = d.expected.completed_lessons;
          total_lessons = d.expected.total_lessons;
          percent_complete = d.expected.percent_complete;
        })
        db.progress (λ p. refl),
  )
]

repaired-Distinct :
    (ds : List Drift) (db : Db)
    → Distinct (progress_ids db)
    → Distinct (progress_ids (repaired ds db))
unfolding repaired restatus
repaired-Distinct [] db u = u
repaired-Distinct (d ∷ ds) db u =
    repaired-Distinct ds (restatus d (upsert d db)) (upsert-Distinct d db u)

-- The tables that a repair reads but does not write.
pub record SameSources (db db' : Db) : Type 0 where
  pub events : db'.events ≡ db.events
  pub modules : db'.modules ≡ db.modules
  pub lessons : db'.lessons ≡ db.lessons
  pub courses : db'.courses ≡ db.courses

repaired-SameSources : (ds : List Drift) (db : Db) → SameSources db (repaired ds db)
unfolding repaired restatus upsert
repaired-SameSources [] db = record {
  events = refl;
  modules = refl;
  lessons = refl;
  courses = refl;
}
repaired-SameSources (d ∷ ds) db =
    let same = repaired-SameSources ds (restatus d (upsert d db)) in
    record {
      events = same.events;
      modules = same.modules;
      lessons = same.lessons;
      courses = same.courses;
    }

module _ (db db' : Db) (same : SameSources db db') where
  is_done-same : (e l : Uuid) → is_done db' e l ≡ is_done db e l
  unfolding is_done
  is_done-same e l = rw same.events

  lessons_done-same : (e : Uuid) → lessons_done db' e ≡ lessons_done db e
  lessons_done-same e = rw same.events

  lesson_in-same : (c l : Uuid) → lesson_in db' c l ≡ lesson_in db c l
  unfolding lesson_in in_course
  lesson_in-same c l = rw (same.modules, same.lessons)

  lesson_place-same : (l c : Uuid) → lesson_place db' l c ≡ lesson_place db l c
  unfolding lesson_place
  lesson_place-same l c = rw (same.modules, same.lessons, same.courses)

  unfinished_earlier-same :
      (e c : Uuid) (m l : ℕ) → unfinished_earlier db' e c m l ≡ unfinished_earlier db e c m l
  unfolding unfinished_earlier is_earlier is_done
  unfinished_earlier-same e c m l = rw (same.events, same.modules, same.lessons)

module _ (db : Db) (v : Inv db) where
  abbrev after : Db
  after = repaired (drifted_rows db) db

  abbrev sources : SameSources db after
  sources = repaired-SameSources (drifted_rows db) db

  enrollment_by-after :
      (j : Uuid) (r : Enrollment)
      → enrollment_by after j ≡ some r
      → (e : Enrollment) × (enrollment_by db j ≡ some e) × (r.course_id ≡ e.course_id)
  enrollment_by-after j r now = elim (Option-cases (enrollment_by db j)) [
    | inl missing ↦ absurd (
        ground (
          arith,
          enrollment_by-repaired (drifted_rows db) db j
              (drifted_rows-Distinct db v.formed.enrollment_keys),
          drift_by-drifted_rows db j v.formed.enrollment_keys,
        ))
    | inr (e, there) ↦ (
      e,
      there,
      ground (
        arith,
        enrollment_by-repaired (drifted_rows db) db j
            (drifted_rows-Distinct db v.formed.enrollment_keys),
        drift_by-drifted_rows db j v.formed.enrollment_keys,
      ),
    )
  ]

  is_some-enrollment_by-after :
      (j : Uuid) → is_some (enrollment_by after j) ≡ is_some (enrollment_by db j)
  is_some-enrollment_by-after j = ground (
    arith,
    enrollment_by-repaired (drifted_rows db) db j
        (drifted_rows-Distinct db v.formed.enrollment_keys),
    drift_by-drifted_rows db j v.formed.enrollment_keys,
  )

  progress_owned-after :
      (j : Uuid) → is_some (progress_by after j) ≡ true → is_some (enrollment_by db j) ≡ true
  progress_owned-after j h = ground (
    arith,
    progress_by-repaired (drifted_rows db) db j (drifted_rows-Distinct db v.formed.enrollment_keys),
    drift_by-drifted_rows db j v.formed.enrollment_keys,
    v.formed.progress_owned j,
  )

  after-WellFormed : WellFormed after
  after-WellFormed = record {
    enrollment_keys = rw (enrollment_ids-repaired (drifted_rows db) db) v.formed.enrollment_keys;
    progress_keys = repaired-Distinct (drifted_rows db) db v.formed.progress_keys;
    done_once = λ e. rw (lessons_done-same db after sources e) (v.formed.done_once e);
    done_owned = λ e l done.
        is_some-enrollment_by-after e
        ∙ v.formed.done_owned e l (sym (is_done-same db after sources e l) ∙ done);
    done_in_course = λ e l r there done.
        let (e', was, course) = enrollment_by-after e r there in
        lesson_in-same db after sources r.course_id l
        ∙ (ap (λ c. lesson_in db c l) course
            ∙ v.formed.done_in_course e l e' was (sym (is_done-same db after sources e l) ∙ done));
    progress_owned = λ e h. is_some-enrollment_by-after e ∙ progress_owned-after e h;
  }

  after-InOrder : InOrder after
  after-InOrder = λ e l r p there done place sequential.
      let (e', was, course) = enrollment_by-after e r there in
      unfinished_earlier-same db after sources e r.course_id p.module_position p.lesson_position
      ∙ (ap (λ c. unfinished_earlier db e c p.module_position p.lesson_position) course
          ∙ v.ordered e l e' p was (sym (is_done-same db after sources e l) ∙ done)
              (ap (lesson_place db l) (sym course)
                ∙ (sym (lesson_place-same db after sources l r.course_id) ∙ place))
              sequential)

  after-Inv : Inv after
  after-Inv = record {
    formed = after-WellFormed;
    synced = repaired-Synced db v.formed.enrollment_keys;
    ordered = after-InOrder;
  }

reported_tables :
    (env : Env) (db db' : Db) (report : Report)
    → reconcile_tx env false db ≡ ok (report, db')
    → db' ≡ db
unfolding reconcile_tx finish
reported_tables env db db' report h = ground arith

-- A run of the reconciliation keeps the invariant.
pub reconcile-Inv : (env : Env) (apply : Bool) (db : Db) → Inv db → Inv (reconcile env apply db).0
unfolding reconcile
reconcile-Inv env false db v = elim (Result-cases (reconcile_tx env false db)) [
  | inl ((report, db'), done) ↦ rw (done, reconcile) (rw (reported_tables env db db' report done) v)
  | inr (e, refused) ↦ rw (refused, reconcile) v
]
reconcile-Inv env true db v = elim (Result-cases (reconcile_tx env true db)) [
  | inl ((report, db'), done) ↦
      rw (done, reconcile) (rw (applied_tables env db report db' done).1 (after-Inv db v))
  | inr (e, refused) ↦ rw (refused, reconcile) v
]
