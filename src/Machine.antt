-- ===== src/Machine.antt =====
-- The tables over time: enrollments, completions, reconciliations and demo resets in any order, each
-- with its own environment, whatever it answers (api/internal/store/store.go,
-- api/internal/projection/reconcile.go, api/internal/demoreset/reset.go).
use learning_center_referenc.Prelude.{
  Bool, ℕ, ◌≡◌, [], arith, false, none, find, exists, Distinct, where_, inl, inr,
}
use learning_center_referenc.Learning.{Uuid}
use learning_center_referenc.Store.Result.{Env, ok, Result-cases}
use learning_center_referenc.Store.Schema.{Db}
use learning_center_referenc.Store.Queries.{enrollment_by, progress_by, is_done}
use learning_center_referenc.Store.Invariant.{lessons_done, Inv}
use learning_center_referenc.Store.Enroll.{enroll_tx, enroll}
use learning_center_referenc.Store.Enroll.Keeps.{enroll_tx-Inv}
use learning_center_referenc.Store.Complete.{complete_tx, complete_lesson}
use learning_center_referenc.Store.Complete.Keeps.{complete_tx-Inv}
use learning_center_referenc.Projection.{reconcile}
use learning_center_referenc.Projection.Keeps.{reconcile-Inv}
use learning_center_referenc.Demoreset.{reset_tx, reset, delete_demo}
use learning_center_referenc.Demoreset.Invariant.{delete_demo-Inv}

pub data Step (db : Db) : Db → Type 0 where
  enrolls : (env : Env) (member course : Uuid) → Step db (enroll env member course db).0
  completes :
      (env : Env) (member enrollment lesson : Uuid)
      → Step db (complete_lesson env member enrollment lesson db).0
  resets : (env : Env) → Step db (reset env db).0
  reconciles : (env : Env) (apply : Bool) → Step db (reconcile env apply db).0

pub data Reach (db : Db) : Db → Type 0 where
  here : Reach db db
  next : {d d' : Db} → Reach db d → Step d d' → Reach db d'

-- No one is enrolled yet; the members, the courses and the safeguarding records are any.
pub record IsFresh (db : Db) : Type 0 where
  pub no_enrollments : db.enrollments ≡ []
  pub no_events : db.events ≡ []
  pub no_progress : db.progress ≡ []

no_enrollment : (db : Db) → IsFresh db → (e : Uuid) → enrollment_by db e ≡ none
unfolding find
no_enrollment db f e = rw f.no_enrollments

no_row : (db : Db) → IsFresh db → (e : Uuid) → progress_by db e ≡ none
unfolding find
no_row db f e = rw f.no_progress

not_done : (db : Db) → IsFresh db → (e l : Uuid) → is_done db e l ≡ false
unfolding is_done exists
not_done db f e l = rw f.no_events

nothing_done : (db : Db) → IsFresh db → (e : Uuid) → Distinct (lessons_done db e)
unfolding where_
nothing_done db f e = rw f.no_events tt

pub IsFresh-Inv : (db : Db) → IsFresh db → Inv db
IsFresh-Inv db f = record {
  formed = record {
    enrollment_keys = rw f.no_enrollments tt;
    progress_keys = rw f.no_progress tt;
    done_once = nothing_done db f;
    done_owned = λ e l h. absurd (ground (arith, not_done db f e l));
    done_in_course = λ e l r there h. absurd (ground (arith, not_done db f e l));
    progress_owned = λ e h. absurd (ground (arith, no_row db f e));
  };
  synced = record {
    row = λ e r there. absurd (ground (arith, no_enrollment db f e));
    status = λ e r there. absurd (ground (arith, no_enrollment db f e));
  };
  ordered = λ e l r p there done. absurd (ground (arith, not_done db f e l));
}

pub enroll-Inv :
    (env : Env) (member course : Uuid) (db : Db) → Inv db → Inv (enroll env member course db).0
unfolding enroll
enroll-Inv env member course db v = elim (Result-cases (enroll_tx env member course db)) [
  | inl ((id, created, db'), done) ↦
      rw (done, enroll) (enroll_tx-Inv env member course db id created db' v done)
  | inr (e, refused) ↦ rw (refused, enroll) v
]

pub complete_lesson-Inv :
    (env : Env) (member k lesson : Uuid) (db : Db)
    → Inv db
    → Inv (complete_lesson env member k lesson db).0
unfolding complete_lesson
complete_lesson-Inv env member k lesson db v =
    elim (Result-cases (complete_tx env member k lesson db)) [
      | inl ((r, db'), done) ↦
          rw (done, complete_lesson) (complete_tx-Inv env member k lesson db r db' v done)
      | inr (e, refused) ↦ rw (refused, complete_lesson) v
    ]

reset-Inv : (env : Env) (db : Db) → Inv db → Inv (reset env db).0
unfolding reset reset_tx
reset-Inv env db v = elim (Result-cases (reset_tx env db)) [
  | inl ((n, db'), done) ↦ rw (done, reset) (rw (tables n db' done) (delete_demo-Inv db v))
  | inr (e, refused) ↦ rw (refused, reset) v
]
  where
    tables : (n : ℕ) (db' : Db) → reset_tx env db ≡ ok (n, db') → db' ≡ delete_demo db
    tables n db' h = ground arith

pub Step-Inv : {db db' : Db} → Step db db' → Inv db → Inv db'
Step-Inv {db} (enrolls env member course) v = enroll-Inv env member course db v
Step-Inv {db} (completes env member k lesson) v = complete_lesson-Inv env member k lesson db v
Step-Inv {db} (resets env) v = reset-Inv env db v
Step-Inv {db} (reconciles env apply) v = reconcile-Inv env apply db v

-- From tables with no enrollment, event or projection row, any enrollments, completions,
-- reconciliations and resets, in any order and whatever the database fails, lead to tables that are well formed, whose projection and
-- statuses are those that the event log gives, and in which no lesson of a sequential course is
-- completed before an earlier one.
pub Reach-Inv : (db db' : Db) → IsFresh db → Reach db db' → Inv db'
Reach-Inv db db' f here = IsFresh-Inv db f
Reach-Inv db db' f (next {d = d} r s) = Step-Inv s (Reach-Inv db d f r)
