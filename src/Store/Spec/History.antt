-- ===== src/Store/Spec/History.antt =====
-- Any sequence of commands, on the tables and as it is specified.
use learning_center_referenc.Prelude.{
  ◌*◌, ◌<◌, ◌≡◌, refl, Bool, List, [], ◌∷◌, arith, ap, ◌∙◌, inl, inr, All,
}
use mathlib.Core.Path.{ap₂}
use learning_center_referenc.Learning.{Uuid}
use learning_center_referenc.Store.Result.{Env, Healthy, Result-cases, ok}
use learning_center_referenc.Store.Schema.{Db}
use learning_center_referenc.Store.Queries.{total_lessons, in_course}
use learning_center_referenc.Store.Enroll.{insert_progress, enroll_tx}
use learning_center_referenc.Store.Enroll.Effect.{enroll_tx_effect}
use learning_center_referenc.Store.Enroll.Keeps.{enroll_tx-Inv}
use learning_center_referenc.Store.Complete.{insert_event, projected, update_status, complete_tx}
use learning_center_referenc.Store.Complete.Effect.{complete_tx_effect}
use learning_center_referenc.Store.Complete.Keeps.{complete_tx-Inv}
use learning_center_referenc.Store.Invariant.{Inv}
use learning_center_referenc.Store.Spec.{
  Learned, view, catalog_of, Command, enrolls, completes, Answer, perform, specified,
}
use learning_center_referenc.Store.Spec.Refines.{complete_refines, enroll_refines}

catalog_of_complete :
    (env : Env) (m k l : Uuid) (db : Db) (r : Bool) (db' : Db)
    → complete_tx env m k l db ≡ ok (r, db')
    → catalog_of db' ≡ catalog_of db
unfolding catalog_of insert_event projected update_status
catalog_of_complete env m k l db r db' h = rw (complete_tx_effect env m k l db r db' h).tables refl

catalog_of_enroll :
    (env : Env) (m c : Uuid) (db : Db) (id : Uuid) (created : Bool) (db' : Db)
    → enroll_tx env m c db ≡ ok (id, created, db')
    → catalog_of db' ≡ catalog_of db
unfolding catalog_of insert_progress
catalog_of_enroll env m c db id created db' h =
    elim (enroll_tx_effect env m c db id created db' h) [
      | inl x ↦ rw x.tables refl
      | inr x ↦ rw x.tables refl
    ]

-- In every course, the lesson count times 100 fits in int4.
abbrev pub Small : Db → Type 0
Small catalog = (c : Uuid) → total_lessons catalog c * 100 < 2147483648

Small-catalog_of : (db : Db) → Small (catalog_of db) → Small db
unfolding catalog_of total_lessons in_course
Small-catalog_of db small = small

-- What one command keeps, and how it looks from outside.
pub record Performed (env : Env) (cmd : Command) (db : Db) : Type 0 where
  pub keeps : Inv (perform env cmd db).0
  pub catalog : catalog_of (perform env cmd db).0 ≡ catalog_of db
  state : view (perform env cmd db).0 ≡ (specified (catalog_of db) env.fresh cmd (view db)).0
  answer : (perform env cmd db).1 ≡ (specified (catalog_of db) env.fresh cmd (view db)).1

complete-Performed :
    (env : Env) (m k l : Uuid) (db : Db)
    → Healthy env
    → Inv db
    → Small (catalog_of db)
    → Performed env (completes m k l) db
unfolding perform specified
complete-Performed env m k l db healthy v small =
    let refines = complete_refines env db healthy m k l v (Small-catalog_of db small) in
    elim (Result-cases (complete_tx env m k l db)) [
      | inl ((r, db'), done) ↦ record {
        keeps = ground (arith, complete_tx-Inv env m k l db r db' v done);
        catalog = ground (arith, catalog_of_complete env m k l db r db' done);
        state = ground (arith, refines);
        answer = ground (arith, refines);
      }
      | inr (x, refused) ↦ record {
        keeps = ground (arith, v);
        catalog = ground arith;
        state = ground (arith, refines);
        answer = ground (arith, refines);
      }
    ]

enroll-Performed :
    (env : Env) (m c : Uuid) (db : Db) → Healthy env → Inv db → Performed env (enrolls m c) db
unfolding perform specified
enroll-Performed env m c db healthy v =
    let refines = enroll_refines env db healthy m c in
    elim (Result-cases (enroll_tx env m c db)) [
      | inl ((id, created, db'), done) ↦ record {
        keeps = ground (arith, enroll_tx-Inv env m c db id created db' v done);
        catalog = ground (arith, catalog_of_enroll env m c db id created db' done);
        state = ground (arith, refines);
        answer = ground (arith, refines);
      }
      | inr (x, refused) ↦ record {
        keeps = ground (arith, v);
        catalog = ground arith;
        state = ground (arith, refines);
        answer = ground (arith, refines);
      }
    ]

pub perform-Performed :
    (env : Env) (cmd : Command) (db : Db)
    → Healthy env
    → Inv db
    → Small (catalog_of db)
    → Performed env cmd db
perform-Performed env (enrolls m c) db healthy v small = enroll-Performed env m c db healthy v
perform-Performed env (completes m k l) db healthy v small =
    complete-Performed env m k l db healthy v small

-- The commands in turn, and what each is answered.
unfoldable pub perform_all : List (Env × Command) → Db → Db × List Answer
perform_all [] db = (db, [])
perform_all ((env, cmd) ∷ calls) db =
    let rest = perform_all calls (perform env cmd db).0 in (rest.0, (perform env cmd db).1 ∷ rest.1)

unfoldable pub specified_all : Db → List (Env × Command) → Learned → Learned × List Answer
specified_all catalog [] s = (s, [])
specified_all catalog ((env, cmd) ∷ calls) s =
    let rest = specified_all catalog calls (specified catalog env.fresh cmd s).0 in
    (rest.0, (specified catalog env.fresh cmd s).1 ∷ rest.1)

specified_all_at :
    (calls : List (Env × Command)) (catalog catalog' : Db) (s s' : Learned)
    → catalog ≡ catalog'
    → s ≡ s'
    → specified_all catalog calls s ≡ specified_all catalog' calls s'
specified_all_at calls catalog catalog' s s' e f = cc (e, f)

-- While the database answers, from tables that keep the invariant and with courses whose lesson
-- count times 100 fits in int4, any sequence of enrollments and completions is answered as
-- specified, and leaves the tables in a state that stands for the specified one: which tickets
-- there are, and which lessons each has done. Projection rows and statuses decide nothing.
pub perform_all_refines :
    (calls : List (Env × Command)) (db : Db)
    → All (λ call. Healthy call.0) calls
    → Inv db
    → Small (catalog_of db)
    → (view (perform_all calls db).0 ≡ (specified_all (catalog_of db) calls (view db)).0)
      × ((perform_all calls db).1 ≡ (specified_all (catalog_of db) calls (view db)).1)
unfolding perform_all specified_all
perform_all_refines [] db healthy v small = (refl, refl)
perform_all_refines ((env, cmd) ∷ calls) db (healthy, later) v small =
    let p = perform-Performed env cmd db healthy v small in
    let (state, answers) =
      perform_all_refines calls (perform env cmd db).0 later p.keeps (rw p.catalog small) in
    let same = specified_all_at calls _ _ _ _ p.catalog p.state in
    (
      state ∙ ap (λ (t : Learned × List Answer). t.0) same,
      ap₂ (λ (a : Answer) (t : List Answer). a ∷ t) p.answer
          (answers ∙ ap (λ (t : Learned × List Answer). t.1) same),
    )
