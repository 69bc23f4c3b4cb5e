-- ===== src/Tests/Spec.antt =====
-- The store against its specification, on an enrollment and the completions after it.
use learning_center_referenc.Prelude.{
  Distinct, map, mem, none, ◌≡◌, refl, true, false, List, [], ◌∷◌, arith,
}
use learning_center_referenc.Store.Invariant.{Inv}
use learning_center_referenc.Machine.{IsFresh-Inv}
use learning_center_referenc.Store.Result.{Env, ok, err, out_of_order, forbidden}
use learning_center_referenc.Store.Spec.{
  view, catalog_of, Command, enrolls, completes, enrolled, recorded, perform, Answer,
}
use learning_center_referenc.Store.Spec.History.{
  Small, perform_all, specified_all, perform_all_refines, perform-Performed,
}
use learning_center_referenc.Store.Spec.Commute.{completions_commute}
use learning_center_referenc.Store.Schema.{Db}
use learning_center_referenc.Store.Schema.{Lesson}
use learning_center_referenc.Store.Dashboard.{load_enrollment_progress}
use learning_center_referenc.Store.Spec.Shown.{
  untimed_result, specified_progress, load_enrollment_progress_refines,
}
use learning_center_referenc.Tests.Fixtures.{
  half_db, half_db-Inv, program, env, env-Healthy, fresh_db, fresh_db-Inv,
}

abbrev commands : List (Env × Command)
commands =
    (env, enrolls 1 10)
    ∷ (env, completes 1 100 32)
    ∷ (env, completes 2 100 31)
    ∷ (env, completes 1 100 31)
    ∷ (env, completes 1 100 31)
    ∷ []

answered_in_turn :
    (perform_all commands fresh_db).1
    ≡ enrolled (ok (100, true))
      ∷ recorded (err out_of_order)
      ∷ recorded (err forbidden)
      ∷ recorded (ok true)
      ∷ recorded (ok false)
      ∷ []
unfolding program perform_all perform
answered_in_turn = refl

fresh_db-Small : Small (catalog_of fresh_db)
unfolding program catalog_of
fresh_db-Small c = ground arith

perform_all_refines_example :
    (view (perform_all commands fresh_db).0
      ≡ (specified_all (catalog_of fresh_db) commands (view fresh_db)).0)
    × ((perform_all commands fresh_db).1
        ≡ (specified_all (catalog_of fresh_db) commands (view fresh_db)).1)
perform_all_refines_example =
    perform_all_refines commands fresh_db
      (env-Healthy, (env-Healthy, (env-Healthy, (env-Healthy, (env-Healthy, tt))))) fresh_db-Inv
      fresh_db-Small

half_db-lessons : Distinct (map (λ (l : Lesson). l.id) half_db.lessons)
half_db-lessons = unfold mem in (refl, (refl, tt))

load_enrollment_progress_refines_example :
    untimed_result (load_enrollment_progress env 1 100 half_db)
    ≡ specified_progress (catalog_of half_db) 1 100 (view half_db)
load_enrollment_progress_refines_example =
    load_enrollment_progress_refines env 1 100 half_db env-Healthy half_db-Inv half_db-lessons

-- Two members enroll in the same course.
abbrev second_env : Env
second_env = record env { fresh = 101 }

abbrev two_members : Db
two_members = record fresh_db {
  members =
      record { id = 2; auth_subject = none; display_name = "Bea"; association_id = none }
      ∷ fresh_db.members;
}

abbrev pair_db : Db
pair_db = (perform second_env (enrolls 2 10) (perform env (enrolls 1 10) two_members).0).0

pair_db-answers :
    (perform_all ((env, completes 2 101 31) ∷ (env, completes 1 100 31) ∷ []) pair_db).1
    ≡ recorded (ok true) ∷ recorded (ok true) ∷ []
unfolding program perform_all perform
pair_db-answers = refl

two_members-Small : Small (catalog_of two_members)
unfolding program catalog_of
two_members-Small c = ground arith

pair_db-Reached : Inv pair_db × Small (catalog_of pair_db)
pair_db-Reached =
    let v =
      IsFresh-Inv two_members
        (record { no_enrollments = refl; no_events = refl; no_progress = refl }) in
    let p = perform-Performed env (enrolls 1 10) two_members env-Healthy v two_members-Small in
    let small : Small (catalog_of (perform env (enrolls 1 10) two_members).0) =
      rw p.catalog two_members-Small in
    let q = perform-Performed second_env (enrolls 2 10) _ env-Healthy p.keeps small in
    (q.keeps, rw q.catalog small)

completions_commute_example :
    let a : Env × Command = (env, completes 2 101 31) in
    let b : Env × Command = (env, completes 1 100 31) in
    let first = perform_all (a ∷ b ∷ []) pair_db in
    let second = perform_all (b ∷ a ∷ []) pair_db in
    (view first.0 ≡ view second.0)
    × (x y : Answer) × (first.1 ≡ x ∷ y ∷ [])
    × (second.1 ≡ y ∷ x ∷ [])
completions_commute_example =
    completions_commute env env 2 101 31 1 100 31 pair_db env-Healthy env-Healthy pair_db-Reached.0
      pair_db-Reached.1 (ground arith)
