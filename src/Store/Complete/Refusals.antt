-- ===== src/Store/Complete/Refusals.antt =====
-- The errors of Store.CompleteLesson.
use learning_center_referenc.Prelude.{
  ◌≡◌, ◌≢◌, ◌⊎◌, ◌↔◌, true, false, some, arith, Option-cases, inl, inr,
}
use learning_center_referenc.Learning.{Uuid}
use learning_center_referenc.Store.Result.{
  Env, Err, err, Healthy, Result-cases, forbidden, out_of_order, enrollment_withdrawn,
}
use learning_center_referenc.Store.Schema.{Enrollment, Db}
use learning_center_referenc.Store.Dashboard.{load_enrollment_progress}
use learning_center_referenc.Store.Queries.{is_withdrawn, is_sequential, enrollment_by}
use learning_center_referenc.Store.Complete.{
  Place, lesson_place, unfinished_earlier, check_order, project_completion, complete_tx,
  complete_lesson,
}

-- The owner's enrollment that still runs, and the place of the lesson in its course.
pub record Placed (member k lesson : Uuid) (db : Db) : Type 0 where
  pub e : Enrollment
  pub place : Place
  pub found : enrollment_by db k ≡ some e
  pub owned : e.member_id ≡ member
  pub running : is_withdrawn e.status ≡ false
  pub placed : lesson_place db lesson e.course_id ≡ some place

module _ (env : Env) (member k lesson : Uuid) (db : Db) (healthy : Healthy env) where
  -- While the database answers, a completion is forbidden exactly if the enrollment is another
  -- member's.
  pub complete_tx-forbidden_iff :
      (complete_tx env member k lesson db ≡ err forbidden)
      ↔ ((e : Enrollment) × (enrollment_by db k ≡ some e) × (e.member_id ≢ member))
  unfolding complete_tx check_order project_completion
  complete_tx-forbidden_iff = (
    λ h. elim (Option-cases (enrollment_by db k)) [
      | inl missing ↦ absurd (ground arith)
      | inr (e, found) ↦ (e, found, ground arith)
    ],
    λ t. ground (arith, t.1, t.2, healthy "beginning completion", healthy "loading enrollment"),
  )

  -- While the database answers, a completion is refused as withdrawn exactly if the enrollment is
  -- the member's own and withdrawn.
  pub complete_tx-withdrawn_iff :
      (complete_tx env member k lesson db ≡ err enrollment_withdrawn) ↔ (
        (e : Enrollment) × (enrollment_by db k ≡ some e)
        × (e.member_id ≡ member)
        × (is_withdrawn e.status ≡ true))
  unfolding complete_tx check_order project_completion
  complete_tx-withdrawn_iff = (
    λ h. elim (Option-cases (enrollment_by db k)) [
      | inl missing ↦ absurd (ground arith)
      | inr (e, found) ↦ (e, found, ground arith, ground arith)
    ],
    λ t.
        ground (arith, t.1, t.2, t.3, healthy "beginning completion", healthy "loading enrollment"),
  )

  out_of_order_placed :
      complete_tx env member k lesson db ≡ err out_of_order
      → (t : Placed member k lesson db) × (is_sequential t.place.ordering ≡ true)
        × (unfinished_earlier db k t.e.course_id t.place.module_position t.place.lesson_position
            ≡ true)
  unfolding complete_tx check_order project_completion
  out_of_order_placed h = elim (Option-cases (enrollment_by db k)) [
    | inl missing ↦ absurd (ground arith)
    | inr (e, found) ↦ elim (Option-cases (lesson_place db lesson e.course_id)) [
      | inl missing ↦ absurd (ground arith)
      | inr (p, placed) ↦ (
        record {
          e = e;
          place = p;
          found = found;
          owned = ground arith;
          running = ground arith;
          placed = placed;
        },
        ground arith,
        ground arith,
      )
    ]
  ]

  -- While the database answers, a completion of the owner's running enrollment is refused as out of
  -- order exactly if the lesson's course is sequential and an earlier lesson of the course is
  -- unfinished.
  pub complete_tx-out_of_order_iff : (complete_tx env member k lesson db ≡ err out_of_order) ↔ (
      (t : Placed member k lesson db) × (is_sequential t.place.ordering ≡ true)
      × (unfinished_earlier db k t.e.course_id t.place.module_position t.place.lesson_position
          ≡ true))
  unfolding complete_tx check_order
  complete_tx-out_of_order_iff = (
    out_of_order_placed,
    λ t. ground (
      arith,
      t.0.found,
      t.0.owned,
      t.0.running,
      t.0.placed,
      t.1,
      t.2,
      healthy "beginning completion",
      healthy "loading enrollment",
      healthy "loading lesson",
      healthy "checking lesson order",
    ),
  )

abbrev pub IsRefusal : Err → Type 0
IsRefusal x = (x ≡ forbidden) ⊎ (x ≡ enrollment_withdrawn) ⊎ (x ≡ out_of_order)

load_no_refusal :
    (env : Env) (member k : Uuid) (db : Db) (x : Err)
    → IsRefusal x
    → load_enrollment_progress env member k db ≢ err x
unfolding load_enrollment_progress
load_no_refusal env member k db x r = λ h. ground arith

-- A completion that is refused as forbidden, as withdrawn or as out of order leaves every table as
-- it was, and the refusal comes from the transaction.
pub complete_lesson_refused :
    (env : Env) (member k lesson : Uuid) (db : Db) (x : Err)
    → IsRefusal x
    → (complete_lesson env member k lesson db).1 ≡ err x
    → ((complete_lesson env member k lesson db).0 ≡ db)
      × (complete_tx env member k lesson db ≡ err x)
unfolding complete_lesson
complete_lesson_refused env member k lesson db x r h =
    elim (Result-cases (complete_tx env member k lesson db)) [
      | inl (a, done) ↦ absurd (ground (arith, load_no_refusal env member k a.1 x r))
      | inr (y, refused) ↦ ground arith
    ]
