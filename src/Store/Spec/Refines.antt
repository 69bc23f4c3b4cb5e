-- ===== src/Store/Spec/Refines.antt =====
-- The store's transactions refine what is specified of them.
use learning_center_referenc.Prelude.{
  ◌*◌, ◌<◌, ◌≡◌, Bool, false, not, ◌&&◌, none, some, ◌==◌, arith, find, Option-cases, Bool-cases,
  inl, inr, exists-find, exists_of_find-none,
}
use learning_center_referenc.Learning.{Uuid}
use learning_center_referenc.Store.Result.{Env, Healthy, Result, Result-cases, ok, err}
use learning_center_referenc.Store.Schema.{Enrollment, Db}
use learning_center_referenc.Store.Queries.{
  enrollment_by, for_pair, total_lessons, is_withdrawn, is_sequential,
}
use learning_center_referenc.Store.Enroll.{published_lesson_count, insert_enrollment, enroll_tx}
use learning_center_referenc.Store.Enroll.Effect.{find_new}
use learning_center_referenc.Store.Complete.{
  Place, lesson_place, unfinished_earlier, check_order, complete_tx,
}
use learning_center_referenc.Store.Complete.Succeeds.{Ready, complete_tx_succeeds}
use learning_center_referenc.Store.Invariant.{Inv}
use learning_center_referenc.Store.Spec.{
  Learned, ticket_of, view, catalog_of, specified_complete, specified_enroll,
}
use learning_center_referenc.Store.Spec.Tables.{
  view-completed_db, view-with_enrollment, view-insert_progress, open_before-view,
  lesson_place-catalog_of, lesson_count-catalog_of, member_by-catalog_of, view-ticket,
  view-enrollment_of, view-done,
}

abbrev pub viewed : Result (Bool × Db) → Result (Bool × Learned)
viewed (ok (r, db')) = ok (r, view db')
viewed (err e) = err e

abbrev pub viewed_enrollment : Result (Uuid × Bool × Db) → Result (Uuid × Bool × Learned)
viewed_enrollment (ok (id, created, db')) = ok (id, created, view db')
viewed_enrollment (err e) = err e

module _ (env : Env) (db : Db) (healthy : Healthy env) where
  ticket_found :
      (k : Uuid) (e : Enrollment)
      → enrollment_by db k ≡ some e
      → (view db).ticket k ≡ some (ticket_of e)
  unfolding view
  ticket_found k e found = ground arith

  module _ (member k lesson : Uuid) where
    -- What the transaction checks of the enrollment and the lesson's place.
    abbrev is_allowed : Enrollment → Place → Bool
    is_allowed e p =
        e.member_id == member
        && not (is_withdrawn e.status)
        && not (
            is_sequential p.ordering
            && unfinished_earlier db k e.course_id p.module_position p.lesson_position)

    unknown_refines :
        enrollment_by db k ≡ none
        → viewed (complete_tx env member k lesson db)
          ≡ specified_complete (catalog_of db) member k lesson (view db)
    unfolding complete_tx specified_complete view
    unknown_refines missing =
        ground (arith, healthy "beginning completion", healthy "loading enrollment")

    ready_refines :
        Inv db
        → ((c : Uuid) → total_lessons db c * 100 < 2147483648)
        → (r : Ready member k lesson db)
        → viewed (complete_tx env member k lesson db)
          ≡ specified_complete (catalog_of db) member k lesson (view db)
    unfolding specified_complete
    ready_refines v small r = ground (
      arith,
      complete_tx_succeeds env member k lesson db healthy v.formed r (small r.e.course_id),
      view-completed_db env member k lesson r.e db,
      ticket_found k r.e r.found,
      r.found,
      r.owned,
      r.running,
      r.placed,
      r.in_order,
      lesson_place-catalog_of db lesson r.e.course_id,
      open_before-view db k r.e.course_id r.place,
      view-done db k lesson,
    )

    refused_refines :
        (e : Enrollment) (p : Place)
        → enrollment_by db k ≡ some e
        → lesson_place db lesson e.course_id ≡ some p
        → is_allowed e p ≡ false
        → viewed (complete_tx env member k lesson db)
          ≡ specified_complete (catalog_of db) member k lesson (view db)
    unfolding specified_complete complete_tx check_order
    refused_refines e p found placed refused = ground (
      arith,
      ticket_found k e found,
      lesson_place-catalog_of db lesson e.course_id,
      open_before-view db k e.course_id p,
      healthy "beginning completion",
      healthy "loading enrollment",
      healthy "loading lesson",
      healthy "checking lesson order",
    )

    unplaced_refines :
        (e : Enrollment)
        → enrollment_by db k ≡ some e
        → lesson_place db lesson e.course_id ≡ none
        → viewed (complete_tx env member k lesson db)
          ≡ specified_complete (catalog_of db) member k lesson (view db)
    unfolding specified_complete complete_tx
    unplaced_refines e found unplaced = ground (
      arith,
      ticket_found k e found,
      lesson_place-catalog_of db lesson e.course_id,
      healthy "beginning completion",
      healthy "loading enrollment",
      healthy "loading lesson",
    )

    pub complete_refines :
        Inv db
        → ((c : Uuid) → total_lessons db c * 100 < 2147483648)
        → viewed (complete_tx env member k lesson db)
          ≡ specified_complete (catalog_of db) member k lesson (view db)
    complete_refines v small = elim (Option-cases (enrollment_by db k)) [
      | inl missing ↦ unknown_refines missing
      | inr (e, found) ↦ elim (Option-cases (lesson_place db lesson e.course_id)) [
        | inl unplaced ↦ unplaced_refines e found unplaced
        | inr (p, placed) ↦ elim (Bool-cases (is_allowed e p)) [
          | inr refused ↦ refused_refines e p found placed refused
          | inl allowed ↦ ready_refines v small (record {
            e = e;
            place = p;
            found = found;
            owned = ground arith;
            running = ground arith;
            placed = placed;
            in_order = ground arith;
          })
        ]
      ]
    ]

  module _ (member course : Uuid) where
    pub enroll_refines :
        viewed_enrollment (enroll_tx env member course db)
        ≡ specified_enroll (catalog_of db) env.fresh member course (view db)
    unfolding specified_enroll enroll_tx insert_enrollment
    enroll_refines = elim (Result-cases (published_lesson_count db course)) [
      | inr (x, unknown) ↦ ground (
        arith,
        lesson_count-catalog_of db course,
        healthy "beginning enrollment",
        healthy "loading course",
      )
      | inl (n, counted) ↦ elim (Option-cases (find (for_pair member course) db.enrollments)) [
        | inl missing ↦ ground (
          arith,
          exists_of_find-none (for_pair member course) db.enrollments missing,
          find_new env member course db,
          view-with_enrollment env member course n db,
          view-ticket db env.fresh,
          view-enrollment_of db member course,
          lesson_count-catalog_of db course,
          member_by-catalog_of db member,
          healthy "beginning enrollment",
          healthy "loading course",
          healthy "creating enrollment",
          healthy "loading enrollment",
          healthy "initializing progress",
          healthy "committing enrollment",
        )
        | inr (e, found) ↦ ground (
          arith,
          exists-find (for_pair member course) db.enrollments e found,
          view-insert_progress e.id n db,
          view-enrollment_of db member course,
          lesson_count-catalog_of db course,
          healthy "beginning enrollment",
          healthy "loading course",
          healthy "creating enrollment",
          healthy "loading enrollment",
          healthy "initializing progress",
          healthy "committing enrollment",
        )
      ]
    ]
