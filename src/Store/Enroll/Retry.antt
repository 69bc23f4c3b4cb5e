-- ===== src/Store/Enroll/Retry.antt =====
-- Store.Enroll: when it commits, and a call after it has.
use learning_center_referenc.Prelude.{
  ℕ, ◌≡◌, refl, inl, inr, Bool, true, false, not, arith, some, none, is_some, Option-cases, exists,
  find, exists-find, exists_of_find-none, keyed, find_by_key, ap, ◌∙◌,
}
use learning_center_referenc.Learning.{Uuid}
use learning_center_referenc.Store.Result.{ok, Env, Healthy}
use learning_center_referenc.Store.Schema.{Course, Db, Enrollment}
use learning_center_referenc.Store.Queries.{
  is_published, course_by, member_by, enrollment_by, for_pair, total_lessons,
}
use learning_center_referenc.Store.Enroll.{
  new_enrollment, published_lesson_count, insert_enrollment, insert_progress, enroll_tx,
}
use learning_center_referenc.Store.Enroll.Effect.{
  with_enrollment, enroll_tx_effect, enroll_tx_published, find_new,
}
use learning_center_referenc.Store.Enroll.Keeps.{Existing-unchanged, enroll_tx-Inv}
use learning_center_referenc.Store.Invariant.{Synced, Inv}

insert_progress-Synced :
    (member course : Uuid) (n : ℕ) (db : Db) (e : Enrollment)
    → Synced db
    → find (for_pair member course) db.enrollments ≡ some e
    → insert_progress e.id n db ≡ db
unfolding insert_progress
insert_progress-Synced member course n db e s found = elim (Option-cases (enrollment_by db e.id)) [
  | inl missing ↦ absurd (
      ground (
        arith,
        find_by_key (λ (r : Enrollment). r.id) (for_pair member course) db.enrollments e found,
      ))
  | inr (r, there) ↦ ground (arith, s.row e.id r there)
]

-- A member who is enrolled in a published course is answered with that enrollment, and nothing
-- changes.
enroll_tx_existing :
    (env : Env) (member course : Uuid) (db : Db) (c : Course) (e : Enrollment)
    → Healthy env
    → Synced db
    → course_by db course ≡ some c
    → is_published c.status ≡ true
    → find (for_pair member course) db.enrollments ≡ some e
    → enroll_tx env member course db ≡ ok (e.id, false, db)
unfolding enroll_tx insert_enrollment published_lesson_count
enroll_tx_existing env member course db c e healthy s known published found = ground (
  arith,
  known,
  published,
  found,
  exists-find (for_pair member course) db.enrollments e found,
  insert_progress-Synced member course (total_lessons db course) db e s found,
  healthy "beginning enrollment",
  healthy "loading course",
  healthy "creating enrollment",
  healthy "loading enrollment",
  healthy "initializing progress",
  healthy "committing enrollment",
)

find_after :
    (env : Env) (member course : Uuid) (db : Db) (id : Uuid) (created : Bool) (db' : Db)
    → Inv db
    → enroll_tx env member course db ≡ ok (id, created, db')
    → ((e : Enrollment) × (find (for_pair member course) db'.enrollments ≡ some e) × (id ≡ e.id))
      × (db'.courses ≡ db.courses)
unfolding insert_progress
find_after env member course db id created db' v h =
    elim (enroll_tx_effect env member course db id created db' h) [
      | inl x ↦
          rw (Existing-unchanged member course db id created db' v.synced x)
            ((x.e, x.found, x.same_id), refl)
      | inr x ↦
          rw x.tables
            ((new_enrollment env member course, find_new env member course db, x.same_id), refl)
    ]

-- Right after an enrollment that commits, from tables that keep the invariant, the same member can
-- enroll in the same course again while the database answers: that call answers with the same
-- enrollment, creates none, and leaves every table as it is.
pub enroll_tx_retry :
    (env later : Env) (member course : Uuid) (db : Db) (id : Uuid) (created : Bool) (db' : Db)
    → Inv db
    → enroll_tx env member course db ≡ ok (id, created, db')
    → Healthy later
    → enroll_tx later member course db' ≡ ok (id, false, db')
enroll_tx_retry env later member course db id created db' v h healthy =
    let (c, known, published) = enroll_tx_published env member course db id created db' h in
    let ((e, found, same), courses) = find_after env member course db id created db' v h in
    let v' = enroll_tx-Inv env member course db id created db' v h in
    rw same (
      enroll_tx_existing later member course db' c e healthy v'.synced
        (ap (find (keyed (λ (x : Course). x.id) course)) courses ∙ known) published found)

-- While the database answers, a registered member can enroll in any published course: with an
-- unused id the enrollment commits, and it is new exactly if there was none.
pub enroll_tx_succeeds :
    (env : Env) (member course : Uuid) (db : Db) (c : Course)
    → Healthy env
    → course_by db course ≡ some c
    → is_published c.status ≡ true
    → is_some (member_by db member) ≡ true
    → enrollment_by db env.fresh ≡ none
    → (id : Uuid) × (db' : Db) × (enroll_tx env member course db
        ≡ ok (id, not (exists (for_pair member course) db.enrollments), db'))
unfolding enroll_tx insert_enrollment published_lesson_count
enroll_tx_succeeds env member course db c healthy known published there unused =
    elim (Option-cases (find (for_pair member course) db.enrollments)) [
      | inl missing ↦ (
        env.fresh,
        insert_progress env.fresh (total_lessons db course) (with_enrollment env member course db),
        ground (
          arith,
          exists_of_find-none (for_pair member course) db.enrollments missing,
          find_new env member course db,
          healthy "beginning enrollment",
          healthy "loading course",
          healthy "creating enrollment",
          healthy "loading enrollment",
          healthy "initializing progress",
          healthy "committing enrollment",
        ),
      )
      | inr (e, found) ↦ (
        e.id,
        insert_progress e.id (total_lessons db course) db,
        ground (
          arith,
          exists-find (for_pair member course) db.enrollments e found,
          healthy "beginning enrollment",
          healthy "loading course",
          healthy "creating enrollment",
          healthy "loading enrollment",
          healthy "initializing progress",
          healthy "committing enrollment",
        ),
      )
    ]
