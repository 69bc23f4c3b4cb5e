-- ===== src/Store/Enroll/Effect.antt =====
-- What an enrollment that commits has found, and the tables that it leaves.
use learning_center_referenc.Prelude.{
  ◌≡◌, ◌⊎◌, inl, inr, Bool, true, false, arith, some, none, Option-cases, ◌∷◌, exists, find,
  exists-find, exists_of_find-none,
}
use learning_center_referenc.Learning.{Uuid}
use learning_center_referenc.Store.Result.{ok, Env}
use learning_center_referenc.Store.Schema.{Course, Db, Enrollment}
use learning_center_referenc.Store.Queries.{
  is_published, course_by, enrollment_by, for_pair, total_lessons,
}
use learning_center_referenc.Store.Enroll.{
  new_enrollment, published_lesson_count, insert_enrollment, insert_progress, enroll_tx,
}

abbrev pub with_enrollment : Env → Uuid → Uuid → Db → Db
with_enrollment env member course db = record db {
  enrollments = new_enrollment env member course ∷ db.enrollments;
}

-- The member was enrolled already.
pub record Existing (member course : Uuid) (db : Db) (id : Uuid) (created : Bool) (db' : Db)
    : Type 0 where
  pub e : Enrollment
  pub found : find (for_pair member course) db.enrollments ≡ some e
  pub same_id : id ≡ e.id
  pub not_created : created ≡ false
  pub tables : db' ≡ insert_progress e.id (total_lessons db course) db

-- The member was not, and is now.
pub record Created (env : Env) (member course : Uuid) (db : Db) (id : Uuid) (created : Bool)
    (db' : Db) : Type 0 where
  pub absent : exists (for_pair member course) db.enrollments ≡ false
  pub unused : enrollment_by db env.fresh ≡ none
  pub same_id : id ≡ env.fresh
  pub is_created : created ≡ true
  pub tables :
      db'
      ≡ insert_progress env.fresh (total_lessons db course) (with_enrollment env member course db)

pub enroll_tx_published :
    (env : Env) (member course : Uuid) (db : Db) (id : Uuid) (created : Bool) (db' : Db)
    → enroll_tx env member course db ≡ ok (id, created, db')
    → (c : Course) × (course_by db course ≡ some c) × (is_published c.status ≡ true)
unfolding enroll_tx published_lesson_count
enroll_tx_published env member course db id created db' h =
    elim (Option-cases (course_by db course)) [
      | inl missing ↦ absurd (ground arith)
      | inr (c, there) ↦ (c, there, ground arith)
    ]

pub find_new :
    (env : Env) (member course : Uuid) (db : Db)
    → find (for_pair member course) (with_enrollment env member course db).enrollments
      ≡ some (new_enrollment env member course)
unfolding find
find_new env member course db = ground arith

pub enroll_tx_effect :
    (env : Env) (member course : Uuid) (db : Db) (id : Uuid) (created : Bool) (db' : Db)
    → enroll_tx env member course db ≡ ok (id, created, db')
    → Existing member course db id created db' ⊎ Created env member course db id created db'
unfolding enroll_tx insert_enrollment published_lesson_count
enroll_tx_effect env member course db id created db' h =
    elim (Option-cases (find (for_pair member course) db.enrollments)) [
      | inl missing ↦ inr (record {
        absent = exists_of_find-none (for_pair member course) db.enrollments missing;
        unused = ground (arith, exists_of_find-none (for_pair member course) db.enrollments);
        same_id = ground (
          arith,
          exists_of_find-none (for_pair member course) db.enrollments,
          find_new env member course db,
        );
        is_created = ground (arith, exists_of_find-none (for_pair member course) db.enrollments);
        tables = ground (
          arith,
          exists_of_find-none (for_pair member course) db.enrollments,
          find_new env member course db,
        );
      })
      | inr (e, found) ↦ inl (record {
        e = e;
        found = found;
        same_id = ground (arith, exists-find (for_pair member course) db.enrollments e found);
        not_created = ground (arith, exists-find (for_pair member course) db.enrollments e found);
        tables = ground (arith, exists-find (for_pair member course) db.enrollments e found);
      })
    ]
