-- ===== src/Store/Complete/Effect.antt =====
-- What a completion that commits has checked, and the tables that it leaves.
use learning_center_referenc.Prelude.{
  ◌≡◌, inl, inr, Bool, true, false, not, arith, some, Option-cases,
}
use learning_center_referenc.Learning.{Uuid}
use learning_center_referenc.Store.Result.{ok, Env}
use learning_center_referenc.Store.Schema.{Db, Enrollment}
use learning_center_referenc.Store.Queries.{is_withdrawn, is_sequential, enrollment_by, is_done}
use learning_center_referenc.Store.Complete.{
  Place, lesson_place, unfinished_earlier, check_order, insert_event, project_completion, projected,
  update_status, complete_tx,
}

-- The tables after a completion by the owner of `e`.
abbrev pub completed_db : Env → Uuid → Uuid → Uuid → Enrollment → Db → Db
completed_db env member enrollment lesson e db =
    update_status enrollment
      (projected enrollment e (insert_event env enrollment lesson member db).1)

pub record Completion (env : Env) (member enrollment lesson : Uuid) (db : Db) (r : Bool) (db' : Db)
    : Type 0 where
  pub e : Enrollment
  pub place : Place
  pub found : enrollment_by db enrollment ≡ some e
  pub owned : e.member_id ≡ member
  pub running : is_withdrawn e.status ≡ false
  pub placed : lesson_place db lesson e.course_id ≡ some place
  pub in_order :
      is_sequential place.ordering ≡ true
      → unfinished_earlier db enrollment e.course_id place.module_position place.lesson_position
        ≡ false
  pub recorded : r ≡ not (is_done db enrollment lesson)
  pub tables : db' ≡ completed_db env member enrollment lesson e db

check_order_ok :
    (env : Env) (db : Db) (enrollment course : Uuid) (p : Place)
    → check_order env db enrollment course p ≡ ok tt
    → is_sequential p.ordering ≡ true
    → unfinished_earlier db enrollment course p.module_position p.lesson_position ≡ false
unfolding check_order
check_order_ok env db enrollment course p h s = ground arith

pub complete_tx_effect :
    (env : Env) (member enrollment lesson : Uuid) (db : Db) (r : Bool) (db' : Db)
    → complete_tx env member enrollment lesson db ≡ ok (r, db')
    → Completion env member enrollment lesson db r db'
unfolding complete_tx insert_event project_completion
complete_tx_effect env member enrollment lesson db r db' h =
    elim (Option-cases (enrollment_by db enrollment)) [
      | inl missing ↦ absurd (ground arith)
      | inr (e, found) ↦ elim (Option-cases (lesson_place db lesson e.course_id)) [
        | inl missing ↦ absurd (ground arith)
        | inr (p, placed) ↦ record {
          e = e;
          place = p;
          found = found;
          owned = ground arith;
          running = ground arith;
          placed = placed;
          in_order = ground (arith, check_order_ok env db enrollment e.course_id p);
          recorded = ground arith;
          tables = ground arith;
        }
      ]
    ]
