-- ===== src/Store/Spec.antt =====
-- What the store promises its callers about learning, without its tables: who is enrolled where,
-- and which lessons each enrollment has completed. The projection rows, the stored statuses, the
-- order of the log and the times are not a part of it.
pub mod Tables
pub mod Refines
pub mod History
pub mod Shown
pub mod Commute
use learning_center_referenc.Prelude.{
  ℕ, Bool, true, false, not, ◌&&◌, ◌||◌, Option, none, some, List, [], ◌∷◌, ◌==◌, if◌then◌else◌,
  exists, find, is_some, pick,
}
use learning_center_referenc.Learning.{Uuid}
use learning_center_referenc.Store.Result.{
  Err, not_found, forbidden, out_of_order, enrollment_withdrawn, failed, Result, ok, err, ◌>>=◌,
  ◌>>◌, require, guard, Env,
}
use learning_center_referenc.Store.Schema.{Enrollment, Db}
use learning_center_referenc.Store.Queries.{
  is_withdrawn, is_sequential, member_by, enrollment_by, for_pair, is_done,
}
use learning_center_referenc.Store.Enroll.{published_lesson_count, enroll_tx}
use learning_center_referenc.Store.Complete.{Place, lesson_place, is_earlier, complete_tx}

pub record Ticket : Type 0 where
  pub member : Uuid
  pub course : Uuid
  pub withdrawn : Bool

pub record Learned : Type 0 where
  -- The enrollment with this id, the enrollment of a member in a course, and its done lessons.
  pub ticket : Uuid → Option Ticket
  pub enrollment_of : Uuid → Uuid → Option Uuid
  pub done : Uuid → Uuid → Bool

abbrev pub ticket_of : Enrollment → Ticket
ticket_of e = record {
  member = e.member_id;
  course = e.course_id;
  withdrawn = is_withdrawn e.status;
}

-- What the tables stand for.
unfoldable pub view : Db → Learned
view db = record {
  ticket = λ e. pick ticket_of (enrollment_by db e);
  enrollment_of = λ m c. pick (λ (e : Enrollment). e.id) (find (for_pair m c) db.enrollments);
  done = is_done db;
}

-- The tables that learning only reads.
unfoldable pub catalog_of : Db → Db
catalog_of db = record db { enrollments = []; events = []; progress = [] }

unfoldable pub open_before : Db → Learned → Uuid → Uuid → Place → Bool
open_before catalog s k course p =
    exists
      (λ l. is_earlier catalog course p.module_position p.lesson_position l && not (s.done k l.id))
      catalog.lessons

unfoldable pub specified_complete : Db → Uuid → Uuid → Uuid → Learned → Result (Bool × Learned)
specified_complete catalog member k lesson s = do
  t ← require not_found (s.ticket k)
  guard (t.member == member) forbidden
  guard (not t.withdrawn) enrollment_withdrawn
  p ← require not_found (lesson_place catalog lesson t.course)
  guard (not (is_sequential p.ordering && open_before catalog s k t.course p)) out_of_order
  ok (not (s.done k lesson), record s { done = λ j l. s.done j l || (k == j && lesson == l) })

unfoldable pub with_ticket : Uuid → Uuid → Uuid → Learned → Learned
with_ticket fresh member course s = record s {
  ticket = λ e.
      if fresh == e
      then some (record { member = member; course = course; withdrawn = false })
      else s.ticket e;
  enrollment_of = λ m c. if member == m && course == c then some fresh else s.enrollment_of m c;
}

unfoldable pub specified_enroll : Db → Uuid → Uuid → Uuid → Learned → Result (Uuid × Bool × Learned)
specified_enroll catalog fresh member course s = do
  lesson_count ← published_lesson_count catalog course
  elim (s.enrollment_of member course) [
    | some id ↦ ok (id, false, s)
    | none ↦ do
      guard (not (is_some (s.ticket fresh))) (failed "creating enrollment")
      guard (is_some (member_by catalog member)) (failed "creating enrollment")
      ok (fresh, true, with_ticket fresh member course s)
  ]

pub data Command : Type 0 where
  enrolls : (member course : Uuid) → Command
  completes : (member enrollment lesson : Uuid) → Command

pub data Answer : Type 0 where
  enrolled : Result (Uuid × Bool) → Answer
  recorded : Result Bool → Answer

-- The transaction of a command on the tables, and what it answers.
unfoldable pub perform : Env → Command → Db → Db × Answer
perform env (enrolls m c) db = elim (enroll_tx env m c db) [
  | err x ↦ (db, enrolled (err x))
  | ok (id, created, db') ↦ (db', enrolled (ok (id, created)))
]
perform env (completes m k l) db = elim (complete_tx env m k l db) [
  | err x ↦ (db, recorded (err x))
  | ok (new, db') ↦ (db', recorded (ok new))
]

unfoldable pub specified : Db → Uuid → Command → Learned → Learned × Answer
specified catalog fresh (enrolls m c) s = elim (specified_enroll catalog fresh m c s) [
  | err x ↦ (s, enrolled (err x))
  | ok (id, created, s') ↦ (s', enrolled (ok (id, created)))
]
specified catalog fresh (completes m k l) s = elim (specified_complete catalog m k l s) [
  | err x ↦ (s, recorded (err x))
  | ok (new, s') ↦ (s', recorded (ok new))
]
