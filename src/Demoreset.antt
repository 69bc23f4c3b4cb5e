-- ===== src/Demoreset.antt =====
-- api/internal/demoreset/reset.go: the reset of the fictional demo association.
pub mod Command
pub mod Keeps
pub mod Invariant
use learning_center_referenc.Prelude.{
  ℕ, String, Bool, true, false, Option, none, some, ◌==◌, ◌&&◌, count, delete, exists,
  if◌then◌else◌, str_eq,
}
use learning_center_referenc.Learning.{Uuid}
use learning_center_referenc.Store.Result.{Err, failed, Result, ok, err, ◌>>=◌, ◌>>◌, Env, attempt}
use learning_center_referenc.Store.Schema.{MemberRow, Enrollment, Event, Progress, Db}
use learning_center_referenc.Store.Queries.{member_by}

-- 00000000-0000-0000-0000-0000000000aa
abbrev pub demo_association_id : Uuid
demo_association_id = 0xaa

abbrev pub confirm_value : String
confirm_value = "synthetic-demo"

-- Whether the operator's phrase is accepted: an exact match.
unfoldable pub confirm : String → Bool
confirm value = str_eq value confirm_value

-- enrollment e using member m where e.member_id = m.id and m.association_id = $1
unfoldable pub is_demo : Db → Enrollment → Bool
is_demo db e = elim (member_by db e.member_id) [
  | none ↦ false
  | some m ↦ elim m.association_id [ none ↦ false | some a ↦ a == demo_association_id ]
]

-- The enrollment with this id is deleted, and the rows that reference it cascade.
unfoldable pub is_deleted : Db → Uuid → Bool
is_deleted db id = exists (λ e. e.id == id && is_demo db e) db.enrollments

unfoldable pub delete_demo : Db → Db
delete_demo db = record db {
  enrollments = delete (is_demo db) db.enrollments;
  events = delete (λ ev. is_deleted db ev.enrollment_id) db.events;
  progress = delete (λ p. is_deleted db p.enrollment_id) db.progress;
}

-- The transaction: how many enrollments it deleted, and the tables to commit.
unfoldable pub reset_tx : Env → Db → Result (ℕ × Db)
reset_tx env db = do
  attempt env "beginning reset"
  attempt env "deleting demo enrollments"
  attempt env "committing reset"
  ok (count (is_demo db) db.enrollments, delete_demo db)

unfoldable pub reset : Env → Db → Db × Result ℕ
reset env db = elim (reset_tx env db) [ err e ↦ (db, err e) | ok (n, db') ↦ (db', ok n) ]
