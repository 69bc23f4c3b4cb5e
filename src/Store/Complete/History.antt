-- ===== src/Store/Complete/History.antt =====
-- Store.CompleteLesson and the event log.
use learning_center_referenc.Prelude.{
  ◌≡◌, Bool, ◌&&◌, ◌||◌, some, arith, ◌==◌, find, exists, exists-find,
}
use learning_center_referenc.Learning.{Uuid}
use learning_center_referenc.Store.Result.{Env, ok}
use learning_center_referenc.Store.Schema.{Enrollment, Event, Db}
use learning_center_referenc.Store.Queries.{of_pair, is_done}
use learning_center_referenc.Store.Complete.{insert_event, projected, update_status, complete_tx}
use learning_center_referenc.Store.Complete.Effect.{completed_db, complete_tx_effect}
use learning_center_referenc.Store.Complete.Views

event_kept :
    (env : Env) (member k lesson : Uuid) (e : Enrollment) (db : Db) (j l : Uuid) (ev : Event)
    → find (of_pair j l) db.events ≡ some ev
    → find (of_pair j l) (completed_db env member k lesson e db).events ≡ some ev
unfolding insert_event projected update_status is_done find
event_kept env member k lesson e db j l ev h =
    ground (arith, exists-find (of_pair j l) db.events ev h, same_pair)
  where
    same_pair :
        k ≡ j → lesson ≡ l → exists (of_pair k lesson) db.events ≡ exists (of_pair j l) db.events
    same_pair p q = cc

-- A completion that commits changes no event that is in the log, and the lessons done afterwards
-- are those done before and the completed one.
pub complete_tx_appends :
    (env : Env) (member k lesson : Uuid) (db : Db) (r : Bool) (db' : Db)
    → complete_tx env member k lesson db ≡ ok (r, db')
    → ((j l : Uuid) (ev : Event)
        → find (of_pair j l) db.events ≡ some ev
        → find (of_pair j l) db'.events ≡ some ev)
      × ((j l : Uuid) → is_done db' j l ≡ (is_done db j l || (k == j && lesson == l)))
complete_tx_appends env member k lesson db r db' h =
    let c = complete_tx_effect env member k lesson db r db' h in
    rw c.tables
      (event_kept env member k lesson c.e db, Views.is_done-completed_db env member k lesson c.e db)
