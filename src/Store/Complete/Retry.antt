-- ===== src/Store/Complete/Retry.antt =====
-- Store.CompleteLesson called again after it has committed.
use learning_center_referenc.Prelude.{
  ℕ, ◌*◌, ◌≡◌, ◌<◌, Bool, true, false, some, arith, ==_refl, ==_iff, keyed, find_sound, update_same,
  ◌∙◌, ap,
}
use learning_center_referenc.Learning.{Uuid}
use learning_center_referenc.Store.Result.{Env, ok, Healthy}
use learning_center_referenc.Store.Schema.{Enrollment, Progress, Db}
use learning_center_referenc.Store.Queries.{
  is_withdrawn, enrollment_by, total_lessons, completed_lessons, is_done, derived_status,
}
use learning_center_referenc.Store.Complete.{
  insert_event, projected, update_status, complete_tx, with_status, with_counts, lesson_place,
  Place,
}
use learning_center_referenc.Store.Complete.Effect.{completed_db, complete_tx_effect}
use learning_center_referenc.Store.Complete.Views
use learning_center_referenc.Store.Complete.Keeps.{complete_tx-Inv}
use learning_center_referenc.Store.Complete.Succeeds.{Ready, complete_tx_succeeds}
use learning_center_referenc.Store.Invariant.{
  WellFormed, Synced, Inv, expected_progress, expected_status,
}

insert_event_done :
    (env : Env) (k lesson member : Uuid) (db : Db)
    → is_done db k lesson ≡ true
    → (insert_event env k lesson member db).1 ≡ db
unfolding insert_event
insert_event_done env k lesson member db done = ground arith

projected-Synced :
    (k : Uuid) (e : Enrollment) (db : Db)
    → WellFormed db
    → Synced db
    → enrollment_by db k ≡ some e
    → projected k e db ≡ db
unfolding projected expected_progress
projected-Synced k e db w s found =
    let id : e.id ≡ k =
      (==_iff e.id k).0 (find_sound (keyed (λ (r : Enrollment). r.id) k) db.enrollments e found) in
    let same =
      update_same (λ (p : Progress). p.enrollment_id) k
        (with_counts (completed_lessons db k) (total_lessons db e.course_id)) db.progress
        (expected_progress db e) w.progress_keys (s.row k e found) (ground (arith, id)) in
    λ i. record db { progress = same i }

update_status-Synced :
    (k : Uuid) (e : Enrollment) (db : Db)
    → WellFormed db
    → Synced db
    → enrollment_by db k ≡ some e
    → update_status k db ≡ db
unfolding update_status expected_progress expected_status
update_status-Synced k e db w s found =
    let id : e.id ≡ k =
      (==_iff e.id k).0 (find_sound (keyed (λ (r : Enrollment). r.id) k) db.enrollments e found) in
    let same =
      update_same (λ (r : Enrollment). r.id) k
        (with_status (derived_status (completed_lessons db e.id) (total_lessons db e.course_id)))
        db.enrollments e w.enrollment_keys found (ground (arith, s.status k e found)) in
    rw (s.row k e found, update_status) (λ i. record db { enrollments = same i })

unchanged :
    (env : Env) (member k lesson : Uuid) (e : Enrollment) (db : Db)
    → WellFormed db
    → Synced db
    → enrollment_by db k ≡ some e
    → is_done db k lesson ≡ true
    → completed_db env member k lesson e db ≡ db
unchanged env member k lesson e db w s found done =
    ap (λ d. update_status k (projected k e d)) (insert_event_done env k lesson member db done)
    ∙ ap (update_status k) (projected-Synced k e db w s found)
    ∙ update_status-Synced k e db w s found

derived_running : (n m : ℕ) → is_withdrawn (derived_status n m) ≡ false
unfolding derived_status
derived_running n m = ground arith

module _ (env : Env) (member k lesson : Uuid) (e : Enrollment) (p : Place) (db : Db) (v : Inv db)
    (found : enrollment_by db k ≡ some e) (owned : e.member_id ≡ member)
    (running : is_withdrawn e.status ≡ false)
    (placed : lesson_place db lesson e.course_id ≡ some p) where
  abbrev after : Db
  after = completed_db env member k lesson e db

  abbrev e' : Enrollment
  e' = with_status (derived_status (completed_lessons after k) (total_lessons db e.course_id)) e

  done_after : is_done after k lesson ≡ true
  done_after = ground (
    arith,
    Views.is_done-completed_db env member k lesson e db k lesson,
    ==_refl k,
    ==_refl lesson,
  )

  found_after : enrollment_by after k ≡ some e'
  found_after =
      Views.enrollment_by-completed_db_self env member k lesson e db (expected_progress db e)
        (v.synced.row k e found) found

  placed_after : lesson_place after lesson e'.course_id ≡ some p
  placed_after =
      Views.lesson_place-completed_db env member k lesson e db lesson e.course_id ∙ placed

  ready_after : Inv after → Ready member k lesson after
  ready_after v' = record {
    e = e';
    place = p;
    found = found_after;
    owned = owned;
    running = ground (
      arith,
      running,
      derived_running (completed_lessons after k) (total_lessons db e.course_id),
    );
    placed = placed_after;
    in_order = λ s. v'.ordered k lesson e' p found_after done_after placed_after s;
  }

  retry :
      (later : Env)
      → Healthy later
      → Inv after
      → total_lessons db e.course_id * 100 < 2147483648
      → complete_tx later member k lesson after ≡ ok (false, after)
  unfolding ready_after
  retry later healthy v' small =
      let again =
        complete_tx_succeeds later member k lesson after healthy v'.formed (ready_after v') (
          ground (
            arith,
            small,
            Views.total_lessons-completed_db env member k lesson e db e.course_id,
          )) in
      let same =
        unchanged later member k lesson e' after v'.formed v'.synced found_after done_after in
      ground (arith, again, same, done_after)

-- Right after a completion that commits, from tables that keep the invariant and for a course whose
-- lesson count times 100 fits in int4, the same member can complete the same lesson again while the
-- database answers: that call commits too, records nothing, and leaves every table as it is.
pub complete_tx_retry :
    (env later : Env) (member k lesson : Uuid) (db : Db) (r : Bool) (db' : Db) (e : Enrollment)
    → Inv db
    → complete_tx env member k lesson db ≡ ok (r, db')
    → enrollment_by db k ≡ some e
    → total_lessons db e.course_id * 100 < 2147483648
    → Healthy later
    → complete_tx later member k lesson db' ≡ ok (false, db')
complete_tx_retry env later member k lesson db r db' e v h found small healthy =
    let c = complete_tx_effect env member k lesson db r db' h in
    let v' = rw c.tables at (complete_tx-Inv env member k lesson db r db' v h) in
    let same : c.e ≡ e = cc (c.found, found) in
    rw c.tables (
      retry env member k lesson c.e c.place db v c.found c.owned c.running c.placed later healthy v'
        (rw same small))
