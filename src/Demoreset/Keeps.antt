-- ===== src/Demoreset/Keeps.antt =====
-- demoreset.Reset: what can be read of each table afterwards.
use learning_center_referenc.Prelude.{
  ◌≡◌, true, false, some, none, arith, ==_iff, keyed, if◌then◌else◌, ap, map, [], where_-delete,
  exists-delete, count-delete, find-delete, find-delete_within, exists-delete_within,
  where_-delete_within, find-delete-keyed, exists_keyed,
}
use learning_center_referenc.Learning.{Uuid}
use learning_center_referenc.Store.Schema.{Enrollment, Event, Progress, Db}
use learning_center_referenc.Store.Queries.{
  enrollment_by, progress_by, completed_lessons, is_done, of_enrollment, of_pair,
}
use learning_center_referenc.Store.Invariant.{WellFormed, lessons_done}
use learning_center_referenc.Demoreset.{is_demo, is_deleted, delete_demo}

module _ (db : Db) (w : WellFormed db) where
  abbrev pub after : Db
  after = delete_demo db

  pub is_deleted_lem :
      (k : Uuid)
      → is_deleted db k ≡ elim (enrollment_by db k) [ none ↦ false | some e ↦ is_demo db e ]
  unfolding is_deleted
  is_deleted_lem k =
      exists_keyed (λ (e : Enrollment). e.id) (is_demo db) k db.enrollments w.enrollment_keys

  -- In well-formed tables, an enrollment is left by the reset exactly if it was there and is not of
  -- the demo association.
  pub enrollment_by-delete_demo :
      (k : Uuid)
      → enrollment_by after k
        ≡ elim (enrollment_by db k) [ none ↦ none | some e ↦ if is_demo db e then none else some e ]
  unfolding delete_demo
  enrollment_by-delete_demo k =
      find-delete-keyed (λ (e : Enrollment). e.id) (is_demo db) k db.enrollments w.enrollment_keys

  pub kept :
      (k : Uuid) (r : Enrollment)
      → enrollment_by after k ≡ some r
      → (enrollment_by db k ≡ some r) × (is_deleted db k ≡ false)
  kept k r there = ground (arith, enrollment_by-delete_demo k, is_deleted_lem k)

  module _ (k : Uuid) (live : is_deleted db k ≡ false) where
    apart : (ev : Event) → of_enrollment k ev ≡ true → is_deleted db ev.enrollment_id ≡ false
    apart ev h = ground (arith, (==_iff ev.enrollment_id k).0 h)

    apart_pair :
        (l : Uuid) (ev : Event) → of_pair k l ev ≡ true → is_deleted db ev.enrollment_id ≡ false
    apart_pair l ev h = apart ev (ground arith)

    pub completed_lessons_kept : completed_lessons after k ≡ completed_lessons db k
    unfolding completed_lessons delete_demo
    completed_lessons_kept =
        count-delete (of_enrollment k) (λ ev. is_deleted db ev.enrollment_id) apart db.events

    pub is_done_kept : (l : Uuid) → is_done after k l ≡ is_done db k l
    unfolding is_done delete_demo
    is_done_kept l =
        exists-delete (of_pair k l) (λ ev. is_deleted db ev.enrollment_id) (apart_pair l) db.events

    pub lessons_done_kept : lessons_done after k ≡ lessons_done db k
    unfolding delete_demo
    lessons_done_kept =
        ap (map (λ ev. ev.lesson_id))
          (where_-delete (of_enrollment k) (λ ev. is_deleted db ev.enrollment_id) apart db.events)

    pub progress_by_kept : progress_by after k ≡ progress_by db k
    unfolding delete_demo
    progress_by_kept =
        find-delete (keyed (λ (p : Progress). p.enrollment_id) k)
          (λ p. is_deleted db p.enrollment_id)
          (λ p h. ground (arith, (==_iff p.enrollment_id k).0 h)) db.progress

  module _ (k : Uuid) (gone : is_deleted db k ≡ true) where
    pub is_done_gone : (l : Uuid) → is_done after k l ≡ false
    unfolding is_done delete_demo
    is_done_gone l =
        exists-delete_within (of_pair k l) (λ ev. is_deleted db ev.enrollment_id)
          (λ ev h. ground (arith, ==_iff ev.enrollment_id k)) db.events

    pub lessons_done_gone : lessons_done after k ≡ []
    unfolding delete_demo
    lessons_done_gone = ap (map (λ ev. ev.lesson_id)) (
        where_-delete_within (of_enrollment k) (λ ev. is_deleted db ev.enrollment_id)
          (λ ev h. ground (arith, (==_iff ev.enrollment_id k).0 h)) db.events)

    pub progress_by_gone : progress_by after k ≡ none
    unfolding delete_demo
    progress_by_gone =
        find-delete_within (keyed (λ (p : Progress). p.enrollment_id) k)
          (λ p. is_deleted db p.enrollment_id)
          (λ p h. ground (arith, (==_iff p.enrollment_id k).0 h)) db.progress
