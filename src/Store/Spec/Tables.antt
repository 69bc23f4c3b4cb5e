-- ===== src/Store/Spec/Tables.antt =====
-- What the operations leave of the view.
use learning_center_referenc.Prelude.{
  ℕ, ◌≡◌, refl, Bool, false, ◌&&◌, ◌||◌, ◌==◌, arith, find, keyed, pick, pick-find-update, fun_ext,
  Option-cases, inl, inr,
}
use learning_center_referenc.Learning.{Uuid, EnrollmentStatus}
use learning_center_referenc.Store.Result.{Env}
use learning_center_referenc.Store.Schema.{Enrollment, Db}
use learning_center_referenc.Store.Queries.{
  enrollment_by, progress_by, for_pair, is_done, derived_status, is_withdrawn, total_lessons,
  in_course, member_by,
}
use learning_center_referenc.Store.Enroll.{insert_progress, published_lesson_count}
use learning_center_referenc.Store.Enroll.Effect.{with_enrollment}
use learning_center_referenc.Store.Complete.{
  Place, lesson_place, is_earlier, unfinished_earlier, insert_event, projected, update_status,
  with_status,
}
use learning_center_referenc.Store.Complete.Effect.{completed_db}
use learning_center_referenc.Store.Complete.Views.{is_done-completed_db}
use learning_center_referenc.Store.Spec.{
  Learned, ticket_of, view, catalog_of, open_before, with_ticket,
}

Learned_eq :
    (s t : Learned)
    → ((e : Uuid) → s.ticket e ≡ t.ticket e)
    → ((m c : Uuid) → s.enrollment_of m c ≡ t.enrollment_of m c)
    → ((e l : Uuid) → s.done e l ≡ t.done e l)
    → s ≡ t
Learned_eq s t f g h =
    let f' = fun_ext f in
    let g' = fun_ext (λ m. fun_ext (g m)) in
    let h' = fun_ext (λ e. fun_ext (h e)) in cc (f', g', h')

derived_status_running : (done total : ℕ) → is_withdrawn (derived_status done total) ≡ false
unfolding derived_status
derived_status_running done total = ground arith

-- A derived status leaves of an enrollment what the view keeps.
pick-update_status :
    {B : Type 0} (g : Enrollment → B) (p : Enrollment → Bool) (k : Uuid) (db : Db)
    → ((s : EnrollmentStatus) (e : Enrollment) → is_withdrawn s ≡ false → p (with_status s e) ≡ p e)
    → ((s : EnrollmentStatus) (e : Enrollment) → is_withdrawn s ≡ false → g (with_status s e) ≡ g e)
    → pick g (find p (update_status k db).enrollments) ≡ pick g (find p db.enrollments)
unfolding update_status
pick-update_status g p k db test same = elim (Option-cases (progress_by db k)) [
  | inl missing ↦ ground arith
  | inr (q, there) ↦
      let s = derived_status q.completed_lessons q.total_lessons in
      let running = derived_status_running q.completed_lessons q.total_lessons in
      ground (
        arith,
        there,
        pick-find-update g p (keyed (λ (e : Enrollment). e.id) k) (with_status s) db.enrollments
            (λ e. test s e running) (λ e. same s e running),
      )
]

with_status_ticket :
    (s : EnrollmentStatus) (e : Enrollment)
    → is_withdrawn s ≡ false
    → ticket_of (with_status s e) ≡ ticket_of e
with_status_ticket s e h = ground arith

-- A completion adds the lesson to those done, and nothing else.
pub view-completed_db :
    (env : Env) (member k lesson : Uuid) (e : Enrollment) (db : Db)
    → view (completed_db env member k lesson e db)
      ≡ record (view db) { done = λ j l. (view db).done j l || (k == j && lesson == l) }
unfolding view insert_event projected
view-completed_db env member k lesson e db =
    Learned_eq (view (completed_db env member k lesson e db)) _
      (λ j.
        pick-update_status ticket_of (keyed (λ (r : Enrollment). r.id) j) k _ (λ s r h. refl)
          with_status_ticket)
      (λ m c.
        pick-update_status (λ (r : Enrollment). r.id) (for_pair m c) k _ (λ s r h. refl)
          (λ s r h. refl))
      (λ j l. is_done-completed_db env member k lesson e db j l)

-- A new enrollment, with its projection row.
pub view-with_enrollment :
    (env : Env) (member course : Uuid) (n : ℕ) (db : Db)
    → view (insert_progress env.fresh n (with_enrollment env member course db))
      ≡ with_ticket env.fresh member course (view db)
unfolding view insert_progress is_done find with_ticket
view-with_enrollment env member course n db =
    Learned_eq (view (insert_progress env.fresh n (with_enrollment env member course db))) _
      (λ e. ground arith) (λ m c. ground arith) (λ e l. refl)

pub view-insert_progress : (id : Uuid) (n : ℕ) (db : Db) → view (insert_progress id n db) ≡ view db
unfolding view insert_progress is_done
view-insert_progress id n db = refl

pub open_before-view :
    (db : Db) (k course : Uuid) (p : Place)
    → open_before (catalog_of db) (view db) k course p
      ≡ unfinished_earlier db k course p.module_position p.lesson_position
unfolding open_before catalog_of view unfinished_earlier is_earlier
open_before-view db k course p = refl

pub lesson_place-catalog_of :
    (db : Db) (l c : Uuid) → lesson_place (catalog_of db) l c ≡ lesson_place db l c
unfolding catalog_of lesson_place
lesson_place-catalog_of db l c = refl

pub lesson_count-catalog_of :
    (db : Db) (c : Uuid) → published_lesson_count (catalog_of db) c ≡ published_lesson_count db c
unfolding catalog_of published_lesson_count total_lessons in_course
lesson_count-catalog_of db c = refl

pub member_by-catalog_of : (db : Db) (m : Uuid) → member_by (catalog_of db) m ≡ member_by db m
unfolding catalog_of
member_by-catalog_of db m = refl

-- The view's functions at the tables.
pub view-ticket : (db : Db) (e : Uuid) → (view db).ticket e ≡ pick ticket_of (enrollment_by db e)
unfolding view
view-ticket db e = refl

pub view-enrollment_of :
    (db : Db) (m c : Uuid)
    → (view db).enrollment_of m c
      ≡ pick (λ (e : Enrollment). e.id) (find (for_pair m c) db.enrollments)
unfolding view
view-enrollment_of db m c = refl

pub view-done : (db : Db) (e l : Uuid) → (view db).done e l ≡ is_done db e l
unfolding view
view-done db e l = refl
