-- ===== src/Store/Complete/Status.antt =====
-- Where a lesson stands, and what can be read after the update of an enrollment's status.
use learning_center_referenc.Prelude.{
  ◌≡◌, refl, ◌≢◌, true, some, arith, List, [], ◌∷◌, map, mem, is_some, exists, where_, keyed,
  find-update, map-key-update, exists_of_find, find_sound, Option-cases, inl, inr,
}
use learning_center_referenc.Learning.{Uuid}
use learning_center_referenc.Store.Schema.{Course, Enrollment, Event, Lesson, Progress, Db}
use learning_center_referenc.Store.Queries.{
  is_withdrawn, enrollment_by, progress_by, module_by, lesson_by, course_by, in_course,
  of_enrollment, of_pair, is_done, derived_status,
}
use learning_center_referenc.Store.Complete.{Place, lesson_place, update_status, with_status}
use learning_center_referenc.Store.Invariant.{lesson_in, lessons_done, enrollment_ids}

lesson_place-in_course :
    (db : Db) (lesson course : Uuid) (p : Place) (l : Lesson)
    → lesson_by db lesson ≡ some l
    → lesson_place db lesson course ≡ some p
    → in_course db course l ≡ true
unfolding lesson_place in_course
lesson_place-in_course db lesson course p l found h =
    elim (Option-cases (module_by db l.module_id)) [
      | inl missing ↦ absurd (ground arith)
      | inr (m, there) ↦ elim (Option-cases (course_by db m.course_id)) [
        | inl missing ↦ absurd (ground arith)
        | inr (c, known) ↦
            ground (arith, find_sound (keyed (λ (c : Course). c.id) m.course_id) db.courses c known)
      ]
    ]

-- The place of a lesson is a place in the course.
pub lesson_place-lesson_in :
    (db : Db) (lesson course : Uuid) (p : Place)
    → lesson_place db lesson course ≡ some p
    → lesson_in db course lesson ≡ true
unfolding lesson_place lesson_in in_course
lesson_place-lesson_in db lesson course p h = elim (Option-cases (lesson_by db lesson)) [
  | inl missing ↦ absurd (ground arith)
  | inr (l, found) ↦
      exists_of_find (λ (x : Lesson). x.id) lesson (in_course db course) db.lessons l found
        (lesson_place-in_course db lesson course p l found h)
]

-- The lessons that the events of an enrollment name are those that are done.
pub mem-lessons_done : (db : Db) (e l : Uuid) → mem l (lessons_done db e) ≡ is_done db e l
unfolding is_done mem where_ exists
mem-lessons_done db e l = go db.events
  where
    go :
        (evs : List Event)
        → mem l (map (λ ev. ev.lesson_id) (where_ (of_enrollment e) evs)) ≡ exists (of_pair e l) evs
    go [] = refl
    go (ev ∷ evs) = ground (arith, go evs)

pub enrollment_by-update_status_ne :
    (k j : Uuid) (db : Db) → j ≢ k → enrollment_by (update_status k db) j ≡ enrollment_by db j
unfolding update_status
enrollment_by-update_status_ne k j db n = elim (Option-cases (progress_by db k)) [
  | inl missing ↦ rw (missing, update_status)
  | inr (p, there) ↦ ground (
    arith,
    find-update (λ (r : Enrollment). r.id) k j
        (with_status (derived_status p.completed_lessons p.total_lessons)) db.enrollments
        (λ r. refl),
  )
]

pub enrollment_by-update_status_self :
    (k : Uuid) (db : Db) (p : Progress) (e : Enrollment)
    → progress_by db k ≡ some p
    → enrollment_by db k ≡ some e
    → enrollment_by (update_status k db) k
      ≡ some (with_status (derived_status p.completed_lessons p.total_lessons) e)
unfolding update_status
enrollment_by-update_status_self k db p e there found = ground (
  arith,
  find-update (λ (r : Enrollment). r.id) k k
      (with_status (derived_status p.completed_lessons p.total_lessons)) db.enrollments (λ r. refl),
)

-- Whether an enrollment is there does not change.
pub enrollment_by-update_status_none :
    (k j : Uuid) (db : Db)
    → is_some (enrollment_by (update_status k db) j) ≡ is_some (enrollment_by db j)
unfolding update_status
enrollment_by-update_status_none k j db = elim (Option-cases (progress_by db k)) [
  | inl missing ↦ rw (missing, update_status)
  | inr (p, there) ↦ ground (
    arith,
    find-update (λ (r : Enrollment). r.id) k j
        (with_status (derived_status p.completed_lessons p.total_lessons)) db.enrollments
        (λ r. refl),
  )
]

-- An enrollment afterwards was one before: only its status can have changed, and that not once it
-- was withdrawn.
pub record SameEnrollment (r r' : Enrollment) : Type 0 where
  pub id : r.id ≡ r'.id
  pub member_id : r.member_id ≡ r'.member_id
  pub course_id : r.course_id ≡ r'.course_id
  pub withdrawn_stays : is_withdrawn r'.status ≡ true → r.status ≡ r'.status

pub enrollment_by-update_status_inv :
    (k j : Uuid) (db : Db) (r : Enrollment)
    → enrollment_by (update_status k db) j ≡ some r
    → (r' : Enrollment) × (enrollment_by db j ≡ some r') × SameEnrollment r r'
unfolding update_status
enrollment_by-update_status_inv k j db r h = elim (Option-cases (enrollment_by db j)) [
  | inl missing ↦ absurd (ground (arith, enrollment_by-update_status_none k j db))
  | inr (r', found) ↦ elim (Option-cases (progress_by db k)) [
    | inl none_there ↦ (r', found, ground arith)
    | inr (p, there) ↦ (
      r',
      found,
      ground (
        arith,
        find-update (λ (r : Enrollment). r.id) k j
            (with_status (derived_status p.completed_lessons p.total_lessons)) db.enrollments
            (λ r. refl),
      ),
    )
  ]
]

pub enrollment_ids-update_status :
    (k : Uuid) (db : Db) → enrollment_ids (update_status k db) ≡ enrollment_ids db
unfolding update_status
enrollment_ids-update_status k db = elim (Option-cases (progress_by db k)) [
  | inl missing ↦ rw (missing, update_status)
  | inr (p, there) ↦
      rw (there, update_status)
        (map-key-update (λ (r : Enrollment). r.id) (keyed (λ (r : Enrollment). r.id) k)
          (with_status (derived_status p.completed_lessons p.total_lessons)) db.enrollments
          (λ r. refl))
]
