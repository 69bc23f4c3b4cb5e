-- ===== src/Store/Dashboard/Agrees.antt =====
-- The counts of an enrollment's progress, against the lessons that are listed with it.
use learning_center_referenc.Prelude.{
  ℕ, suc, ◌≤◌, ◌≡◌, ◌≢◌, refl, ◌∙◌, sym, ap, Bool, true, false, ◌&&◌, some, none, List, [], ◌∷◌,
  map, mem, arith, ◌==◌, ==_iff, exists, count, find, where_, keyed, Distinct, length,
  Distinct-length-le, sizes, sort_by, length-sort_by, count-sort_by, is_some, Option-cases, inl,
  inr, find_sound,
}
use learning_center_referenc.Learning.{Uuid, LessonProgress, EnrollmentProgress}
use learning_center_referenc.Store.Result.{Env, ok}
use learning_center_referenc.Store.Schema.{Enrollment, Lesson, Db}
use learning_center_referenc.Store.Queries.{
  enrollment_by, in_course, of_pair, total_lessons, completed_lessons, is_done,
}
use learning_center_referenc.Store.Dashboard.{
  Placed, course_lessons, placed_leb, lesson_rows, progress_row, load_enrollment_progress,
}
use learning_center_referenc.Store.Invariant.{
  lesson_in, lessons_done, WellFormed, Synced, Inv, expected_progress,
}
use learning_center_referenc.Store.Complete.Status

pub is_some-find :
    {R : Type 0} (p : R → Bool) (rows : List R) → is_some (find p rows) ≡ exists p rows
unfolding find exists
is_some-find p [] = refl
is_some-find p (r ∷ rows) = ground (arith, is_some-find p rows)

abbrev pub ticked : List LessonProgress → ℕ
ticked = count (λ r. r.is_completed)

ticked-lesson_rows :
    (db : Db) (k : Uuid) (n : ℕ) (ps : List Placed)
    → ticked (lesson_rows db k n ps) ≡ count (λ p. is_done db k p.lesson.id) ps
unfolding lesson_rows count is_done
ticked-lesson_rows db k n [] = refl
ticked-lesson_rows db k n (p ∷ ps) =
    ground
      (arith, ticked-lesson_rows db k (suc n) ps, is_some-find (of_pair k p.lesson.id) db.events)

length-lesson_rows :
    (db : Db) (k : Uuid) (n : ℕ) (ps : List Placed) → length (lesson_rows db k n ps) ≡ length ps
unfolding lesson_rows
length-lesson_rows db k n [] = refl
length-lesson_rows db k n (p ∷ ps) = ground (arith, length-lesson_rows db k (suc n) ps)

count-course_lessons :
    (db : Db) (c : Uuid) (q : Lesson → Bool) (ls : List Lesson)
    → count (λ p. q p.lesson) (course_lessons db c ls) ≡ count (λ l. in_course db c l && q l) ls
unfolding course_lessons count in_course
count-course_lessons db c q [] = refl
count-course_lessons db c q (l ∷ ls) = ground (arith, count-course_lessons db c q ls)

length-course_lessons :
    (db : Db) (c : Uuid) (ls : List Lesson)
    → length (course_lessons db c ls) ≡ count (in_course db c) ls
unfolding course_lessons count in_course
length-course_lessons db c [] = refl
length-course_lessons db c (l ∷ ls) = ground (arith, length-course_lessons db c ls)

abbrev ids : List Lesson → List Uuid
ids = map (λ l. l.id)

mem-ids-where_ :
    (p : Lesson → Bool) (a : Uuid) (ls : List Lesson)
    → mem a (ids (where_ p ls)) ≡ exists (λ l. l.id == a && p l) ls
unfolding mem where_ exists
mem-ids-where_ p a [] = refl
mem-ids-where_ p a (l ∷ ls) = ground (arith, mem-ids-where_ p a ls, ==_iff l.id a, ==_iff a l.id)

mem_of_where_ :
    (p : Lesson → Bool) (a : Uuid) (ls : List Lesson)
    → mem a (ids ls) ≡ false
    → mem a (ids (where_ p ls)) ≡ false
unfolding mem where_
mem_of_where_ p a [] h = refl
mem_of_where_ p a (l ∷ ls) h = ground (arith, mem_of_where_ p a ls)

Distinct-ids-where_ :
    (p : Lesson → Bool) (ls : List Lesson) → Distinct (ids ls) → Distinct (ids (where_ p ls))
unfolding where_
Distinct-ids-where_ p [] u = tt
Distinct-ids-where_ p (l ∷ ls) u =
    ground (arith, Distinct-ids-where_ p ls u.1, mem_of_where_ p l.id ls u.0)

module _ (db : Db) (k : Uuid) (e : Enrollment) (w : WellFormed db)
    (found : enrollment_by db k ≡ some e) (keys : Distinct (ids db.lessons)) where
  abbrev is_ticked : Lesson → Bool
  is_ticked l = in_course db e.course_id l && is_done db k l.id

  done_of_ticked :
      (a : Uuid) (ls : List Lesson)
      → exists (λ l. l.id == a && is_ticked l) ls ≡ true
      → is_done db k a ≡ true
  unfolding exists
  done_of_ticked a [] h = absurd (ground arith)
  done_of_ticked a (l ∷ ls) h = ground (arith, done_of_ticked a ls, ==_iff l.id a)

  ticked_of_done :
      (a : Uuid) (ls : List Lesson)
      → is_done db k a ≡ true
      → exists (λ l. l.id == a && in_course db e.course_id l) ls ≡ true
      → exists (λ l. l.id == a && is_ticked l) ls ≡ true
  unfolding exists
  ticked_of_done a [] d h = absurd (ground arith)
  ticked_of_done a (l ∷ ls) d h = ground (arith, ticked_of_done a ls d, ==_iff l.id a)

  ticked_count : count is_ticked db.lessons ≡ completed_lessons db k
  unfolding completed_lessons lesson_in
  ticked_count =
      let a = ids (where_ is_ticked db.lessons) in
      let to : length a ≤ length (lessons_done db k) =
        Distinct-length-le a (lessons_done db k) (Distinct-ids-where_ is_ticked db.lessons keys)
          (λ x m.
            Status.mem-lessons_done db k x
            ∙ done_of_ticked x db.lessons (sym (mem-ids-where_ is_ticked x db.lessons) ∙ m)) in
      let from : length (lessons_done db k) ≤ length a =
        Distinct-length-le (lessons_done db k) a (w.done_once k) (λ x m.
          let d = sym (Status.mem-lessons_done db k x) ∙ m in
          mem-ids-where_ is_ticked x db.lessons
          ∙ ticked_of_done x db.lessons d (w.done_in_course k x e found d)) in
      grind (sizes, to, from)

listed :
    (env : Env) (member k : Uuid) (db : Db) (p : EnrollmentProgress) (e : Enrollment)
    → enrollment_by db k ≡ some e
    → load_enrollment_progress env member k db ≡ ok p
    → p.lessons ≡ lesson_rows db k 1 (sort_by placed_leb (course_lessons db e.course_id db.lessons))
unfolding load_enrollment_progress progress_row
listed env member k db p e found h = ground arith

counted :
    (env : Env) (member k : Uuid) (db : Db) (p : EnrollmentProgress) (e : Enrollment)
    → enrollment_by db k ≡ some e
    → Synced db
    → load_enrollment_progress env member k db ≡ ok p
    → (p.completed_lessons ≡ completed_lessons db k)
      × (p.total_lessons ≡ total_lessons db e.course_id)
unfolding load_enrollment_progress progress_row expected_progress
counted env member k db p e found synced h =
    let id : e.id ≡ k =
      (==_iff e.id k).0 (find_sound (keyed (λ (x : Enrollment). x.id) k) db.enrollments e found) in
    ground (arith, synced.row k e found, id)

not_found_shown :
    (env : Env) (member k : Uuid) (db : Db) (p : EnrollmentProgress)
    → enrollment_by db k ≡ none
    → load_enrollment_progress env member k db ≢ ok p
unfolding load_enrollment_progress
not_found_shown env member k db p missing = λ h. ground arith

-- In tables that keep the invariant, with distinct lesson ids, what a learner is shown agrees with
-- itself: the number of completed lessons is the number of lessons ticked in the list, and the
-- total is the list's length.
pub load_enrollment_progress_agrees :
    (env : Env) (member k : Uuid) (db : Db) (p : EnrollmentProgress)
    → Inv db
    → Distinct (map (λ l. l.id) db.lessons)
    → load_enrollment_progress env member k db ≡ ok p
    → (p.completed_lessons ≡ count (λ r. r.is_completed) p.lessons)
      × (p.total_lessons ≡ length p.lessons)
unfolding total_lessons
load_enrollment_progress_agrees env member k db p v keys h =
    elim (Option-cases (enrollment_by db k)) [
      | inl missing ↦ absurd (not_found_shown env member k db p missing h)
      | inr (e, found) ↦
          let placed = course_lessons db e.course_id db.lessons in
          let (done, total) = counted env member k db p e found v.synced h in
          let lessons = listed env member k db p e found h in
          (
            done
                ∙ (sym (ticked_count db k e v.formed found keys)
                    ∙ (sym (count-course_lessons db e.course_id (λ l. is_done db k l.id) db.lessons)
                        ∙ (sym (count-sort_by placed_leb (λ x. is_done db k x.lesson.id) placed)
                            ∙ (sym (ticked-lesson_rows db k 1 (sort_by placed_leb placed))
                                ∙ sym (ap ticked lessons))))),
            total
                ∙ (sym (length-course_lessons db e.course_id db.lessons)
                    ∙ (sym (length-sort_by placed_leb placed)
                        ∙ (sym (length-lesson_rows db k 1 (sort_by placed_leb placed))
                            ∙ sym (ap length lessons)))),
          )
    ]
