-- ===== src/Store/Spec/Shown.antt =====
-- What a learner is shown of an enrollment, computed from the view.
use learning_center_referenc.Prelude.{
  ℕ, suc, ◌≡◌, refl, true, false, none, some, List, [], ◌∷◌, map, ◌==◌, ==_iff, if◌then◌else◌,
  arith, ap, ◌∙◌, count, find_sound, exists, keyed, sort_by, length, length-map, Distinct,
  Option-cases, Bool-cases, inl, inr,
}
use learning_center_referenc.Learning.{
  Uuid, LessonProgress, EnrollmentProgress, EnrollmentStatus, withdrawn,
}
use learning_center_referenc.Store.Result.{
  Env, Healthy, Result, ok, err, not_found, ◌>>=◌, ◌>>◌, require, guard,
}
use learning_center_referenc.Store.Schema.{Course, Enrollment, Lesson, Db}
use learning_center_referenc.Store.Queries.{
  enrollment_by, course_by, of_pair, is_done, is_withdrawn, percent, derived_status,
}
use learning_center_referenc.Store.Dashboard.{
  Placed, course_lessons, placed_leb, lesson_rows, progress_row, load_enrollment_progress,
}
use learning_center_referenc.Store.Dashboard.Agrees.{load_enrollment_progress_agrees, is_some-find}
use learning_center_referenc.Store.Invariant.{Inv, expected_progress, expected_status}
use learning_center_referenc.Store.Spec.{Ticket, Learned, ticket_of, view, catalog_of}
use learning_center_referenc.Store.Spec.Tables.{view-ticket, view-done}

abbrev pub untimed_lesson : LessonProgress → LessonProgress
untimed_lesson l = record l { completed_at = none }

-- The times of the completions are not a part of the view.
abbrev pub untimed : EnrollmentProgress → EnrollmentProgress
untimed p = record p { lessons = map untimed_lesson p.lessons }

abbrev pub untimed_result : Result EnrollmentProgress → Result EnrollmentProgress
untimed_result (ok p) = ok (untimed p)
untimed_result (err e) = err e

unfoldable pub specified_rows : Learned → Uuid → ℕ → List Placed → List LessonProgress
specified_rows s k n [] = []
specified_rows s k n (p ∷ ps) =
    record {
      id = p.lesson.id;
      title = p.lesson.title;
      lesson_type = p.lesson.lesson_type;
      position = n;
      is_completed = s.done k p.lesson.id;
      completed_at = none;
    }
    ∷ specified_rows s k (suc n) ps

-- The counts are those of the list, and the status follows from them unless it is withdrawn.
unfoldable pub specified_row : Ticket → Uuid → Course → List LessonProgress → EnrollmentProgress
specified_row t k c rows =
    let done = count (λ (r : LessonProgress). r.is_completed) rows in
    record {
      enrollment_id = k;
      course_id = c.id;
      course_title = c.title;
      status = if t.withdrawn then withdrawn else derived_status done (length rows);
      completed_lessons = done;
      total_lessons = length rows;
      percent_complete = percent done (length rows);
      lessons = rows;
    }

unfoldable pub specified_progress : Db → Uuid → Uuid → Learned → Result EnrollmentProgress
specified_progress catalog member k s = do
  t ← require not_found (s.ticket k)
  guard (t.member == member) not_found
  c ← require not_found (course_by catalog t.course)
  let placed = sort_by placed_leb (course_lessons catalog t.course catalog.lessons)
  ok (specified_row t k c (specified_rows s k 1 placed))

rows_shown :
    (db : Db) (k : Uuid) (n : ℕ) (ps : List Placed)
    → map untimed_lesson (lesson_rows db k n ps) ≡ specified_rows (view db) k n ps
unfolding lesson_rows specified_rows
rows_shown db k n [] = refl
rows_shown db k n (p ∷ ps) = ground (
  arith,
  rows_shown db k (suc n) ps,
  view-done db k p.lesson.id,
  is_some-find (of_pair k p.lesson.id) db.events,
  done_lem db k p.lesson.id,
)
  where
    done_lem : (db : Db) (k l : Uuid) → is_done db k l ≡ exists (of_pair k l) db.events
    done_lem db k l = unfold is_done in refl

ticked_untimed :
    (rows : List LessonProgress)
    → count (λ (r : LessonProgress). r.is_completed) (map untimed_lesson rows)
      ≡ count (λ (r : LessonProgress). r.is_completed) rows
unfolding count
ticked_untimed [] = refl
ticked_untimed (r ∷ rows) = ground (arith, ticked_untimed rows)

withdrawn_status : (s : EnrollmentStatus) → is_withdrawn s ≡ true → s ≡ withdrawn
withdrawn_status s h = ground arith

-- The row of an enrollment in tables that keep the invariant, once its list agrees with its counts.
row_shown :
    (db : Db) (k : Uuid) (e : Enrollment) (c : Course) (rows : List LessonProgress)
    → Inv db
    → enrollment_by db k ≡ some e
    → (progress_row db e c rows).completed_lessons ≡ count (λ r. r.is_completed) rows
    → (progress_row db e c rows).total_lessons ≡ length rows
    → untimed (progress_row db e c rows) ≡ specified_row (ticket_of e) k c (map untimed_lesson rows)
unfolding progress_row specified_row expected_progress expected_status
row_shown db k e c rows v found ticked total =
    let id : e.id ≡ k =
      (==_iff e.id k).0 (find_sound (keyed (λ (x : Enrollment). x.id) k) db.enrollments e found) in
    ground (
      arith,
      id,
      v.synced.row k e found,
      v.synced.status k e found,
      ticked_untimed rows,
      length-map untimed_lesson rows,
      withdrawn_status e.status,
    )

course_by-catalog_of : (db : Db) (c : Uuid) → course_by (catalog_of db) c ≡ course_by db c
unfolding catalog_of
course_by-catalog_of db c = refl

course_lessons-catalog_of :
    (db : Db) (c : Uuid) (ls : List Lesson)
    → course_lessons (catalog_of db) c ls ≡ course_lessons db c ls
unfolding catalog_of course_lessons
course_lessons-catalog_of db c [] = refl
course_lessons-catalog_of db c (l ∷ ls) = ground (arith, course_lessons-catalog_of db c ls)

placed-catalog_of :
    (db : Db) (c : Uuid)
    → sort_by placed_leb (course_lessons (catalog_of db) c (catalog_of db).lessons)
      ≡ sort_by placed_leb (course_lessons db c db.lessons)
placed-catalog_of db c =
    ap (sort_by placed_leb)
      (course_lessons-catalog_of db c (catalog_of db).lessons ∙ (unfold catalog_of in refl))

module _ (env : Env) (member k : Uuid) (db : Db) (healthy : Healthy env) where
  loaded :
      (e : Enrollment) (c : Course)
      → enrollment_by db k ≡ some e
      → e.member_id ≡ member
      → course_by db e.course_id ≡ some c
      → load_enrollment_progress env member k db
        ≡ ok (
            progress_row db e c
              (lesson_rows db k 1 (sort_by placed_leb (course_lessons db e.course_id db.lessons))))
  unfolding load_enrollment_progress
  loaded e c found owned there = ground (
    arith,
    healthy "loading progress",
    healthy "loading lessons",
    healthy "scanning lesson",
    healthy "iterating lessons",
  )

  shown :
      Inv db
      → Distinct (map (λ l. l.id) db.lessons)
      → (e : Enrollment) (c : Course) → enrollment_by db k ≡ some e
      → e.member_id ≡ member
      → course_by db e.course_id ≡ some c
      → untimed_result (load_enrollment_progress env member k db)
        ≡ ok (
            specified_row (ticket_of e) k c (
              specified_rows
                (view db)
                k
                1
                (sort_by placed_leb (course_lessons db e.course_id db.lessons))))
  shown v keys e c found owned there =
      let ticks = count (λ (r : LessonProgress). r.is_completed) in
      let placed = sort_by placed_leb (course_lessons db e.course_id db.lessons) in
      let rows = lesson_rows db k 1 placed in
      let load = loaded e c found owned there in
      let (ticked, total) =
        load_enrollment_progress_agrees env member k db (progress_row db e c rows) v keys load in
      let listed : (progress_row db e c rows).lessons ≡ rows = unfold progress_row in refl in
      ap untimed_result load
      ∙ (ap ok
            (row_shown db k e c rows v found (ticked ∙ ap ticks listed) (total ∙ ap length listed))
          ∙ ap (λ t. ok (specified_row (ticket_of e) k c t)) (rows_shown db k 1 placed))

  unknown : enrollment_by db k ≡ none → load_enrollment_progress env member k db ≡ err not_found
  unfolding load_enrollment_progress
  unknown missing = ground (arith, healthy "loading progress")

  foreign :
      (e : Enrollment)
      → enrollment_by db k ≡ some e
      → (e.member_id == member) ≡ false
      → load_enrollment_progress env member k db ≡ err not_found
  unfolding load_enrollment_progress
  foreign e found other = ground (arith, healthy "loading progress")

  courseless :
      (e : Enrollment)
      → enrollment_by db k ≡ some e
      → (e.member_id == member) ≡ true
      → course_by db e.course_id ≡ none
      → load_enrollment_progress env member k db ≡ err not_found
  unfolding load_enrollment_progress
  courseless e found owned gone = ground (arith, healthy "loading progress")

  -- While the database answers, from tables that keep the invariant, with distinct lesson ids, what
  -- a learner is shown of an enrollment is what the view gives, up to the times of the completions:
  -- the same lessons are ticked, and the counts, the percentage and the status follow from them.
  pub load_enrollment_progress_refines :
      Inv db
      → Distinct (map (λ l. l.id) db.lessons)
      → untimed_result (load_enrollment_progress env member k db)
        ≡ specified_progress (catalog_of db) member k (view db)
  unfolding specified_progress
  load_enrollment_progress_refines v keys = elim (Option-cases (enrollment_by db k)) [
    | inl missing ↦ ground (arith, view-ticket db k, unknown missing)
    | inr (e, found) ↦ elim (Bool-cases (e.member_id == member)) [
      | inr other ↦ ground (arith, view-ticket db k, foreign e found)
      | inl owned ↦ elim (Option-cases (course_by db e.course_id)) [
        | inl gone ↦
            ground
              (arith, view-ticket db k, courseless e found, course_by-catalog_of db e.course_id)
        | inr (c, there) ↦ ground (
          arith,
          view-ticket db k,
          course_by-catalog_of db e.course_id,
          placed-catalog_of db e.course_id,
          shown v keys e c found (ground arith) there,
        )
      ]
    ]
  ]
