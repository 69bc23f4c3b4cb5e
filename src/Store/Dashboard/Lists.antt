-- ===== src/Store/Dashboard/Lists.antt =====
-- Which enrollments the dashboard lists, and that it can be loaded.
use learning_center_referenc.Prelude.{
  ◌≡◌, ◌↔◌, refl, ap, ◌∙◌, inl, inr, Bool, true, false, some, none, List, [], ◌∷◌, map, mem, arith,
  ◌==◌, ==_iff, where_, keyed, Distinct, All, All-zip, All-map, All-where_, All-sort_by, sort_by,
  mem-sort_by, Distinct-sort_by, is_some, Option-cases,
}
use learning_center_referenc.Prelude.{
  Ascending, Ascending-sort_by, found_by_key, mem-where_-key, Distinct-where_,
}
use learning_center_referenc.Learning.{Uuid, EnrollmentProgress, Dashboard}
use learning_center_referenc.Store.Result.{Env, Healthy, ok}
use learning_center_referenc.Store.Schema.{MemberRow, Enrollment, Db}
use learning_center_referenc.Store.Queries.{member_by, course_by, enrollment_by}
use learning_center_referenc.Store.Dashboard.{
  to_member, load_member_by_id, course_lessons, placed_leb, progress_row, lesson_rows,
  load_enrollment_progress, enrolled_leb, load_each, load_dashboard,
}
use learning_center_referenc.Store.Invariant.{enrollment_ids}

abbrev pub listed_ids : Dashboard → List Uuid
listed_ids d = map (λ (p : EnrollmentProgress). p.enrollment_id) d.enrollments

-- Every enrollment's course is in the catalog: the foreign key of `enrollment.course_id`.
abbrev pub HasCourses : Db → Type 0
HasCourses db = All (λ e. is_some (course_by db e.course_id) ≡ true) db.enrollments

module _ (env : Env) (member : Uuid) (db : Db) (healthy : Healthy env) where
  abbrev Loads : Enrollment → Type 0
  Loads e =
      (enrollment_by db e.id ≡ some e)
      × (is_some (course_by db e.course_id) ≡ true)
      × (e.member_id ≡ member)

  load_one :
      (e : Enrollment)
      → Loads e
      → (p : EnrollmentProgress) × (load_enrollment_progress env member e.id db ≡ ok p)
        × (p.enrollment_id ≡ e.id)
  unfolding load_enrollment_progress progress_row
  load_one e (found, there, owned) = elim (Option-cases (course_by db e.course_id)) [
    | inl gone ↦ absurd (ground arith)
    | inr (c, known) ↦ (
      progress_row db e c
          (lesson_rows db e.id 1 (sort_by placed_leb (course_lessons db e.course_id db.lessons))),
      ground (
        arith,
        healthy "loading progress",
        healthy "loading lessons",
        healthy "scanning lesson",
        healthy "iterating lessons",
      ),
      refl,
    )
  ]

  load_each-ok :
      (es : List Enrollment)
      → All Loads es
      → (ps : List EnrollmentProgress) × (load_each env member db es ≡ ok ps)
        × (map (λ (p : EnrollmentProgress). p.enrollment_id) ps ≡ map (λ (e : Enrollment). e.id) es)
  unfolding load_each
  load_each-ok [] h = ([], refl, refl)
  load_each-ok (e ∷ es) h =
      let (p, one, id) = load_one e h.0 in
      let (ps, more, ids) = load_each-ok es h.1 in (p ∷ ps, ground arith, cc (id, ids))

  abbrev mine : List Enrollment
  mine = where_ (keyed (λ (e : Enrollment). e.member_id) member) db.enrollments

  mine_load : Distinct (enrollment_ids db) → HasCourses db → All Loads (sort_by enrolled_leb mine)
  mine_load keys courses =
      let found = found_by_key (λ (e : Enrollment). e.id) db.enrollments keys in
      let both = All-zip _ _ db.enrollments found courses in
      All-sort_by Loads enrolled_leb mine (
        All-map _ Loads mine (λ e h. (h.0.0, h.0.1, (==_iff e.member_id member).0 h.1))
          (All-where_ _ (keyed (λ (x : Enrollment). x.member_id) member) db.enrollments both))

  enrolled_leb_total : (a b : Enrollment) → enrolled_leb a b ≡ false → enrolled_leb b a ≡ true
  unfolding enrolled_leb
  enrolled_leb_total a b h = ground arith

  found_iff :
      (k : Uuid) (listed : Bool)
      → listed ≡ elim (enrollment_by db k) [ none ↦ false | some e ↦ e.member_id == member ]
      → (listed ≡ true)
        ↔ ((e : Enrollment) × (enrollment_by db k ≡ some e) × (e.member_id ≡ member))
  found_iff k listed same = elim (Option-cases (enrollment_by db k)) [
    | inl missing ↦ (λ h. absurd (ground arith), λ t. absurd (ground (arith, t.1)))
    | inr (e, found) ↦ (λ h. (e, found, ground arith), λ t. ground (arith, t.1, t.2))
  ]

  -- While the database answers, over enrollments with distinct ids, each in a course that exists, the
  -- dashboard of a member who exists can be loaded. It shows that member and lists each enrollment
  -- of the member once, and no other, by the time of enrollment and then by id.
  pub load_dashboard_lists :
      (m : MemberRow)
      → Distinct (enrollment_ids db)
      → HasCourses db
      → member_by db member ≡ some m
      → (d : Dashboard) × (load_dashboard env member db ≡ ok d)
        × (d.member ≡ to_member db m)
        × Distinct (listed_ids d)
        × ((es : List Enrollment) × Ascending enrolled_leb es
            × (listed_ids d ≡ map (λ (e : Enrollment). e.id) es)
            × All (λ e. enrollment_by db e.id ≡ some e) es)
        × ((k : Uuid)
            → (mem k (listed_ids d) ≡ true)
              ↔ ((e : Enrollment) × (enrollment_by db k ≡ some e) × (e.member_id ≡ member)))
  unfolding load_dashboard load_member_by_id
  load_dashboard_lists m keys courses there =
      let sorted = sort_by enrolled_leb mine in
      let each = mine_load keys courses in
      let (ps, loads, ids) = load_each-ok sorted each in
      (
        record { member = to_member db m; enrollments = ps },
        ground (
          arith,
          healthy "loading member",
          healthy "listing enrollments",
          healthy "scanning enrollment",
          healthy "iterating enrollments",
        ),
        refl,
        rw ids (
            Distinct-sort_by enrolled_leb (λ (e : Enrollment). e.id) mine
              (Distinct-where_ (λ (e : Enrollment). e.id) _ db.enrollments keys)),
        (
          sorted,
          Ascending-sort_by enrolled_leb enrolled_leb_total mine,
          ids,
          All-map Loads _ sorted (λ e h. h.0) each,
        ),
        λ k. found_iff k _ (
            ap (mem k) ids
            ∙ (mem-sort_by enrolled_leb (λ (e : Enrollment). e.id) k mine
                ∙ mem-where_-key (λ (e : Enrollment). e.id) _ k db.enrollments keys)),
      )
