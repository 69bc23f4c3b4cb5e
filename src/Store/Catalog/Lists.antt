-- ===== src/Store/Catalog/Lists.antt =====
-- Which courses the catalog lists.
use learning_center_referenc.Prelude.{
  ◌≡◌, ◌↔◌, refl, ap, ◌∙◌, inl, inr, Bool, true, false, some, none, List, [], ◌∷◌, map, mem, arith,
  where_, Distinct, Distinct-where_, Distinct-sort_by, All, All-where_, All-sort_by, sort_by,
  mem-sort_by, mem-where_-key, found_by_key, str_leb, str_leb_total, Ascending, Ascending-sort_by,
  Ascending-map, Option-cases,
}
use learning_center_referenc.Learning.{Uuid, CourseSummary}
use learning_center_referenc.Store.Result.{Env, Healthy, ok}
use learning_center_referenc.Store.Schema.{Course, Db}
use learning_center_referenc.Store.Queries.{course_by, is_published}
use learning_center_referenc.Store.Catalog.{summary, list_published_courses}

abbrev pub catalog_ids : List CourseSummary → List Uuid
catalog_ids cs = map (λ (s : CourseSummary). s.id) cs

abbrev pub by_title : CourseSummary → CourseSummary → Bool
by_title a b = str_leb a.title b.title

-- The course of this id is published, and this is its summary.
abbrev pub Listed : Db → CourseSummary → Type 0
Listed db s =
    (c : Course) × (course_by db s.id ≡ some c)
    × (is_published c.status ≡ true)
    × (s ≡ summary db c)

map-map :
    {A B C : Type 0} (f : A → B) (g : B → C) (xs : List A)
    → map g (map f xs) ≡ map (λ a. g (f a)) xs
map-map f g [] = refl
map-map f g (x ∷ xs) = ap (λ t. g (f x) ∷ t) (map-map f g xs)

All-mapped :
    {A B : Type 0} (P : A → Type 0) (Q : B → Type 0) (f : A → B) (xs : List A)
    → ((a : A) → P a → Q (f a))
    → All P xs
    → All Q (map f xs)
All-mapped P Q f [] h k = tt
All-mapped P Q f (x ∷ xs) h k = (h x k.0, All-mapped P Q f xs h k.1)

module _ (env : Env) (db : Db) where
  abbrev shown : List Course
  shown = where_ (λ (c : Course). is_published c.status) db.courses

  abbrev sorted : List Course
  sorted = sort_by (λ (a b : Course). str_leb a.title b.title) shown

  published_iff :
      (k : Uuid) (listed : Bool)
      → listed ≡ elim (course_by db k) [ none ↦ false | some c ↦ is_published c.status ]
      → (listed ≡ true)
        ↔ ((c : Course) × (course_by db k ≡ some c) × (is_published c.status ≡ true))
  published_iff k listed same = elim (Option-cases (course_by db k)) [
    | inl missing ↦ (λ h. absurd (ground arith), λ t. absurd (ground (arith, t.1)))
    | inr (c, found) ↦ (λ h. (c, found, ground arith), λ t. ground (arith, t.1, t.2))
  ]

  sorted-Listed :
      Distinct (map (λ (c : Course). c.id) db.courses) → All (Listed db) (map (summary db) sorted)
  sorted-Listed keys =
      let found = found_by_key (λ (c : Course). c.id) db.courses keys in
      let both = All-where_ _ (λ (c : Course). is_published c.status) db.courses found in
      All-mapped _ (Listed db) (summary db) sorted (λ c h. (c, h.0, h.1, refl))
        (All-sort_by _ (λ (a b : Course). str_leb a.title b.title) shown both)

  -- While the database answers, over courses with distinct ids, the catalog can be loaded. It lists
  -- each published course once, with its lesson count, and no other, in the order of the titles.
  pub list_published_courses_lists :
      Healthy env
      → Distinct (map (λ (c : Course). c.id) db.courses)
      → (cs : List CourseSummary) × (list_published_courses env db ≡ ok cs)
        × Distinct (catalog_ids cs)
        × Ascending by_title cs
        × All (Listed db) cs
        × ((k : Uuid)
            → (mem k (catalog_ids cs) ≡ true)
              ↔ ((c : Course) × (course_by db k ≡ some c) × (is_published c.status ≡ true)))
  unfolding list_published_courses
  list_published_courses_lists healthy keys =
      let le : Course → Course → Bool = λ a b. str_leb a.title b.title in
      let id : Course → Uuid = λ c. c.id in
      let ids = map-map (summary db) (λ (s : CourseSummary). s.id) sorted in
      (
        map (summary db) sorted,
        ground (
          arith,
          healthy "listing courses",
          healthy "scanning course",
          healthy "iterating courses",
        ),
        rw ids (Distinct-sort_by le id shown (Distinct-where_ id _ db.courses keys)),
        Ascending-map by_title (summary db) sorted
            (Ascending-sort_by le (λ a b. str_leb_total a.title b.title) shown),
        sorted-Listed keys,
        λ k.
            published_iff k _ (
              ap (mem k) ids ∙ (mem-sort_by le id k shown ∙ mem-where_-key id _ k db.courses keys)),
      )
