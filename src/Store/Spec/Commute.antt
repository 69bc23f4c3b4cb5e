-- ===== src/Store/Spec/Commute.antt =====
-- Two completions for different enrollments, in either order.
use learning_center_referenc.Prelude.{
  ◌≡◌, ◌≢◌, ◌⊎◌, Bool, not, ◌&&◌, ◌||◌, [], ◌∷◌, ◌==◌, arith, ap, sym, ◌∙◌, fun_ext, exists_congr,
  Option-cases, inl, inr,
}
use learning_center_referenc.Learning.{Uuid}
use learning_center_referenc.Store.Result.{Env, Err, Healthy, Result-cases, ok, err}
use learning_center_referenc.Store.Schema.{Db}
use learning_center_referenc.Store.Complete.{Place, lesson_place}
use learning_center_referenc.Store.Invariant.{Inv}
use learning_center_referenc.Store.Spec.{
  Learned, view, catalog_of, open_before, specified_complete, specified, Command, completes, Answer,
}
use learning_center_referenc.Store.Spec.History.{
  Small, perform_all, specified_all, perform_all_refines,
}

-- A completion of another enrollment leaves what an enrollment has done.
abbrev with_done : Uuid → Uuid → Learned → Learned
with_done k lesson s = record s { done = λ j l. s.done j l || (k == j && lesson == l) }

open_before-other :
    (catalog : Db) (s : Learned) (k j course lesson : Uuid) (p : Place)
    → j ≢ k
    → open_before catalog (with_done j lesson s) k course p ≡ open_before catalog s k course p
unfolding open_before
open_before-other catalog s k j course lesson p apart =
    exists_congr _ _ catalog.lessons (λ l. ground arith)

done_other :
    (s : Learned) (k lesson j l : Uuid)
    → j ≢ k
    → (s.done k lesson || (j == k && l == lesson)) ≡ s.done k lesson
done_other s k lesson j l apart = ground arith

module _ (catalog : Db) (member k lesson : Uuid) where
  -- A specified completion is refused, or adds its lesson.
  complete_cases :
      (s : Learned)
      → (specified_complete catalog member k lesson s
          ≡ ok (not (s.done k lesson), with_done k lesson s))
        ⊎ ((x : Err) × (specified_complete catalog member k lesson s ≡ err x))
  unfolding specified_complete
  complete_cases s = elim (Result-cases (specified_complete catalog member k lesson s)) [
    | inr refused ↦ inr refused
    | inl ((new, s'), done) ↦ elim (Option-cases (s.ticket k)) [
      | inl missing ↦ absurd (ground arith)
      | inr (t, found) ↦ elim (Option-cases (lesson_place catalog lesson t.course)) [
        | inl unplaced ↦ absurd (ground arith)
        | inr (p, placed) ↦ inl (ground arith)
      ]
    ]
  ]

  -- What another enrollment has done does not decide it.
  complete-other :
      (s : Learned) (j l : Uuid)
      → j ≢ k
      → specified_complete catalog member k lesson (with_done j l s)
        ≡ elim (specified_complete catalog member k lesson s) [
          | err x ↦ err x
          | ok (new, s') ↦ ok (new, with_done k lesson (with_done j l s))
        ]
  unfolding specified_complete
  complete-other s j l apart = elim (Option-cases (s.ticket k)) [
    | inl missing ↦ ground arith
    | inr (t, found) ↦ elim (Option-cases (lesson_place catalog lesson t.course)) [
      | inl unplaced ↦ ground arith
      | inr (p, placed) ↦ ground (
        arith,
        open_before-other catalog s k j t.course l p apart,
        done_other s k lesson j l apart,
      )
    ]
  ]

with_done_swap :
    (k lesson j l : Uuid) (s : Learned)
    → with_done k lesson (with_done j l s) ≡ with_done j l (with_done k lesson s)
with_done_swap k lesson j l s =
    ap (λ (d : Uuid → Uuid → Bool). record s { done = d })
      (fun_ext (λ a. fun_ext (λ b. swap (s.done a b) (j == a && l == b) (k == a && lesson == b))))
  where
    swap : (x y z : Bool) → ((x || y) || z) ≡ ((x || z) || y)
    swap x y z = ground arith

module _ (catalog : Db) (f f' m k l m' k' l' : Uuid) (apart : k ≢ k') where
  abbrev one : Learned → Learned × Answer
  one = specified catalog f (completes m k l)

  abbrev two : Learned → Learned × Answer
  two = specified catalog f' (completes m' k' l')

  specified_commute :
      (s : Learned)
      → ((two (one s).0).0 ≡ (one (two s).0).0)
        × ((two (one s).0).1 ≡ (two s).1)
        × ((one (two s).0).1 ≡ (one s).1)
  unfolding specified
  specified_commute s =
      let on_one = complete-other catalog m' k' l' s k l apart in
      let on_two = complete-other catalog m k l s k' l' (λ e. apart (sym e)) in
      elim (complete_cases catalog m k l s) [
        | inr (x, refused) ↦ elim (complete_cases catalog m' k' l' s) [
          | inr (y, refused') ↦ (ground arith, ground arith, ground arith)
          | inl done' ↦ (ground (arith, on_two), ground (arith, on_two), ground (arith, on_two))
        ]
        | inl done ↦ elim (complete_cases catalog m' k' l' s) [
          | inr (y, refused') ↦
              (ground (arith, on_one), ground (arith, on_one), ground (arith, on_one))
          | inl done' ↦ (
            ground (arith, on_one, on_two, with_done_swap k l k' l' s),
            ground (arith, on_one, on_two),
            ground (arith, on_one, on_two),
          )
        ]
      ]

-- While the database answers, from tables that keep the invariant and with courses whose lesson
-- count times 100 fits in int4, two completions for different enrollments can run in either order:
-- each is answered the same, and the tables stand for the same state.
pub completions_commute :
    (env env' : Env) (m k l m' k' l' : Uuid) (db : Db)
    → Healthy env
    → Healthy env'
    → Inv db
    → Small (catalog_of db)
    → k ≢ k'
    → let a : Env × Command = (env, completes m k l) in
      let b : Env × Command = (env', completes m' k' l') in
      let first = perform_all (a ∷ b ∷ []) db in
      let second = perform_all (b ∷ a ∷ []) db in
      (view first.0 ≡ view second.0)
      × (x y : Answer) × (first.1 ≡ x ∷ y ∷ [])
      × (second.1 ≡ y ∷ x ∷ [])
unfolding specified_all
completions_commute env env' m k l m' k' l' db healthy healthy' v small apart =
    let a : Env × Command = (env, completes m k l) in
    let b : Env × Command = (env', completes m' k' l') in
    let catalog = catalog_of db in
    let (state, answers) = perform_all_refines (a ∷ b ∷ []) db (healthy, (healthy', tt)) v small in
    let (state', answers') =
      perform_all_refines (b ∷ a ∷ []) db (healthy', (healthy, tt)) v small in
    let (same, right, left) =
      specified_commute catalog env.fresh env'.fresh m k l m' k' l' apart (view db) in
    let x = (specified catalog env.fresh (completes m k l) (view db)).1 in
    let y = (specified catalog env'.fresh (completes m' k' l') (view db)).1 in
    (
      state ∙ (same ∙ sym state'),
      x,
      y,
      answers ∙ ap (λ (t : Answer). x ∷ t ∷ []) right,
      answers' ∙ ap (λ (t : Answer). y ∷ t ∷ []) left,
    )
