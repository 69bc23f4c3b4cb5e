-- ===== src/Prelude/Sorting.antt =====
-- `order by`: a stable insertion sort, and the order of texts.
use Prim.Native.Nat.{ℕ, suc, Ordering}
use Prim.Native.String.{String, compare}
use mathlib.Core.Path.{◌≡◌, refl, ap, ◌∙◌}
use mathlib.Core.Logic.{inl, inr}
use mathlib.Core.Bool.{Bool, true, false, ◌||◌}
use mathlib.Core.List.{List, [], ◌∷◌, map}
use native.Mathlib.Omega.{arith}
use learning_center_referenc.Prelude.Tests.{◌==◌, if◌then◌else◌, Bool-cases}
use learning_center_referenc.Prelude.Lists.{length, mem, Distinct, All}
use learning_center_referenc.Prelude.Rows.{where_, exists, count, find, keyed}

abbrev pub str_leb : String → String → Bool
str_leb a b = elim (compare a b) [ Ordering.gt ↦ false | _ ↦ true ]

module _ {ℓ} {A : Type ℓ} (le : A → A → Bool) where
  unfoldable pub insert_by : A → List A → List A
  insert_by a [] = a ∷ []
  insert_by a (x ∷ xs) = let rest = insert_by a xs in if le a x then a ∷ x ∷ xs else x ∷ rest

  unfoldable pub sort_by : List A → List A
  unfolding insert_by
  sort_by [] = []
  sort_by (x ∷ xs) = insert_by x (sort_by xs)

  length-insert_by : (a : A) (xs : List A) → length (insert_by a xs) ≡ suc (length xs)
  unfolding insert_by
  length-insert_by a [] = refl
  length-insert_by a (x ∷ xs) = ground (arith, length-insert_by a xs)

  pub length-sort_by : (xs : List A) → length (sort_by xs) ≡ length xs
  unfolding sort_by
  length-sort_by [] = refl
  length-sort_by (x ∷ xs) = length-insert_by x (sort_by xs) ∙ ap suc (length-sort_by xs)

  exists-insert_by :
      (p : A → Bool) (a : A) (xs : List A) → exists p (insert_by a xs) ≡ (p a || exists p xs)
  unfolding insert_by exists
  exists-insert_by p a [] = ground arith
  exists-insert_by p a (x ∷ xs) = ground (arith, exists-insert_by p a xs)

  pub exists-sort_by : (p : A → Bool) (xs : List A) → exists p (sort_by xs) ≡ exists p xs
  unfolding sort_by exists
  exists-sort_by p [] = refl
  exists-sort_by p (x ∷ xs) = ground (arith, exists-insert_by p x (sort_by xs), exists-sort_by p xs)

  count-insert_by :
      (p : A → Bool) (a : A) (xs : List A) → count p (insert_by a xs) ≡ count p (a ∷ xs)
  unfolding insert_by count
  count-insert_by p a [] = refl
  count-insert_by p a (x ∷ xs) = ground (arith, count-insert_by p a xs)

  pub count-sort_by : (p : A → Bool) (xs : List A) → count p (sort_by xs) ≡ count p xs
  unfolding sort_by count
  count-sort_by p [] = refl
  count-sort_by p (x ∷ xs) = ground (arith, count-insert_by p x (sort_by xs), count-sort_by p xs)

  module _ (key : A → ℕ) where
    mem-insert_by :
        (k : ℕ) (a : A) (xs : List A)
        → mem k (map key (insert_by a xs)) ≡ (key a == k || mem k (map key xs))
    unfolding insert_by mem
    mem-insert_by k a [] = refl
    mem-insert_by k a (x ∷ xs) = ground (arith, mem-insert_by k a xs)

    pub mem-sort_by : (k : ℕ) (xs : List A) → mem k (map key (sort_by xs)) ≡ mem k (map key xs)
    unfolding sort_by mem
    mem-sort_by k [] = refl
    mem-sort_by k (x ∷ xs) = ground (arith, mem-insert_by k x (sort_by xs), mem-sort_by k xs)

    Distinct-insert_by :
        (a : A) (xs : List A)
        → mem (key a) (map key xs) ≡ false
        → Distinct (map key xs)
        → Distinct (map key (insert_by a xs))
    unfolding insert_by mem
    Distinct-insert_by a [] h d = (refl, tt)
    Distinct-insert_by a (x ∷ xs) h d =
        ground (arith, mem-insert_by (key x) a xs, Distinct-insert_by a xs)

    pub Distinct-sort_by : (xs : List A) → Distinct (map key xs) → Distinct (map key (sort_by xs))
    unfolding sort_by
    Distinct-sort_by [] d = tt
    Distinct-sort_by (x ∷ xs) d =
        Distinct-insert_by x (sort_by xs) (mem-sort_by (key x) xs ∙ d.0) (Distinct-sort_by xs d.1)

    find-insert_by :
        (k : ℕ) (a : A) (xs : List A)
        → mem (key a) (map key xs) ≡ false
        → find (keyed key k) (insert_by a xs) ≡ find (keyed key k) (a ∷ xs)
    unfolding insert_by find mem
    find-insert_by k a [] h = refl
    find-insert_by k a (x ∷ xs) h = ground (arith, find-insert_by k a xs)

    -- Under a primary key, a row is found by its key in any order of the rows.
    pub find-sort_by :
        (k : ℕ) (xs : List A)
        → Distinct (map key xs)
        → find (keyed key k) (sort_by xs) ≡ find (keyed key k) xs
    unfolding sort_by find
    find-sort_by k [] d = refl
    find-sort_by k (x ∷ xs) d =
        ground
          (arith, find-insert_by k x (sort_by xs), mem-sort_by (key x) xs, find-sort_by k xs d.1)

-- What holds of all rows, after a select and after a sort.
module _ {ℓ κ} {A : Type ℓ} (P : A → Type κ) where
  pub All-where_ :
      (p : A → Bool) (xs : List A) → All P xs → All (λ x. P x × (p x ≡ true)) (where_ p xs)
  unfolding where_
  All-where_ p [] h = tt
  All-where_ p (x ∷ xs) h = elim (Bool-cases (p x)) [
    | inl passes ↦ rw passes ((h.0, passes), All-where_ p xs h.1)
    | inr fails ↦ rw fails (All-where_ p xs h.1)
  ]

  All-insert_by :
      (le : A → A → Bool) (a : A) (xs : List A) → P a → All P xs → All P (insert_by le a xs)
  unfolding insert_by
  All-insert_by le a [] h k = (h, tt)
  All-insert_by le a (x ∷ xs) h k = elim (Bool-cases (le a x)) [
    | inl passes ↦ rw passes (h, k)
    | inr fails ↦ rw fails (k.0, All-insert_by le a xs h k.1)
  ]

  pub All-sort_by : (le : A → A → Bool) (xs : List A) → All P xs → All P (sort_by le xs)
  unfolding sort_by
  All-sort_by le [] h = tt
  All-sort_by le (x ∷ xs) h = All-insert_by le x (sort_by le xs) h.0 (All-sort_by le xs h.1)
