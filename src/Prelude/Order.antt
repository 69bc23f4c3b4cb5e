-- ===== src/Prelude/Order.antt =====
-- What a sort orders: each row is no later than the next one, where any two rows can be compared.
use Prim.Native.Nat.{ℕ, zero, suc, Ordering, compare as compare_ℕ}
use Prim.Native.Nat.compare as compare_ℕ
use Prim.Native.Char.{code}
use Prim.Native.String.{String, compare, then as then_compare}
use Prim.Native.String.compare
use mathlib.Core.Path.{◌≡◌, refl, sym, ap, ◌∙◌}
use mathlib.Core.Logic.{inl, inr}
use mathlib.Core.Bool.{Bool, true, false}
use mathlib.Core.List.{List, [], ◌∷◌, map}
use native.Mathlib.Omega.{arith}
use learning_center_referenc.Prelude.Tests.{Bool-cases}
use learning_center_referenc.Prelude.Sorting.{str_leb, insert_by, sort_by}

abbrev swap : Ordering → Ordering
swap Ordering.lt = Ordering.gt
swap Ordering.eq = Ordering.eq
swap Ordering.gt = Ordering.lt

compare_ℕ-swap : (m n : ℕ) → compare_ℕ n m ≡ swap (compare_ℕ m n)
compare_ℕ-swap zero zero = compare_ℕ.zero-zero ∙ sym (ap swap compare_ℕ.zero-zero)
compare_ℕ-swap zero (suc n) = compare_ℕ.suc-zero n ∙ sym (ap swap (compare_ℕ.zero-suc n))
compare_ℕ-swap (suc m) zero = compare_ℕ.zero-suc m ∙ sym (ap swap (compare_ℕ.suc-zero m))
compare_ℕ-swap (suc m) (suc n) =
    compare_ℕ.suc-suc n m ∙ (compare_ℕ-swap m n ∙ sym (ap swap (compare_ℕ.suc-suc m n)))

swap-then_compare : (a b : Ordering) → swap (then_compare a b) ≡ then_compare (swap a) (swap b)
swap-then_compare Ordering.lt b = refl
swap-then_compare Ordering.eq b = refl
swap-then_compare Ordering.gt b = refl

compare-swap : (s t : String) → compare t s ≡ swap (compare s t)
compare-swap String.[] String.[] = compare.nil-nil ∙ sym (ap swap compare.nil-nil)
compare-swap String.[] (String.◌∷◌ d t) =
    compare.cons-nil d t ∙ sym (ap swap (compare.nil-cons d t))
compare-swap (String.◌∷◌ c s) String.[] =
    compare.nil-cons c s ∙ sym (ap swap (compare.cons-nil c s))
compare-swap (String.◌∷◌ c s) (String.◌∷◌ d t) =
    compare.cons-cons d c t s
    ∙ ((λ i. then_compare (compare_ℕ-swap (code c) (code d) i) (compare-swap s t i))
        ∙ (sym (swap-then_compare (compare_ℕ (code c) (code d)) (compare s t))
            ∙ sym (ap swap (compare.cons-cons c d s t))))

pub str_leb_total : (s t : String) → str_leb s t ≡ false → str_leb t s ≡ true
str_leb_total s t h = ground (arith, compare-swap s t)

module _ {ℓ} {A : Type ℓ} (le : A → A → Bool) where
  abbrev pub Ascending : List A → Type 0
  Ascending [] = Unit
  Ascending (a ∷ []) = Unit
  Ascending (a ∷ b ∷ xs) = (le a b ≡ true) × Ascending (b ∷ xs)

  module _ (total : (a b : A) → le a b ≡ false → le b a ≡ true) where
    -- An insertion after `b`, into rows that go on from `b`.
    Ascending-insert_by :
        (b a : A) (xs : List A)
        → le b a ≡ true
        → Ascending (b ∷ xs)
        → Ascending (b ∷ insert_by le a xs)
    unfolding insert_by
    Ascending-insert_by b a [] h k = (h, tt)
    Ascending-insert_by b a (x ∷ xs) h k = elim (Bool-cases (le a x)) [
      | inl first ↦ rw first (h, (first, k.1))
      | inr later ↦ rw later (k.0, Ascending-insert_by x a xs (total a x later) k.1)
    ]

    Ascending-insert_first : (a : A) (xs : List A) → Ascending xs → Ascending (insert_by le a xs)
    unfolding insert_by
    Ascending-insert_first a [] k = tt
    Ascending-insert_first a (x ∷ xs) k = elim (Bool-cases (le a x)) [
      | inl first ↦ rw first (first, k)
      | inr later ↦ rw later (Ascending-insert_by x a xs (total a x later) k)
    ]

    pub Ascending-sort_by : (xs : List A) → Ascending (sort_by le xs)
    unfolding sort_by
    Ascending-sort_by [] = tt
    Ascending-sort_by (x ∷ xs) = Ascending-insert_first x (sort_by le xs) (Ascending-sort_by xs)

module _ {ℓ κ} {A : Type ℓ} {B : Type κ} (le : B → B → Bool) (f : A → B) where
  pub Ascending-map : (xs : List A) → Ascending (λ a b. le (f a) (f b)) xs → Ascending le (map f xs)
  Ascending-map [] k = tt
  Ascending-map (a ∷ []) k = tt
  Ascending-map (a ∷ b ∷ xs) k = (k.0, Ascending-map (b ∷ xs) k.1)
