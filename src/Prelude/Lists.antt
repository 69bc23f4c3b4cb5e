-- ===== src/Prelude/Lists.antt =====
-- Lists measured by native numbers, membership of a number as a test, and a predicate on all
-- elements that computes to a tuple.
use Prim.Native.Nat.{ℕ, suc, ◌≤◌}
use Prim.Native.String.{String}
use mathlib.Core.Path.{◌≡◌, refl, ap}
use mathlib.Core.Logic.{◌≢◌}
use mathlib.Core.Bool.{Bool, true, false, ◌||◌}
use mathlib.Core.List.{List, [], ◌∷◌, map}
use native.Mathlib.Omega.{arith}
use text.Mathlib.Text.{◌==◌ as str_eq}
use learning_center_referenc.Prelude.Tests.{◌==◌, if◌then◌else◌}

module _ {ℓ} {A : Type ℓ} where
  abbrev pub length : List A → ℕ
  length [] = 0
  length (x ∷ xs) = suc (length xs)

  abbrev pub All {κ} : (A → Type κ) → List A → Type κ
  All P [] = Unit
  All P (x ∷ xs) = P x × All P xs

pub All-zip {ℓ κ} :
    {A : Type ℓ} (P : A → Type κ) (Q : A → Type κ) (xs : List A)
    → All P xs
    → All Q xs
    → All (λ x. P x × Q x) xs
All-zip P Q [] h k = tt
All-zip P Q (x ∷ xs) h k = ((h.0, k.0), All-zip P Q xs h.1 k.1)

pub All-map {ℓ κ} :
    {A : Type ℓ} (P Q : A → Type κ) (xs : List A) → ((x : A) → P x → Q x) → All P xs → All Q xs
All-map P Q [] f h = tt
All-map P Q (x ∷ xs) f h = (f x h.0, All-map P Q xs f h.1)

pub length-map {ℓ κ} :
    {A : Type ℓ} {B : Type κ} (f : A → B) (xs : List A) → length (map f xs) ≡ length xs
length-map f [] = refl
length-map f (x ∷ xs) = ap suc (length-map f xs)

-- `for _, a := range xs { if a == x { return true } }; return false`
unfoldable pub contains : List String → String → Bool
contains [] x = false
contains (a ∷ xs) x = str_eq a x || contains xs x

unfoldable pub mem : ℕ → List ℕ → Bool
mem a [] = false
mem a (x ∷ xs) = x == a || mem a xs

abbrev pub Distinct : List ℕ → Type 0
Distinct [] = Unit
Distinct (x ∷ xs) = (mem x xs ≡ false) × Distinct xs

remove_first : ℕ → List ℕ → List ℕ
remove_first a [] = []
remove_first a (x ∷ xs) = if x == a then xs else x ∷ remove_first a xs

length-remove_first :
    (a : ℕ) (xs : List ℕ) → mem a xs ≡ true → suc (length (remove_first a xs)) ≡ length xs
unfolding mem remove_first
length-remove_first a [] h = ground arith
length-remove_first a (x ∷ xs) h = ground (arith, length-remove_first a xs)

mem-remove_first_ne :
    (a b : ℕ) (xs : List ℕ) → b ≢ a → mem b xs ≡ true → mem b (remove_first a xs) ≡ true
unfolding mem remove_first
mem-remove_first_ne a b [] n h = h
mem-remove_first_ne a b (x ∷ xs) n h = ground (arith, mem-remove_first_ne a b xs)

mem_distinct_ne : (a b : ℕ) (xs : List ℕ) → mem a xs ≡ false → mem b xs ≡ true → b ≢ a
unfolding mem
mem_distinct_ne a b xs h k = λ e. ground (arith, ap (λ (t : ℕ). mem t xs) e)

-- Distinct numbers that all occur in another list are no more than that list has.
pub Distinct-length-le :
    (xs ys : List ℕ)
    → Distinct xs
    → ((a : ℕ) → mem a xs ≡ true → mem a ys ≡ true)
    → length xs ≤ length ys
unfolding mem
Distinct-length-le [] ys d sub = omega arith
Distinct-length-le (x ∷ xs) ys (fresh, d) sub =
    let here : mem x ys ≡ true = sub x (ground arith) in
    let rest : length xs ≤ length (remove_first x ys) =
      Distinct-length-le xs (remove_first x ys) d (λ a m.
        mem-remove_first_ne x a ys (mem_distinct_ne x a xs fresh m) (sub a (ground arith))) in
    omega (arith, rest, length-remove_first x ys here)
