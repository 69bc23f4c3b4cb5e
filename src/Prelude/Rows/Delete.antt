-- ===== src/Prelude/Rows/Delete.antt =====
-- What a delete leaves, and the rows of a key.
use Prim.Native.Nat.{ℕ}
use mathlib.Core.Path.{◌≡◌, refl}
use mathlib.Core.Bool.{Bool, true, false, ◌&&◌}
use mathlib.Core.Option.{none, some}
use mathlib.Core.List.{List, [], ◌∷◌, map}
use native.Mathlib.Omega.{arith}
use learning_center_referenc.Prelude.Tests.{◌==◌, if◌then◌else◌}
use learning_center_referenc.Prelude.Lists.{mem, Distinct}
use learning_center_referenc.Prelude.Rows.{exists, count, where_, find, delete, keyed, mem-map-key}

-- A delete, against the rows that it does not touch.
module _ {ℓ} {R : Type ℓ} (p q : R → Bool) where
  module _ (apart : (r : R) → p r ≡ true → q r ≡ false) where
    pub where_-delete : (rows : List R) → where_ p (delete q rows) ≡ where_ p rows
    unfolding where_ delete
    where_-delete [] = refl
    where_-delete (r ∷ rows) = ground (arith, apart r, where_-delete rows)

    pub exists-delete : (rows : List R) → exists p (delete q rows) ≡ exists p rows
    unfolding exists delete
    exists-delete [] = refl
    exists-delete (r ∷ rows) = ground (arith, apart r, exists-delete rows)

    pub count-delete : (rows : List R) → count p (delete q rows) ≡ count p rows
    unfolding count delete
    count-delete [] = refl
    count-delete (r ∷ rows) = ground (arith, apart r, count-delete rows)

    pub find-delete : (rows : List R) → find p (delete q rows) ≡ find p rows
    unfolding find delete
    find-delete [] = refl
    find-delete (r ∷ rows) = ground (arith, apart r, find-delete rows)

  module _ (within : (r : R) → p r ≡ true → q r ≡ true) where
    pub find-delete_within : (rows : List R) → find p (delete q rows) ≡ none
    unfolding find delete
    find-delete_within [] = refl
    find-delete_within (r ∷ rows) = ground (arith, within r, find-delete_within rows)

    pub exists-delete_within : (rows : List R) → exists p (delete q rows) ≡ false
    unfolding exists delete
    exists-delete_within [] = refl
    exists-delete_within (r ∷ rows) = ground (arith, within r, exists-delete_within rows)

    pub where_-delete_within : (rows : List R) → where_ p (delete q rows) ≡ []
    unfolding where_ delete
    where_-delete_within [] = refl
    where_-delete_within (r ∷ rows) = ground (arith, within r, where_-delete_within rows)

module _ {ℓ} {R : Type ℓ} (key : R → ℕ) (q : R → Bool) where
  mem-map-delete :
      (k : ℕ) (rows : List R)
      → mem k (map key rows) ≡ false
      → mem k (map key (delete q rows)) ≡ false
  unfolding mem delete
  mem-map-delete k [] h = h
  mem-map-delete k (r ∷ rows) h = ground (arith, mem-map-delete k rows)

  pub Distinct-delete :
      (rows : List R) → Distinct (map key rows) → Distinct (map key (delete q rows))
  unfolding delete
  Distinct-delete [] d = d
  Distinct-delete (r ∷ rows) d =
      ground (arith, mem-map-delete (key r) rows, Distinct-delete rows d.1)

  -- Under a primary key, the row of a key is deleted exactly if it passes.
  pub find-delete-keyed :
      (k : ℕ) (rows : List R)
      → Distinct (map key rows)
      → find (keyed key k) (delete q rows)
        ≡ elim (find (keyed key k) rows) [ none ↦ none | some r ↦ if q r then none else some r ]
  unfolding find delete
  find-delete-keyed k [] d = refl
  find-delete-keyed k (r ∷ rows) d =
      ground
        (arith, mem-map-key key (key r) rows, find-delete-keyed k rows d.1, find-none_delete k rows)
    where
      find-none_delete :
          (k : ℕ) (rows : List R)
          → find (keyed key k) rows ≡ none
          → find (keyed key k) (delete q rows) ≡ none
      find-none_delete k [] h = refl
      find-none_delete k (x ∷ rows) h = ground (arith, find-none_delete k rows)

-- Under a primary key, a test on the row of a key.
pub exists_keyed {ℓ} :
    {R : Type ℓ} (key : R → ℕ) (q : R → Bool) (k : ℕ) (rows : List R)
    → Distinct (map key rows)
    → exists (λ r. key r == k && q r) rows
      ≡ elim (find (keyed key k) rows) [ none ↦ false | some r ↦ q r ]
unfolding exists find
exists_keyed key q k [] d = refl
exists_keyed key q k (r ∷ rows) d =
    ground (arith, mem-map-key key (key r) rows, exists_keyed key q k rows d.1)

-- The rows that pass, each taken to a row with the same key.
pub find-where_-map {ℓ κ} :
    {R : Type ℓ} {S : Type κ} (key : R → ℕ) (key' : S → ℕ) (g : R → S) (q : S → Bool) (k : ℕ)
    (rows : List R)
    → ((r : R) → key' (g r) ≡ key r)
    → Distinct (map key rows)
    → find (keyed key' k) (where_ q (map g rows)) ≡ elim (find (keyed key k) rows) [
      | none ↦ none
      | some r ↦ if q (g r) then some (g r) else none
    ]
unfolding find where_
find-where_-map key key' g q k [] same d = refl
find-where_-map key key' g q k (r ∷ rows) same d =
    ground
      (arith, same r, mem-map-key key (key r) rows, find-where_-map key key' g q k rows same d.1)

mem-where_-map {ℓ κ} :
    {R : Type ℓ} {S : Type κ} (key : R → ℕ) (key' : S → ℕ) (g : R → S) (q : S → Bool) (k : ℕ)
    (rows : List R)
    → ((r : R) → key' (g r) ≡ key r)
    → mem k (map key rows) ≡ false
    → mem k (map key' (where_ q (map g rows))) ≡ false
unfolding mem where_
mem-where_-map key key' g q k [] same h = refl
mem-where_-map key key' g q k (r ∷ rows) same h =
    ground (arith, same r, mem-where_-map key key' g q k rows same)

pub Distinct-where_-map {ℓ κ} :
    {R : Type ℓ} {S : Type κ} (key : R → ℕ) (key' : S → ℕ) (g : R → S) (q : S → Bool)
    (rows : List R)
    → ((r : R) → key' (g r) ≡ key r)
    → Distinct (map key rows)
    → Distinct (map key' (where_ q (map g rows)))
unfolding where_
Distinct-where_-map key key' g q [] same d = tt
Distinct-where_-map key key' g q (r ∷ rows) same d = ground (
  arith,
  same r,
  mem-where_-map key key' g q (key r) rows same,
  Distinct-where_-map key key' g q rows same d.1,
)
