-- ===== src/Prelude/Rows.antt =====
-- A table as a list of rows: `exists`, `count(*)`, `where`, a single-row select, and `update`.
pub mod Delete
pub mod Keys
use Prim.Native.Nat.{ℕ, zero, suc, ◌+◌, ◌≤◌}
use mathlib.Core.Path.{◌≡◌, refl, ap}
use mathlib.Core.Logic.{◌≢◌}
use mathlib.Core.Bool.{Bool, true, false, ◌&&◌, ◌||◌}
use mathlib.Core.Option.{Option, none, some}
use mathlib.Core.List.{List, [], ◌∷◌, map}
use native.Mathlib.Omega.{arith}
use learning_center_referenc.Prelude.Tests.{◌==◌, ==_iff, Bool-cases, if◌then◌else◌, is_some}
use learning_center_referenc.Prelude.Lists.{length, mem, Distinct}

module _ {ℓ} {R : Type ℓ} where
  -- select exists (select 1 from rows where p)
  unfoldable pub exists : (R → Bool) → List R → Bool
  exists p [] = false
  exists p (r ∷ rows) = p r || exists p rows

  -- select count(*) from rows where p
  unfoldable pub count : (R → Bool) → List R → ℕ
  count p [] = 0
  count p (r ∷ rows) = (if p r then 1 else 0) + count p rows

  -- select * from rows where p
  unfoldable pub where_ : (R → Bool) → List R → List R
  where_ p [] = []
  where_ p (r ∷ rows) = let rest = where_ p rows in if p r then r ∷ rest else rest

  -- The first row that passes; with a unique key in `p`, the only one.
  unfoldable pub find : (R → Bool) → List R → Option R
  find p [] = none
  find p (r ∷ rows) = if p r then some r else find p rows

  -- update rows set f where p
  unfoldable pub update : (R → Bool) → (R → R) → List R → List R
  update p f [] = []
  update p f (r ∷ rows) = (if p r then f r else r) ∷ update p f rows

  -- delete from rows where p
  unfoldable pub delete : (R → Bool) → List R → List R
  delete p [] = []
  delete p (r ∷ rows) = let rest = delete p rows in if p r then rest else r ∷ rest

  pub length-where_ : (p : R → Bool) (rows : List R) → length (where_ p rows) ≡ count p rows
  unfolding where_ count
  length-where_ p [] = refl
  length-where_ p (r ∷ rows) = ground (arith, length-where_ p rows)

  pub find_sound : (p : R → Bool) (rows : List R) (r : R) → find p rows ≡ some r → p r ≡ true
  unfolding find
  find_sound p [] r h = ground arith
  find_sound p (x ∷ rows) r h = ground (arith, find_sound p rows r)

  pub exists-find :
      (p : R → Bool) (rows : List R) (r : R) → find p rows ≡ some r → exists p rows ≡ true
  unfolding find exists
  exists-find p [] r h = ground arith
  exists-find p (x ∷ rows) r h = ground (arith, exists-find p rows r)

  pub exists_of_find-none :
      (p : R → Bool) (rows : List R) → find p rows ≡ none → exists p rows ≡ false
  unfolding find exists
  exists_of_find-none p [] h = refl
  exists_of_find-none p (x ∷ rows) h = ground (arith, exists_of_find-none p rows)

  pub count_of_not-exists :
      (p : R → Bool) (rows : List R) → exists p rows ≡ false → count p rows ≡ 0
  unfolding exists count
  count_of_not-exists p [] h = refl
  count_of_not-exists p (x ∷ rows) h = ground (arith, count_of_not-exists p rows)

-- Tables with a numeric key: laws of a lookup by key.
module _ {ℓ} {R : Type ℓ} (key : R → ℕ) where
  abbrev pub keyed : ℕ → R → Bool
  keyed k r = key r == k

  -- An update that keeps the key is seen at that key, and nowhere else.
  pub find-update :
      (k j : ℕ) (f : R → R) (rows : List R)
      → ((r : R) → key (f r) ≡ key r)
      → find (keyed j) (update (keyed k) f rows) ≡ (
          if k == j
          then elim (find (keyed j) rows) [ none ↦ none | some r ↦ some (f r) ]
          else find (keyed j) rows)
  unfolding find update
  find-update k j f [] keep = ground arith
  find-update k j f (r ∷ rows) keep = ground (arith, keep r, find-update k j f rows keep)

  pub find-cons_ne :
      (k : ℕ) (r : R) (rows : List R) → key r ≢ k → find (keyed k) (r ∷ rows) ≡ find (keyed k) rows
  unfolding find
  find-cons_ne k r rows n = ground arith

  -- A row found by its key is a row that passes any test it passes.
  pub exists_of_find :
      (k : ℕ) (q : R → Bool) (rows : List R) (r : R)
      → find (keyed k) rows ≡ some r
      → q r ≡ true
      → exists (λ x. key x == k && q x) rows ≡ true
  unfolding find exists
  exists_of_find k q [] r h t = ground arith
  exists_of_find k q (x ∷ rows) r h t = ground (arith, exists_of_find k q rows r)

module _ {ℓ} {R : Type ℓ} (p q : R → Bool) where
  -- A test that passes less often is passed by no row, where the other is passed by none.
  pub exists_mono :
      ((r : R) → q r ≡ true → p r ≡ true)
      → (rows : List R) → exists p rows ≡ false
      → exists q rows ≡ false
  unfolding exists
  exists_mono sub [] h = refl
  exists_mono sub (r ∷ rows) h = ground (arith, sub r, exists_mono sub rows)

-- A row that passes some test is found by its key.
pub find_by_key {ℓ} :
    {R : Type ℓ} (key : R → ℕ) (p : R → Bool) (rows : List R) (r : R)
    → find p rows ≡ some r
    → is_some (find (keyed key (key r)) rows) ≡ true
unfolding find
find_by_key key p [] r h = ground arith
find_by_key key p (x ∷ rows) r h = ground (arith, find_by_key key p rows r)

module _ {ℓ} {R : Type ℓ} (key : R → ℕ) where
  -- A key is in use exactly if a row is found by it.
  pub mem-map-key :
      (k : ℕ) (rows : List R) → mem k (map key rows) ≡ is_some (find (keyed key k) rows)
  unfolding mem find
  mem-map-key k [] = refl
  mem-map-key k (r ∷ rows) = ground (arith, mem-map-key k rows)

  pub map-key-update :
      (p : R → Bool) (f : R → R) (rows : List R)
      → ((r : R) → key (f r) ≡ key r)
      → map key (update p f rows) ≡ map key rows
  unfolding update
  map-key-update p f [] keep = refl
  map-key-update p f (r ∷ rows) keep = ground (arith, keep r, map-key-update p f rows keep)

  update_absent :
      (k : ℕ) (f : R → R) (rows : List R)
      → find (keyed key k) rows ≡ none
      → update (keyed key k) f rows ≡ rows
  unfolding find update
  update_absent k f [] h = refl
  update_absent k f (r ∷ rows) h = ground (arith, update_absent k f rows)

  -- Under a primary key, an update that gives the row back changes nothing.
  pub update_same :
      (k : ℕ) (f : R → R) (rows : List R) (r : R)
      → Distinct (map key rows)
      → find (keyed key k) rows ≡ some r
      → f r ≡ r
      → update (keyed key k) f rows ≡ rows
  unfolding find update
  update_same k f [] r d h e = refl
  update_same k f (x ∷ rows) r d h e =
      ground (arith, mem-map-key (key x) rows, update_absent k f rows, update_same k f rows r d.1)

module _ {ℓ} {R : Type ℓ} where
  pub exists_congr :
      (p q : R → Bool) (rows : List R) → ((r : R) → p r ≡ q r) → exists p rows ≡ exists q rows
  unfolding exists
  exists_congr p q [] same = refl
  exists_congr p q (r ∷ rows) same = ground (arith, same r, exists_congr p q rows same)

  pub exists-map-where_ {κ} :
      {S : Type κ} (h : R → S) (p : R → Bool) (q : S → Bool) (rows : List R)
      → exists q (map h (where_ p rows)) ≡ exists (λ r. p r && q (h r)) rows
  unfolding exists where_
  exists-map-where_ h p q [] = refl
  exists-map-where_ h p q (r ∷ rows) = ground (arith, exists-map-where_ h p q rows)

-- What a function reads from a row that was found.
abbrev pub pick {ℓ κ} : {A : Type ℓ} {B : Type κ} → (A → B) → Option A → Option B
pick f none = none
pick f (some a) = some (f a)

-- An update is not seen by a search and a reading that it does not change.
pub pick-find-update {ℓ κ} :
    {R : Type ℓ} {B : Type κ} (g : R → B) (p q : R → Bool) (f : R → R) (rows : List R)
    → ((r : R) → p (f r) ≡ p r)
    → ((r : R) → g (f r) ≡ g r)
    → pick g (find p (update q f rows)) ≡ pick g (find p rows)
unfolding find update
pick-find-update g p q f [] test same = refl
pick-find-update g p q f (r ∷ rows) test same =
    ground (arith, test r, same r, pick-find-update g p q f rows test same)
