-- ===== src/Prelude/Rows/Keys.antt =====
-- Rows with a primary key: each is found by its own key, also after a select.
use Prim.Native.Nat.{ℕ}
use mathlib.Core.Path.{◌≡◌, refl}
use mathlib.Core.Bool.{Bool, false}
use mathlib.Core.Option.{none, some}
use mathlib.Core.List.{List, [], ◌∷◌, map}
use native.Mathlib.Omega.{arith}
use learning_center_referenc.Prelude.Tests.{==_iff, ==_refl}
use learning_center_referenc.Prelude.Lists.{mem, Distinct, All}
use learning_center_referenc.Prelude.Rows.{where_, find, keyed, mem-map-key}

module _ {R : Type 0} (key : R → ℕ) where
  own_key_later :
      (r : R) (rows ys : List R)
      → mem (key r) (map key ys) ≡ false
      → All (λ x. find (keyed key (key x)) rows ≡ some x) ys
      → All (λ x. find (keyed key (key x)) (r ∷ rows) ≡ some x) ys
  unfolding find mem
  own_key_later r rows [] fresh h = tt
  own_key_later r rows (y ∷ ys) fresh h = (ground arith, own_key_later r rows ys (ground arith) h.1)

  -- Each row of a table is found by its primary key.
  pub found_by_key :
      (rows : List R)
      → Distinct (map key rows)
      → All (λ r. find (keyed key (key r)) rows ≡ some r) rows
  unfolding find
  found_by_key [] u = tt
  found_by_key (r ∷ rows) u =
      (ground (arith, ==_refl (key r)), own_key_later r rows rows u.0 (found_by_key rows u.1))

  -- A selected row is found by its key among all rows.
  pub mem-where_-key :
      (q : R → Bool) (k : ℕ) (rows : List R)
      → Distinct (map key rows)
      → mem k (map key (where_ q rows))
        ≡ elim (find (keyed key k) rows) [ none ↦ false | some r ↦ q r ]
  unfolding find mem where_
  mem-where_-key q k [] u = refl
  mem-where_-key q k (r ∷ rows) u =
      ground (arith, ==_iff (key r) k, mem-map-key key (key r) rows, mem-where_-key q k rows u.1)

  pub Distinct-where_ :
      (q : R → Bool) (rows : List R) → Distinct (map key rows) → Distinct (map key (where_ q rows))
  unfolding where_
  Distinct-where_ q [] u = tt
  Distinct-where_ q (r ∷ rows) u = ground (
    arith,
    mem-where_-key q (key r) rows u.1,
    mem-map-key key (key r) rows,
    Distinct-where_ q rows u.1,
  )
