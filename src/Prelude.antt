-- ===== src/Prelude.antt =====
-- The names that the other modules share: the libraries', passed on, and those of the children.
-- `Rows` reads and writes a table as a list of rows, the way the store's SQL does.
mod Tests
mod Lists
mod Rows
mod Sorting
mod Texts
mod Words
mod Order
pub use Tests.*
unfoldable pub use Lists.*
unfoldable pub use Rows.*
pub use Rows.Delete.{
  where_-delete, exists-delete, count-delete, find-delete, find-delete_within, exists-delete_within,
  where_-delete_within, Distinct-delete, find-delete-keyed, exists_keyed, find-where_-map,
  Distinct-where_-map,
}
pub use Rows.Keys.{found_by_key, mem-where_-key, Distinct-where_}
unfoldable pub use Sorting.*
unfoldable pub use Texts.*
unfoldable pub use Words.*
pub use Order.{Ascending, Ascending-map, Ascending-sort_by, str_leb_total}
pub use Prim.Native.Nat.{ℕ, zero, suc, ◌+◌, ◌-◌, ◌*◌, ◌/◌, ◌%◌, ◌^◌, ◌≤◌, ◌<◌}
pub use Prim.Native.String.{String}
pub use mathlib.Core.Path.{◌≡◌, refl, sym, ap, ◌∙◌, fun_ext}
pub use mathlib.Core.Logic.{◌≢◌, ◌↔◌, ◌⊎◌, inl, inr}
pub use mathlib.Core.Bool.{Bool, true, false, not, ◌&&◌, ◌||◌}
pub use mathlib.Core.Option.{Option, none, some}
pub use mathlib.Core.List.{List, [], ◌∷◌, ◌++◌, map}
pub use native.Mathlib.Omega.{arith}
pub use text.Mathlib.Text.{◌==◌ as str_eq}
pub use text.Mathlib.TextEquality.{eq_iff}
pub use text.Mathlib.TextPositions.{eq_refl}

-- The lengths of what is built from a list.
pub ruleset sizes = (arith, length-map, length-where_, length-sort_by)

-- Equality of texts, as the test and as the path.
pub ruleset texts = (arith, text_eq_iff)
