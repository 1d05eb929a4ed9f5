-- ===== src/Prelude.antt =====
-- The names that the other modules share: the libraries', passed on, and those of the children.
mod Tests
mod Lists
mod Int
mod Arrays
mod Grouping
mod Members
mod Sorting
mod Comparing
mod Results
pub use Tests.*
pub use Lists.*
pub use Arrays.*
pub use Members.*
pub use Sorting.*
pub use Comparing.{
  IsSorted, Member-of_sort_with, Member-sort_with, sort_with-IsSorted, Apart, sort_with-Apart,
}
unfoldable pub use Comparing.{sort_with}
pub use Grouping.{
  lookup, group_of, lookup-group_by, map_values, lookup-map_values, insert_descending,
  sort_by_descending, Grouped, group_by-Grouped,
}
unfoldable pub use Grouping.{group_by}
unfoldable pub use Int.*
pub use Results.*
pub use Prim.Native.Nat.{ℕ, zero, suc, ◌+◌, ◌-◌, ◌*◌, ◌/◌, ◌%◌, ◌^◌, ◌≤◌, ◌<◌}
pub use mathlib.Core.Path.{◌≡◌, refl, sym, ap, ap₂, subst, ◌∙◌}
pub use mathlib.Core.Logic.{◌≢◌, ◌↔◌, ◌⊎◌, inl, inr}
pub use mathlib.Core.Bool.{Bool, true, false, not, ◌&&◌, ◌||◌}
pub use mathlib.Core.Option.{Option, none, some}
pub use mathlib.Core.List.{List, [], ◌∷◌, ◌++◌, map, append_assoc, append-nil}
pub use native.Mathlib.Omega.{arith}
unfoldable pub use epr_backend.Prelude.Lists.{sort_by}
