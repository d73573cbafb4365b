-- ===== src/Prelude.antt =====
-- Names, tests and list lemmas that the components share: the libraries' names passed on, and
-- those of the children.
mod Tests
mod Lists
mod Modify
mod Words
mod Sort
mod SortBy
mod Nodup
mod Stable
mod Rotate
mod Int
pub use Int.{ℤ, pos, negsuc, negate, plus, times, within, same_int, same_int-eq, same_int_self}
pub use Tests.*
pub use Lists.{length, get_elem?, All, keep, length-append, length-map, All-append, All-if}
unfoldable pub use Lists.{modify, find, position, any, all, filter, count, sum_by, take, take_while}
pub use Modify.*
unfoldable pub use Sort.{sort, dedup, sum32, sum}
pub use Sort.{
  IsAscending, Occurs, sum32-eq, sort-IsAscending, sort-Occurs, dedup-IsAscending, dedup-Occurs,
}
unfoldable pub use SortBy.{insert_by, sort_by, contains}
pub use SortBy.{
  sum_by-sort_by, length-sort_by, IsNodup, contains-sort_by, sort_by-IsNodup, sum_by-take,
  sum_by-const, sum_by-map,
}
unfoldable pub use Words.{add32, sub32}
pub use Words.{u32_mod, saturating_add, add32-eq, sub32-eq}
pub use Nodup.{
  map-filter-IsNodup, map-sort_by-IsNodup, map-take_while-IsNodup, contains-map-sort_by,
  contains-map-take_while,
}
pub use Stable.{sort_by-All, IsSorted, sort_by-IsSorted, filter-sort_by, take_while-filter}
pub use Rotate.{drop, drop-get, rotate, take-all, length-drop, length-rotate, count-rotate}
pub use Prim.Native.Nat.{
  ℕ, zero, suc, ◌+◌, ◌-◌, ◌*◌, ◌/◌, ◌%◌, ◌≤◌, ◌<◌, min, max, compare, Ordering,
}
pub use mathlib.Core.Path.{◌≡◌, refl, sym, ap, subst, ◌∙◌}
pub use mathlib.Core.Logic.{◌≢◌, ◌↔◌, ◌⊎◌, inl, inr}
pub use mathlib.Core.Bool.{Bool, true, false, not, ◌&&◌, ◌||◌}
pub use mathlib.Core.Option.{Option, none, some}
pub use mathlib.Core.List.{List, [], ◌∷◌, ◌++◌, map}
pub use native.Mathlib.Omega.{arith}
