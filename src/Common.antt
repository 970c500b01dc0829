-- ===== src/Common.antt =====
-- The names that the other modules share: the libraries', passed on, and those of the children.
mod Tests
mod Lists
mod Texts
mod Numbers
mod Sorting
mod Splitting
pub use Tests.*
pub use Lists.*
pub use Numbers.*
pub use Splitting.*
pub use Sorting.{
  not_after, sort_by-perm, sort_by-All, any-sort_by, sort_by-keep, IsUnlike, sort_by-IsUnlike,
  sort_by-IsSorted, IsPreorder, IsSorted,
}
unfoldable pub use Sorting.{sort_by}
pub use Texts.{Text, codes, text_eq_refl, text_eq_iff, includes}
unfoldable pub use Texts.{
  text_eq, starts_with, has_part, ends_with, is_space, split, join, index_of, trim_start, trim,
  digits_from, decimal,
}
pub use Prim.Native.Nat.{
  ℕ, zero, suc, ◌+◌, ◌-◌, ◌*◌, ◌/◌, ◌%◌, ◌^◌, ◌≤◌, ◌<◌, compare, Ordering, max, min,
}
pub use Prim.Native.String.{String}
pub use mathlib.Core.Path.{◌≡◌, refl, sym, ap, ap₂, ◌∙◌}
pub use mathlib.Core.Logic.{◌≢◌, ◌↔◌, ◌⊎◌, inl, inr}
pub use mathlib.Core.Bool.{Bool, true, false, not, ◌&&◌, ◌||◌}
pub use mathlib.Core.Option.{Option, none, some}
pub use mathlib.Core.List.{List, [], ◌∷◌, ◌++◌, map, reverse, append-nil, append_assoc}
pub use native.Mathlib.Omega.{arith}
pub use text.Mathlib.Text.{◌==◌ as str_eq}
pub use text.Mathlib.TextEquality.{eq_iff}
