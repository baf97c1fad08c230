-- ===== src/Base.antt =====
-- Names that the other modules share: those of the libraries, passed on, and of the modules below.
mod Tests
mod Lists
mod Sets
mod Monad
mod Text
mod Maps
mod Units
pub use Tests.*
pub use Sets.*
pub use Monad.*
unfoldable pub use Lists.{
  find?, filter, sort_by, any, all, update_first, upsert, remove_first, includes, unique_from,
  unique,
}
pub use Lists.{
  length, All, find?-passes, upsert_miss, upsert_hit, update_first_miss, update_first_congr,
  find?-upsert_same, find?-upsert_other, find?-update_first, All-filter, All-passes,
  length-filter-le, length-append,
}
pub use Prim.Native.Nat.{ℕ, zero, suc, ◌+◌, ◌-◌, ◌*◌, ◌/◌, ◌%◌, ◌^◌, ◌≤◌, ◌<◌, min, max}
pub use Prim.Native.String.{String}
pub use mathlib.Core.Path.{◌≡◌, refl, sym, ap, ◌∙◌}
pub use mathlib.Core.Logic.{◌≢◌, ◌↔◌, ◌⊎◌, inl, inr}
pub use mathlib.Core.Bool.{Bool, true, false, not, ◌&&◌, ◌||◌}
pub use mathlib.Core.Option.{Option, none, some}
pub use mathlib.Core.List.{List, [], ◌∷◌, ◌++◌, map}
pub use native.Mathlib.Omega.{arith}
pub use text.Mathlib.Text.{◌==◌ as str_eq}
pub use text.Mathlib.TextEquality.{eq_iff}
pub use text.Mathlib.TextPositions.{eq_refl}
unfoldable pub use Text.{
  is_space, trim_start, trim_end, trim, is_digit, is_lower, is_upper, all_chars, headed, split_on,
  lacks,
}
pub use Text.{split_on-append, split_on-lacks}
unfoldable pub use Maps.{map_get, map_set, map_delete}
pub use Maps.{
  Entries, map_has, get-set_same, get-set_other, get-delete_same, get-delete_other, length-set,
  length-delete-le,
}
unfoldable pub use Units.{units, utf16_length, byte_length, sorts_before, sort}
pub use Units.{includes-sort, sort-IsDistinct, length-sort, IsSorted, sort-IsSorted}
