-- ===== src/Base.antt =====
-- The names that every module shares: the library's, passed on, and those of the children.
mod Tests
mod Lists
mod Mapping
mod Actions
mod Sorting
mod Int
mod Texts
mod Decimal
pub use Prim.Native.Nat.{ℕ, zero, suc, ◌+◌, ◌-◌, ◌*◌, ◌/◌, ◌%◌, ◌^◌, ◌≤◌, ◌<◌, min, max}
pub use Prim.Native.String.{String}
pub use mathlib.Core.Path.{◌≡◌, refl, sym, ap, ◌∙◌, subst}
pub use mathlib.Core.Logic.{◌≢◌, ◌↔◌, ◌⊎◌, inl, inr}
pub use mathlib.Core.Bool.{Bool, true, false, not, ◌&&◌, ◌||◌}
pub use mathlib.Core.Option.{Option, none, some}
pub use mathlib.Core.List.{List, [], ◌∷◌, ◌++◌, map, Perm, append-nil, append_assoc}
pub use native.Mathlib.Omega.{arith}
pub use text.Mathlib.Text.{◌==◌ as str_eq, starts_with}
pub use text.Mathlib.TextEquality.{eq_iff}
pub use text.Mathlib.TextPositions.{eq_refl}
pub use Tests.*
pub use Lists.*
pub use Mapping.{Dict, keys, values}
unfoldable pub use Mapping.{lookup, insert, update}
pub use Decimal.{number-digits, digits_text}
unfoldable pub use Decimal.{digits, number}
pub use Texts.{str_le_total, str_le_trans, str_le_antisymm, str_le}
pub use Actions.{
  Outcome, returned, raised, Exec, and_then, ◌>>◌, Keeps, Keeps-pure, Keeps-raise, Keeps-gets,
  Keeps-if, Keeps-modify, Keeps-bind, Keeps-for_each, keeps_rules, Gives, Gives-bind, Gives-if,
}
unfoldable pub use Actions.{pure, raise, gets, modify, ◌>>=◌, for_each}
pub use Sorting.{
  IsSortedBy, IsPreorder, sort_by-perm, sort_by-IsSortedBy, IsSortedBy-unique, sort_by_of_perm,
}
unfoldable pub use Sorting.{sort_by, insert_by}
pub use Int.{+ℤ_comm, +ℤ_assoc, ℤ, pos, negsuc, leb_ℤ, sub_ℕ, pos_part, neg_part}
unfoldable pub use Int.{◌+ℤ◌}
