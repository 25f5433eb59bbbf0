-- ===== src/Prelude.antt =====
-- Names that the modules share: the libraries', passed on, and those of the children.
mod Tests
mod Lists
mod Strings
mod Assoc
mod Keys
mod Int
pub use Tests.*
pub use Lists.*
pub use Strings.*
unfoldable pub use Strings.{
  same, is_space, trim_space, ascii_lower, fields, split, split2, join, has_prefix, has_suffix,
  contains_byte,
}
unfoldable pub use Assoc.{lookup, insert, delete}
pub use Assoc.{lookup-insert, lookup-delete, map_laws, HasKey}
pub use Keys.*
pub use Int.*
unfoldable pub use Int.{atoi, itoa, itoa_from}
pub use Prim.Native.Nat.{ℕ, zero, suc, ◌+◌, ◌-◌, ◌*◌, ◌/◌, ◌%◌, ◌^◌, ◌≤◌, ◌<◌}
pub use mathlib.Core.Path.{◌≡◌, refl, sym, ap, subst, ◌∙◌}
pub use mathlib.Core.Logic.{◌≢◌, ◌↔◌, ◌⊎◌, inl, inr}
pub use mathlib.Core.Bool.{Bool, true, false, not, ◌&&◌, ◌||◌}
pub use mathlib.Core.Option.{Option, none, some}
pub use mathlib.Core.List.{List, [], ◌∷◌, ◌++◌, map}
pub use native.Mathlib.Omega.{arith}
