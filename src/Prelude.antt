-- ===== src/Prelude.antt =====
-- The names that the components share: the libraries', passed on, and those of the children.
pub mod Tests
pub mod Map
pub mod Lists
pub mod Strings
pub mod Result
pub mod Options
pub mod Splice
pub use Tests.*
pub use Lists.*
pub use Strings.*
unfoldable pub use Strings.{safe_nat, Text-discrete}
pub use Map.{Key, get, insert, delete, has, IsUnique}
pub use Map.{
  get-insert, get-insert_self, get-insert_ne, get-insert-some, get-delete_ne, get-delete_self,
  delete-IsUnique, insert-IsUnique,
}
pub use Prim.Native.Nat.{ℕ, zero, suc, ◌+◌, ◌-◌, ◌*◌, ◌/◌, ◌%◌, ◌^◌, ◌≤◌, ◌<◌, min, max}
pub use mathlib.Core.Path.{◌≡◌, refl, sym, ap, ◌∙◌, subst}
pub use mathlib.Core.Logic.{◌≢◌, ◌↔◌, ◌⊎◌, inl, inr, ite, dite, if_pos, if_neg}
pub use mathlib.Core.Bool.{Bool, true, false, not, ◌&&◌, ◌||◌}
pub use mathlib.Core.Option.{Option, none, some}
pub use mathlib.Core.List.{List, [], ◌∷◌, ◌++◌, map}
pub use native.Mathlib.Omega.{arith}
unfoldable pub use native.Mathlib.Decide.{dec_lt, dec_le, ℕ_discrete}
