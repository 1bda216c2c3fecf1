-- ===== src/Shared.antt =====
-- The names that the other modules share: the libraries' names passed on, the tests and
-- conditionals, lists and text, results and look-up tables.
mod Tests
mod Lists
mod Strings
mod Trim
mod Blanks
mod Results
mod Tables
mod Values
mod Int
mod Members
mod Distinctness
pub use Tests.*
unfoldable pub use Lists.*
unfoldable pub use Strings.*
unfoldable pub use Trim.*
unfoldable pub use Blanks.*
unfoldable pub use Results.*
unfoldable pub use Tables.*
unfoldable pub use Values.*
unfoldable pub use Int.*
unfoldable pub use Members.*
unfoldable pub use Distinctness.*
pub use Prim.Native.Nat.{ℕ, zero, suc, ◌+◌, ◌-◌, ◌*◌, ◌%◌, ◌/◌, ◌^◌, ◌≤◌, ◌<◌, min}
pub use Prim.Native.String.{String}
pub use mathlib.Core.Path.{◌≡◌, refl, sym, ap, ap₂, ◌∙◌, subst}
pub use mathlib.Core.Logic.{◌≢◌, ◌↔◌, ◌⊎◌, inl, inr}
pub use mathlib.Core.Bool.{Bool, true, false, not, ◌&&◌, ◌||◌}
pub use mathlib.Core.Option.{Option, none, some}
pub use mathlib.Core.List.{List, [], ◌∷◌, ◌++◌, map}
pub use native.Mathlib.Omega.{arith}
