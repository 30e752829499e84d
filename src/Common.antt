-- ===== src/Common.antt =====
-- The names that the other modules share: the libraries', passed on, and those of the children.
mod Tests
mod Equality
mod Lists
mod Strings
mod Sorting
mod SortedSets
pub mod Comparison
mod Decimal
pub mod Json
mod Encoding
mod Results
mod Uri
mod Paths
pub mod Numbers
mod RelativePaths
pub mod Dictionary
pub use Tests.*
pub use Equality.*
unfoldable pub use Lists.*
unfoldable pub use Strings.*
unfoldable pub use Sorting.*
unfoldable pub use Encoding.*
unfoldable pub use Decimal.*
unfoldable pub use SortedSets.*
unfoldable pub use Uri.*
unfoldable pub use Paths.*
unfoldable pub use RelativePaths.*
pub use Results.*
pub use Prim.Native.Nat.{ℕ, zero, suc, ◌+◌, ◌-◌, ◌*◌, ◌/◌, ◌%◌, ◌≤◌, ◌<◌, min, max}
pub use mathlib.Core.Path.{◌≡◌, refl, sym, ap, ◌∙◌, subst}
pub use mathlib.Core.Logic.{◌≢◌, ◌↔◌, ◌⊎◌, inl, inr}
pub use mathlib.Core.Bool.{Bool, true, false, not, ◌&&◌, ◌||◌}
pub use mathlib.Core.Option.{Option, none, some}
pub use mathlib.Core.List.{List, [], ◌∷◌, ◌++◌, map}
pub use native.Mathlib.Omega.{arith}
