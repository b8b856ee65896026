-- ===== src/Base.antt =====
-- The names that the other modules share: the libraries', passed on, and those of the modules below:
-- Boolean tests, lists, Go's int64 and string types, and functions that return a value or an error.
mod Tests
mod Lists
mod Sorting
mod Int
mod Text
mod Words
mod Splits
mod Fallible
mod Statuses
mod Outcomes
mod Panics
mod Disciplines
mod FilePaths
pub use Tests.*
unfoldable pub use Lists.*
pub use Sorting.*
unfoldable pub use Int.*
unfoldable pub use Text.*
unfoldable pub use Words.*
pub use Splits.*
pub use Outcomes.*
pub use Panics.*
pub use Disciplines.*
unfoldable pub use FilePaths.*
pub use Statuses.*
unfoldable pub use Fallible.*
pub use Prim.Native.Nat.{ℕ, zero, suc, ◌+◌, ◌-◌, ◌*◌, ◌/◌, ◌%◌, ◌^◌, ◌≤◌, ◌<◌}
pub use Prim.Native.String.{String}
pub use mathlib.Core.Path.{◌≡◌, refl, sym, ap, ap₂, ◌∙◌, subst, fun_ext}
pub use mathlib.Core.Logic.{◌≢◌, ◌↔◌, ◌⊎◌, inl, inr}
pub use mathlib.Core.Bool.{Bool, true, false, not, ◌&&◌, ◌||◌, false≢true}
pub use mathlib.Core.Option.{Option, none, some}
pub use mathlib.Core.List.{List, [], ◌∷◌, ◌++◌, map, append-nil, append_assoc}
pub use native.Mathlib.Omega.{arith}
