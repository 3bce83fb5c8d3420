-- ===== src/Base.antt =====
-- Names shared by the whole development: the libraries', passed on, and those of three children
-- (Boolean tests, lists measured by native numbers, keys and dictionaries).
mod Tests
mod Lists
mod Keys
mod Dicts
pub mod Distinct
pub mod Unique
pub mod Sorted
pub use Tests.*
unfoldable pub use Lists.*
pub use Keys.*
unfoldable pub use Dicts.*
pub use Prim.Native.Nat.{ℕ, zero, suc, ◌+◌, ◌-◌, ◌*◌, ◌/◌, ◌%◌, ◌^◌, ◌≤◌, ◌<◌, min, max}
pub use Prim.Native.String.{String}
pub use mathlib.Core.Path.{◌≡◌, refl, sym, ap, subst, ◌∙◌}
pub use mathlib.Core.Logic.{◌≢◌, ◌↔◌, ◌⊎◌, inl, inr}
pub use mathlib.Core.Bool.{Bool, true, false, not, ◌&&◌, ◌||◌}
pub use mathlib.Core.Option.{Option, none, some}
pub use mathlib.Core.List.{List, [], ◌∷◌, ◌++◌, map}
pub use native.Mathlib.Omega.{arith}
