-- ===== src/Base.antt =====
-- The names that the components share: the libraries' and those of the children.
mod Tests
mod Lists
mod Words
mod Calls
mod Digits
mod Runs
mod Suffix
pub use Tests.*
pub use Lists.*
pub use Words.*
pub use Calls.*
pub use Digits.*
pub use Runs.*
pub use Suffix.*
pub use Prim.Native.Nat.{ℕ, zero, suc, ◌+◌, ◌-◌, ◌*◌, ◌/◌, ◌%◌, ◌^◌, ◌≤◌, ◌<◌, min}
pub use mathlib.Core.Path.{◌≡◌, refl, sym, ap, ap₂, ◌∙◌, subst}
pub use mathlib.Core.Logic.{◌≢◌, ◌↔◌, ◌⊎◌, inl, inr}
pub use mathlib.Core.Bool.{Bool, true, false, not, ◌&&◌, ◌||◌}
pub use mathlib.Core.Option.{Option, none, some}
pub use mathlib.Core.List.{List, [], ◌∷◌, ◌++◌, map}
pub use native.Mathlib.Omega.{arith}
