-- ===== src/Base.antt =====
-- The names that all modules share: the libraries', passed on, the Boolean tests, the queries on
-- tables and the clock.
mod Tests
mod Tables
mod Rows
mod Saves
pub mod Int
pub mod Ratio
mod Sorting
mod Chains
pub use Tests.*
pub use Tables.*
pub use Rows.*
pub use Saves.*
unfoldable pub use Sorting.*
pub use Chains.*
pub use Prim.Native.Nat.{ℕ, zero, suc, ◌+◌, ◌-◌, ◌*◌, ◌/◌, ◌%◌, ◌≤◌, ◌<◌, min, max}
pub use mathlib.Core.Path.{◌≡◌, refl, sym, ap, subst, ◌∙◌}
pub use mathlib.Core.Logic.{◌≢◌, ◌↔◌, ◌⊎◌, inl, inr}
pub use mathlib.Core.Bool.{Bool, true, false, ◌&&◌, ◌||◌, not}
pub use mathlib.Core.Option.{Option, none, some}
pub use mathlib.Core.List.{List, [], ◌∷◌, ◌++◌, map}
pub use native.Mathlib.Omega.{arith}
