-- ===== src/Prelude.antt =====
-- The names that all modules share: the libraries', passed on, and the Boolean tests, the lists and
-- the predicates on lists of three children.
mod Tests
mod Lists
mod Counting
mod Updates
mod Int
mod Permuted
mod Unique
pub use Tests.*
pub use Lists.*
pub use Int.*
pub use Updates.*
pub use Counting.*
pub use Permuted.*
pub use Unique.*
pub use Prim.Native.Nat.{ℕ, zero, suc, ◌+◌, ◌-◌, ◌*◌, ◌/◌, ◌%◌, ◌^◌, ◌≤◌, ◌<◌}
pub use mathlib.Core.Path.{◌≡◌, refl, sym, ap, ap₂, ◌∙◌, subst}
pub use mathlib.Core.Logic.{◌≢◌, ◌↔◌, ◌⊎◌, inl, inr}
pub use mathlib.Core.Bool.{Bool, true, false, ◌&&◌, ◌||◌, not}
pub use mathlib.Core.Option.{Option, none, some}
pub use mathlib.Core.List.{List, [], ◌∷◌, ◌++◌, map}
pub use native.Mathlib.Omega.{arith}
