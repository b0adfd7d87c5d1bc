-- ===== src/Common.antt =====
-- The names that the other modules share: the libraries' names passed on, Boolean tests, lists
-- measured by native numbers, and the state and exception monad in which the methods of the
-- aggregates are written.
mod Tests
mod Lists
pub mod Effect
pub mod Pure
pub mod Rows
pub mod Text
pub mod Money
pub use Tests.*
pub use Lists.*
pub use Effect.*
pub use Prim.Native.Nat.{ℕ, zero, suc, ◌+◌, ◌-◌, ◌*◌, ◌/◌, ◌%◌, ◌^◌, ◌≤◌, ◌<◌}
pub use Prim.Native.String.{String}
pub use mathlib.Core.Path.{◌≡◌, refl, sym, ap, ◌∙◌, subst}
pub use mathlib.Core.Logic.{◌≢◌, ◌↔◌, ◌⊎◌, inl, inr}
pub use mathlib.Core.Bool.{Bool, true, false, ◌&&◌, ◌||◌, not}
pub use mathlib.Core.Option.{Option, none, some}
pub use mathlib.Core.List.{List, [], ◌∷◌, ◌++◌, map}
pub use native.Mathlib.Omega.{arith}
