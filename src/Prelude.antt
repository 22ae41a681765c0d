-- ===== src/Prelude.antt =====
-- The names that the modules of the development share: the libraries', passed on, and those of
-- the children (tests, lists, keyed tables).
mod Tests
mod Lists
mod Keyed
pub mod Int
pub mod Apart
pub mod Free
pub mod Decimal
pub mod Text
pub use Tests.*
pub use Lists.*
pub use Keyed.*
pub use Prim.Native.Nat.{ℕ, zero, suc, ◌+◌, ◌-◌, ◌*◌, ◌/◌, ◌%◌, ◌^◌, ◌≤◌, ◌<◌, min}
pub use Prim.Native.String.{String}
pub use mathlib.Core.Path.{◌≡◌, refl, sym, ap, ◌∙◌, fun_ext}
pub use mathlib.Core.Logic.{◌≢◌, ◌↔◌, ◌⊎◌, inl, inr}
pub use mathlib.Core.Bool.{Bool, true, false, ◌&&◌, ◌||◌, not}
pub use mathlib.Core.Option.{Option, none, some}
pub use mathlib.Core.List.{List, [], ◌∷◌, ◌++◌, map}
pub use native.Mathlib.Omega.{arith}
