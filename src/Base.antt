-- ===== src/Base.antt =====
-- Names shared by every module: the libraries', passed on, the tests on numbers, equality of keys,
-- JavaScript's `Map` and `Set` as lists in insertion order, and text.
mod Tests
mod Lists
mod Keys
pub mod Table
pub mod Group
pub use Tests.*
pub use Lists.*
pub use Keys.*
unfoldable pub use Keys.{text_beq}
pub use Prim.Native.Nat.{ℕ, zero, suc, ◌+◌, ◌-◌, ◌*◌, ◌/◌, ◌%◌, ◌≤◌, ◌<◌, min}
pub use mathlib.Core.Path.{◌≡◌, refl, sym, ap, subst, ◌∙◌}
pub use mathlib.Core.Logic.{◌≢◌, ◌↔◌, ◌⊎◌, inl, inr}
pub use mathlib.Core.Bool.{Bool, true, false, ◌&&◌, ◌||◌, not}
pub use mathlib.Core.Option.{Option, none, some}
pub use mathlib.Core.List.{List, [], ◌∷◌, ◌++◌, map}
pub use native.Mathlib.Omega.{arith}
