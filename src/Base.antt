-- ===== src/Base.antt =====
-- Shared vocabulary: library names passed on, Boolean tests, equality of keys, and the outcome of
-- fallible code. The children hold Go's maps, int64 values and lists.
mod Tests
mod Effects
pub mod Map
pub mod Int
pub mod Order
pub mod Lists
pub mod Sorted
pub mod Positions
pub mod Extent
pub use Tests.*
pub use Effects.*
pub use Prim.Native.Nat.{ℕ, zero, suc, ◌+◌, ◌-◌, ◌*◌, ◌/◌, ◌%◌, ◌^◌, ◌≤◌, ◌<◌}
pub use Prim.Native.String.{String}
pub use mathlib.Core.Path.{◌≡◌, refl, sym, ap, subst, ◌∙◌}
pub use mathlib.Core.Logic.{◌≢◌, ◌↔◌, ◌⊎◌, inl, inr}
pub use mathlib.Core.Bool.{Bool, true, false, not, ◌&&◌, ◌||◌}
pub use mathlib.Core.Option.{Option, none, some}
pub use mathlib.Core.List.{List, [], ◌∷◌, ◌++◌, map}
pub use native.Mathlib.Omega.{arith}
pub use text.Mathlib.TextEquality.{eq_iff}
