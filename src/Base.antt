-- ===== src/Base.antt =====
-- The names that the other modules share: library names passed on, Boolean tests, tables and
-- 64-bit integers.
mod Tests
mod Equality
mod Tables
mod Membership
mod Sorting
mod Sorted
pub mod Int
pub use Tests.*
pub use Equality.*
unfoldable pub use Tables.*
pub use Membership.*
unfoldable pub use Sorting.*
unfoldable pub use Sorted.*
pub use Prim.Native.Nat.{ℕ, zero, suc, ◌+◌, ◌-◌, ◌*◌, ◌/◌, ◌%◌, ◌^◌, ◌≤◌, ◌<◌}
pub use Prim.Native.String.{String}
pub use mathlib.Core.Path.{◌≡◌, refl, sym, ap, ◌∙◌}
pub use mathlib.Core.Logic.{◌≢◌, ◌↔◌, ◌⊎◌, inl, inr}
pub use mathlib.Core.Bool.{Bool, true, false, not, ◌&&◌, ◌||◌}
pub use mathlib.Core.Option.{Option, none, some}
pub use mathlib.Core.List.{List, [], ◌∷◌, ◌++◌, map}
pub use native.Mathlib.Omega.{arith}
pub use text.Mathlib.TextEquality.{eq_iff}
pub use text.Mathlib.TextPositions.{eq_refl}
