-- ===== src/Prelude.antt =====
-- Names that the other modules share: those of the libraries, passed on, and those of the
-- children: Boolean tests, lists indexed by native numbers, signed integers, byte strings, Go maps
-- and the results of Go calls.
mod Tests
mod Lists
pub mod Int
pub mod Bytes
pub mod Maps
pub mod IntMaps
pub mod Keys
pub mod Calls
pub mod Words
pub use Tests.*
pub use Lists.*
pub use Prim.Native.Nat.{ℕ, zero, suc, ◌+◌, ◌-◌, ◌*◌, ◌/◌, ◌%◌, ◌^◌, ◌≤◌, ◌<◌}
pub use mathlib.Core.Path.{◌≡◌, refl, sym, ap, ◌∙◌}
pub use mathlib.Core.Logic.{◌≢◌, ◌↔◌, ◌⊎◌, inl, inr}
pub use mathlib.Core.Bool.{Bool, true, false, not, ◌&&◌, ◌||◌}
pub use mathlib.Core.Option.{Option, none, some}
pub use mathlib.Core.List.{List, [], ◌∷◌, ◌++◌, map}
pub use native.Mathlib.Omega.{arith}
