-- ===== src/Prelude.antt =====
-- Names and lemmas that the components share: the libraries' names passed on, the Boolean tests,
-- lists measured by native numbers, integers, bytes and memory.
mod Boolean
mod Lists
pub mod Int
pub mod Memory
pub mod Blocks
pub mod Word
pub mod Ascii
pub mod Text
pub mod Dict
pub mod Search
pub mod Order
pub use Boolean.*
pub use Lists.*
pub use Prim.Native.Nat.{ℕ, zero, suc, ◌+◌, ◌-◌, ◌*◌, ◌/◌, ◌%◌, ◌^◌, ◌≤◌, ◌<◌}
pub use mathlib.Core.Path.{◌≡◌, refl, sym, ap, ◌∙◌}
pub use mathlib.Core.Logic.{◌≢◌, ◌↔◌, ◌⊎◌, inl, inr}
pub use mathlib.Core.Bool.{Bool, true, false, ◌&&◌, ◌||◌, not}
pub use mathlib.Core.Option.{Option, none, some}
pub use mathlib.Core.List.{List, [], ◌∷◌, ◌++◌, map, append_assoc, append-nil}
pub use native.Mathlib.Omega.{arith}
