-- ===== src/Base.antt =====
-- Names that every module shares: the libraries' passed on, Boolean tests, the conditional, lists
-- over native numbers, C strings, runs that may meet undefined behaviour, and signed integers.
mod Tests
mod Lists
mod Runs
mod Text
pub mod Int
pub use Tests.*
pub use Lists.*
pub use Runs.*
unfoldable pub use Text.*
pub use Prim.Native.Nat.{ℕ, zero, suc, ◌+◌, ◌-◌, ◌*◌, ◌/◌, ◌%◌, ◌^◌, ◌≤◌, ◌<◌}
pub use mathlib.Core.Path.{◌≡◌, refl, sym, ap, ◌∙◌}
pub use mathlib.Core.Logic.{◌≢◌, ◌↔◌, ◌⊎◌, inl, inr}
pub use mathlib.Core.Bool.{Bool, true, false, not, ◌&&◌, ◌||◌}
pub use mathlib.Core.Option.{Option, none, some}
pub use mathlib.Core.List.{List, [], ◌∷◌, ◌++◌, map}
pub use native.Mathlib.Omega.{arith}
