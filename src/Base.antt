-- ===== src/Base.antt =====
-- What every part of the development shares: library names passed on, tests on numbers, lists
-- measured by native numbers, functions updated at one place, and words of 32 bits.
mod Tests
mod Lists
pub mod Checked
pub mod Pow
pub mod Words
pub use Tests.*
pub use Lists.*
pub use Words.{word, u32, sub32}
pub use Prim.Native.Nat.{ℕ, zero, suc, ◌+◌, ◌-◌, ◌*◌, ◌/◌, ◌%◌, ◌^◌, ◌≤◌, ◌<◌}
pub use mathlib.Core.Path.{◌≡◌, refl, sym, ap, ap₂, ◌∙◌}
pub use mathlib.Core.Logic.{◌≢◌, ◌↔◌, ◌⊎◌, inl, inr}
pub use mathlib.Core.Bool.{Bool, true, false, not, ◌&&◌, ◌||◌}
pub use mathlib.Core.Option.{Option, none, some}
pub use mathlib.Core.List.{List, [], ◌∷◌, ◌++◌, append-nil, append_assoc}
pub use native.Mathlib.Omega.{arith}
