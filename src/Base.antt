-- ===== src/Base.antt =====
-- Names shared by all components: the libraries' names passed on, tests on numbers, arrays as lists,
-- and facts about masks.
mod Tests
mod Lists
mod Bits
mod Errno
mod Seq
mod Shifts
pub use Tests.*
pub use Lists.*
pub use Bits.*
pub use Errno.*
pub use Seq.*
pub use Shifts.*
pub use Prim.Native.Nat.{
  ℕ, zero, suc, ◌+◌, ◌-◌, ◌*◌, ◌/◌, ◌%◌, ◌^◌, ◌≤◌, ◌<◌, min, max, bit_and, bit_or,
}
pub use mathlib.Core.Path.{◌≡◌, refl, sym, ap, ◌∙◌}
pub use mathlib.Core.Logic.{◌≢◌, ◌↔◌, ◌⊎◌, inl, inr}
pub use mathlib.Core.Bool.{Bool, true, false, ◌&&◌, ◌||◌, not}
pub use mathlib.Core.Option.{Option, none, some}
pub use mathlib.Core.List.{List, [], ◌∷◌, ◌++◌, map}
pub use native.Mathlib.Omega.{arith}
