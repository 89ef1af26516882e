-- ===== src/Base.antt =====
-- What the other modules share: the names of the libraries, passed on, tests and the conditional,
-- C arrays and memory as functions of an index or an address, signed integers, counted loops and
-- the laws of single bits.
pub mod Tests
pub mod Arrays
pub mod Int
pub mod Loops
pub mod Bits
pub mod Words
pub mod Lists
pub use Tests.*
pub use Arrays.*
unfoldable pub use Int.*
unfoldable pub use Loops.*
pub use Prim.Native.Nat.{ℕ, zero, suc, ◌+◌, ◌-◌, ◌*◌, ◌/◌, ◌%◌, ◌^◌, ◌≤◌, ◌<◌}
pub use Prim.Native.Nat.{bit_and, bit_or, bit_xor}
pub use mathlib.Core.Path.{◌≡◌, refl, sym, ap, ◌∙◌, fun_ext}
pub use mathlib.Core.Logic.{◌≢◌, ◌↔◌, ◌⊎◌, inl, inr}
pub use mathlib.Core.Bool.{Bool, true, false, not, ◌&&◌, ◌||◌}
pub use mathlib.Core.Option.{Option, none, some}
pub use mathlib.Core.List.{List, [], ◌∷◌, ◌++◌, map}
pub use native.Mathlib.Omega.{arith}
