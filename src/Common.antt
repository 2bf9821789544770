-- ===== src/Common.antt =====
-- The vocabulary that all components share: the library's names, passed on, Boolean tests on the
-- native numbers, lists measured and indexed by native numbers, and the laws of `|` on C words.
pub mod Tests
pub mod Lists
pub mod Bits
pub mod Words
pub mod Text
pub mod Bytes
pub mod Int
pub mod Options
pub use Tests.*
pub use Lists.*
pub use Bits.{bit_or-above, bit_xor-lt, bit_or-shift, bit_or-add, table_sound}
unfoldable pub use Bits.{table}
pub use Words.*
pub use Text.{codes}
unfoldable pub use Bytes.{bytes_eq}
pub use Bytes.{bytes_eq_iff, bytes_eq_self, bytes_eq_sound}
pub use Options.*
pub use Prim.Native.Nat.{ℕ, zero, suc, ◌+◌, ◌-◌, ◌*◌, ◌/◌, ◌%◌, ◌^◌, ◌≤◌, ◌<◌}
pub use Prim.Native.Nat.{bit_and, bit_or, bit_xor}
pub use mathlib.Core.Path.{◌≡◌, refl, sym, ap, ◌∙◌}
pub use mathlib.Core.Logic.{◌≢◌, ◌↔◌, ◌⊎◌, inl, inr}
pub use mathlib.Core.Bool.{Bool, true, false, ◌&&◌, ◌||◌, not}
pub use mathlib.Core.Option.{Option, none, some}
pub use mathlib.Core.List.{List, [], ◌∷◌, ◌++◌, map}
pub use native.Mathlib.Omega.{arith}
