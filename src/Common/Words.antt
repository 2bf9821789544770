-- ===== src/Common/Words.antt =====
-- Machine words as native numbers: a conversion keeps the low bits.
use Prim.Native.Nat.{ℕ, ◌%◌, ◌^◌, ◌<◌}

abbrev pub u8 : ℕ → ℕ
u8 x = x % 2 ^ 8

abbrev pub u16 : ℕ → ℕ
u16 x = x % 2 ^ 16

abbrev pub u32 : ℕ → ℕ
u32 x = x % 2 ^ 32

-- `size_t` and `uint64_t`
abbrev pub u64 : ℕ → ℕ
u64 x = x % 2 ^ 64

abbrev pub IsByte : ℕ → Type 0
IsByte b = b < 2 ^ 8
