-- ===== src/Common/Int.antt =====
-- The integers of C's comparison functions: only their signs and differences are used.
use Prim.Native.Nat.{ℕ, zero, suc, ◌+◌, ◌-◌, ◌<◌, ◌%◌, ◌^◌}
use mathlib.Core.Bool.{Bool, true, false}
use mathlib.Core.List.{List, [], ◌∷◌}
use mathlib.Core.Path.{◌≡◌, refl}
use native.Mathlib.Omega.{arith}
use tinc_quic.Common.Tests.{ltb, leb, if◌then◌else◌, lt→ltb}

-- `negsuc n` is -(n + 1).
pub data ℤ : Type 0 where
  pos : ℕ → ℤ
  negsuc : ℕ → ℤ

-- a - b, as an integer.
abbrev pub sub_ℕ : ℕ → ℕ → ℤ
sub_ℕ a b = if leb b a then pos (a - b) else negsuc (b - a - 1)

abbrev pub pos_part : ℤ → ℕ
pos_part (pos n) = n
pos_part (negsuc n) = 0

abbrev pub neg_part : ℤ → ℕ
neg_part (pos n) = 0
neg_part (negsuc n) = suc n

infixl 65 ◌-ℤ◌
unfoldable pub ◌-ℤ◌ : ℤ → ℤ → ℤ
a -ℤ b = sub_ℕ (pos_part a + neg_part b) (neg_part a + pos_part b)

-- The `int` of 32 bits that an integer is cut to.
unfoldable pub to_int : ℤ → ℤ
to_int (pos n) =
    let low = n % 2 ^ 32 in if ltb low (2 ^ 31) then pos low else negsuc (2 ^ 32 - 1 - low)
to_int (negsuc n) =
    let low = n % 2 ^ 32 in if ltb low (2 ^ 31) then negsuc low else pos (2 ^ 32 - 1 - low)

-- The difference of two `int`s, which wraps where it overflows.
unfoldable pub int_difference : ℤ → ℤ → ℤ
int_difference a b = to_int (a -ℤ b)

-- An `int` holds it.
abbrev pub FitsInt : ℤ → Type 0
FitsInt (pos n) = n < 2 ^ 31
FitsInt (negsuc n) = n < 2 ^ 31

pub to_int-FitsInt : (c : ℤ) → FitsInt c → to_int c ≡ c
unfolding to_int
to_int-FitsInt (pos n) h =
    let small : n % 2 ^ 32 ≡ n = omega (arith, h) in rw (small, lt→ltb n (2 ^ 31) h) refl
to_int-FitsInt (negsuc n) h =
    let small : n % 2 ^ 32 ≡ n = omega (arith, h) in rw (small, lt→ltb n (2 ^ 31) h) refl

-- if(result) of C
abbrev pub is_zero : ℤ → Bool
is_zero (pos zero) = true
is_zero (pos (suc n)) = false
is_zero (negsuc n) = false

abbrev pub is_negative : ℤ → Bool
is_negative (pos n) = false
is_negative (negsuc n) = true

-- `memcmp` on blocks of one size, and `strcmp` on strings: the sign at the first difference.
unfoldable pub bytes_compare : List ℕ → List ℕ → ℤ
bytes_compare [] [] = pos 0
bytes_compare [] (y ∷ ys) = negsuc 0
bytes_compare (x ∷ xs) [] = pos 1
bytes_compare (x ∷ xs) (y ∷ ys) =
    if ltb x y then negsuc 0 else if ltb y x then pos 1 else bytes_compare xs ys
