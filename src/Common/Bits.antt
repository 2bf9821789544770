-- ===== src/Common/Bits.antt =====
-- The bitwise `|` and `&` of C on unsigned words, as arithmetic. The native operations recur on
-- binary digits with fuel; here the fuel goes, and `|` of disjoint fields becomes a sum.
use Prim.Native.Nat.{ℕ, zero, suc, ◌+◌, ◌*◌, ◌/◌, ◌%◌, ◌^◌, ◌≤◌, ◌<◌, max, bit_or, digits}
use Prim.Native.Nat.{bit_or-bitwise, bit_xor-bitwise, bit_xor, differ}
use mathlib.Core.Bool.{Bool, true, ◌&&◌}
use mathlib.Core.Logic.{◌⊎◌, inl, inr}
use mathlib.Core.Path.{◌≡◌, refl, ap}
use native.Mathlib.Nat.{pow-suc, div-add-mod}
use native.Mathlib.Omega.{arith}

-- More digits to go than the first number has change nothing.
more_digits :
    (z : ℕ → ℕ) (f : ℕ → ℕ → ℕ) (x y m n : ℕ) → x ≤ m → x ≤ n → digits z f m x y ≡ digits z f n x y
more_digits z f zero y zero zero hm hn = refl
more_digits z f zero y zero (suc n) hm hn = refl
more_digits z f zero y (suc m) zero hm hn = refl
more_digits z f zero y (suc m) (suc n) hm hn = refl
more_digits z f (suc x) y zero n hm hn = absurd (omega arith)
more_digits z f (suc x) y (suc m) zero hm hn = absurd (omega arith)
more_digits z f (suc x) y (suc m) (suc n) hm hn =
    let half = more_digits z f (suc x / 2) (y / 2) m n in
    omega (arith, half (omega arith) (omega arith))

zero-bit_or : (b : ℕ) → bit_or 0 b ≡ b
zero-bit_or b = bit_or-bitwise 0 b

-- The lowest digit of `a | b`.
bit_or_step : (a b : ℕ) → bit_or a b ≡ bit_or (a / 2) (b / 2) * 2 + max (a % 2) (b % 2)
bit_or_step zero b = omega (arith, zero-bit_or b, zero-bit_or (b / 2))
bit_or_step (suc a) b = omega (
  arith,
  bit_or-bitwise (suc a) b,
  bit_or-bitwise (suc a / 2) (b / 2),
  more_digits (λ y. y) max (suc a / 2) (b / 2) a (suc a / 2) (omega arith) (omega arith),
)

differ-digit : (x y : ℕ) → x < 2 → y < 2 → differ x y < 2
differ-digit zero y hx hy = hy
differ-digit (suc x) zero hx hy = hx
differ-digit (suc x) (suc y) hx hy = differ-digit x y (omega arith) (omega arith)

zero-bit_xor : (b : ℕ) → bit_xor 0 b ≡ b
zero-bit_xor b = bit_xor-bitwise 0 b

-- Exclusive or does not need more bits than its arguments.
pub bit_xor-lt : (k a b : ℕ) → a < 2 ^ k → b < 2 ^ k → bit_xor a b < 2 ^ k
bit_xor-lt zero a b ha hb = ground (arith, zero-bit_xor 0)
bit_xor-lt (suc k) zero b ha hb = omega (arith, zero-bit_xor b)
bit_xor-lt (suc k) (suc a) b ha hb = omega (
  arith,
  bit_xor-bitwise (suc a) b,
  bit_xor-bitwise (suc a / 2) (b / 2),
  more_digits (λ y. y) differ (suc a / 2) (b / 2) a (suc a / 2) (omega arith) (omega arith),
  pow-suc 2 k,
  differ-digit (suc a % 2) (b % 2) (omega arith) (omega arith),
  bit_xor-lt k (suc a / 2) (b / 2) (omega (arith, pow-suc 2 k)) (omega (arith, pow-suc 2 k)),
)

bit_or-zero_fuel : (n a : ℕ) → a ≤ n → bit_or a 0 ≡ a
bit_or-zero_fuel n zero h = refl
bit_or-zero_fuel zero (suc a) h = absurd (omega arith)
bit_or-zero_fuel (suc n) (suc a) h =
    omega (arith, bit_or_step (suc a) 0, bit_or-zero_fuel n (suc a / 2) (omega arith))

bit_or-zero : (a : ℕ) → bit_or a 0 ≡ a
bit_or-zero a = bit_or-zero_fuel a a (omega arith)

zero-or-pos : (n : ℕ) → (n ≡ 0) ⊎ (0 < n)
zero-or-pos zero = inl refl
zero-or-pos (suc n) = inr (omega arith)

bit_or_comm_fuel : (n a b : ℕ) → a + b ≤ n → bit_or a b ≡ bit_or b a
bit_or_comm_fuel zero a b h =
    let x : a ≡ 0 = omega (arith, h) in let y : b ≡ 0 = omega (arith, h) in rw (x, y)
bit_or_comm_fuel (suc n) a b h = elim (zero-or-pos (a + b)) [
  | inl z ↦ bit_or_comm_fuel n a b (omega (arith, z))
  | inr p ↦ omega (
    arith,
    bit_or_step a b,
    bit_or_step b a,
    bit_or_comm_fuel n (a / 2) (b / 2) (omega (arith, h, p)),
  )
]

pub bit_or_comm : (a b : ℕ) → bit_or a b ≡ bit_or b a
bit_or_comm a b = bit_or_comm_fuel (a + b) a b (omega arith)

-- `(hi << k) | lo` is a sum when `lo` fits in `k` bits.
pub bit_or-shift : (k hi lo : ℕ) → lo < 2 ^ k → bit_or (hi * 2 ^ k) lo ≡ hi * 2 ^ k + lo
bit_or-shift zero hi lo h = ground (arith, bit_or-zero hi)
bit_or-shift (suc k) hi lo h = ground (
  arith,
  bit_or_step (hi * 2 ^ suc k) lo,
  ap (λ (t : ℕ). hi * t) (pow-suc 2 k),
  bit_or-shift k hi (lo / 2) (omega arith),
)

-- A field put above the bits that are there.
pub bit_or-above : (k t v : ℕ) → t < 2 ^ k → bit_or t (v * 2 ^ k) ≡ t + v * 2 ^ k
bit_or-above k t v low = omega (arith, bit_or_comm t (v * 2 ^ k), bit_or-shift k v t low)

-- The same where the low bits of `a` are written as zeros.
pub bit_or-add : (k a b : ℕ) → a % 2 ^ k ≡ 0 → b < 2 ^ k → bit_or a b ≡ a + b
bit_or-add k a b low fits =
    let e : a ≡ a / 2 ^ k * 2 ^ k = omega (arith, div-add-mod a (2 ^ k)) in
    rw e (bit_or-shift k (a / 2 ^ k) b fits)

-- A test that is passed by every value below a bound, decided by evaluation.
unfoldable pub table : (ℕ → Bool) → ℕ → Bool
table test zero = true
table test (suc bound) = table test bound && test bound

pub table_sound :
    (test : ℕ → Bool) (bound : ℕ) → table test bound ≡ true → (v : ℕ) → v < bound → test v ≡ true
unfolding table
table_sound test zero passed v below = absurd (omega arith)
table_sound test (suc bound) passed v below =
    ground (arith, table_sound test bound (ground arith) v)
