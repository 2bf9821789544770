-- ===== src/Subnet/Mask.antt =====
-- The masks of src/subnet_parse.c on addresses of any length.
pub mod Laws
pub mod Check
use tinc_quic.Common.{ℕ, zero, suc, ◌+◌, ◌-◌, ◌*◌, ◌/◌, ◌%◌, ◌^◌, ◌≤◌, ◌<◌, bit_and, bit_or}
use tinc_quic.Common.{◌≡◌, refl, sym, ap, ◌∙◌, ◌≢◌, ◌↔◌, ◌⊎◌, inl, inr, arith, Bool, true}
use tinc_quic.Common.{false, ◌&&◌, ◌||◌, not, Option, none, some, List, [], ◌∷◌, ◌++◌, map, ltb}
use tinc_quic.Common.{leb, ◌==◌, if◌then◌else◌, ◌>>=◌, drop, replicate, take, length}
use tinc_quic.Common.Int.{ℤ, pos, sub_ℕ}

-- `0x100 - (1 << (8 - m))`
abbrev pub top_mask : ℕ → ℕ
top_mask m = 0x100 - 2 ^ (8 - m)

-- `a[i] - b[i]` on signed characters
abbrev pub char_difference : ℕ → ℕ → ℤ
char_difference x y = sub_ℕ ((x + 128) % 256) ((y + 128) % 256)

-- A mask that is longer than the addresses reads past their end in C.
unfoldable pub maskcmp : List ℕ → List ℕ → ℕ → ℤ
maskcmp [] b m = pos 0
maskcmp (x ∷ a) [] m = pos 0
maskcmp (x ∷ a) (y ∷ b) m =
    if leb 8 m
    then if x == y then maskcmp a b (m - 8) else char_difference x y
    else if m == 0
    then pos 0
    else sub_ℕ (bit_and x (top_mask m)) (bit_and y (top_mask m))

-- The bytes from the one on in which the mask ends; `r` bits of that one are kept.
unfoldable pub clear_from : ℕ → List ℕ → List ℕ
clear_from r [] = []
clear_from r (x ∷ xs) = (if r == 0 then 0 else bit_and x (top_mask r)) ∷ replicate (length xs) 0

unfoldable pub mask : List ℕ → ℕ → List ℕ
mask a masklen = take (masklen / 8) a ++ clear_from (masklen % 8) (drop (masklen / 8) a)

-- The copy of `b`, masked, as it is built byte by byte.
unfoldable pub maskcpy : List ℕ → ℕ → List ℕ
maskcpy [] m = []
maskcpy (x ∷ b) m = if leb 8 m then x ∷ maskcpy b (m - 8) else clear_from m (x ∷ b)

all_zero : List ℕ → Bool
all_zero [] = true
all_zero (x ∷ xs) = x == 0 && all_zero xs

check_from : ℕ → List ℕ → Bool
check_from r [] = true
check_from r (x ∷ xs) =
    if r == 0 then all_zero (x ∷ xs) else bit_and x (0xff / 2 ^ r) == 0 && all_zero xs

pub maskcheck : List ℕ → ℕ → Bool
maskcheck a masklen = check_from (masklen % 8) (drop (masklen / 8) a)
