-- ===== src/Route/Checksum.antt =====
-- The time to live of an IPv4 header is lowered with its checksum, as RFC 1624 does it.
pub mod Sums
pub mod Valid
use tinc_quic.Common.{ℕ, zero, suc, ◌+◌, ◌-◌, ◌*◌, ◌/◌, ◌%◌, ◌^◌, ◌≤◌, ◌<◌, bit_and, bit_or}
use tinc_quic.Common.{◌≡◌, refl, sym, ap, ◌∙◌, ◌≢◌, ◌↔◌, ◌⊎◌, inl, inr, arith, Bool, true}
use tinc_quic.Common.{false, ◌&&◌, ◌||◌, not, Option, none, some, List, [], ◌∷◌, ◌++◌, map, ltb}
use tinc_quic.Common.{leb, ◌==◌, if◌then◌else◌, ◌>>=◌, All, IsByte, length, u32, bytes_at}
use tinc_quic.Common.{get_or, get_or-lt, u8, set, get_or-set, length-set}
use tinc_quic.Route.{fold_carries, sum_words, Packet, at, ip_size, lower_ttl}

zero-or-positive : (n : ℕ) → (n ≡ 0) ⊎ (0 < n)
zero-or-positive zero = inl refl
zero-or-positive (suc n) = inr (omega arith)

-- The 32-bit sum does not wrap for a short block.
unfoldable pub plain_sum : List ℕ → ℕ
plain_sum [] = 0
plain_sum (x ∷ []) = x
plain_sum (x ∷ y ∷ vdata) = x + y * 2 ^ 8 + plain_sum vdata

pub sum_words-plain_sum :
    (vdata : List ℕ) (checksum : ℕ)
    → All IsByte vdata
    → checksum + length vdata * 2 ^ 16 < 2 ^ 32
    → sum_words vdata checksum ≡ checksum + plain_sum vdata
unfolding sum_words plain_sum
sum_words-plain_sum [] checksum bytes h = omega arith
sum_words-plain_sum (x ∷ []) checksum bytes h = omega (arith, bytes.0)
sum_words-plain_sum (x ∷ y ∷ vdata) checksum bytes h =
    let small : checksum + (x + y * 2 ^ 8) < 2 ^ 32 = omega (arith, h, bytes.0, bytes.1.0) in
    let plain : u32 (checksum + (x + y * 2 ^ 8)) ≡ checksum + (x + y * 2 ^ 8) =
      omega (arith, small) in
    rw (plain) (
      omega (
        arith,
        sum_words-plain_sum vdata (checksum + (x + y * 2 ^ 8)) (bytes.1.1)
            (omega (arith, h, bytes.0, bytes.1.0)),
      ))

-- The sum of the halves of a 32-bit number is folded once more if it is too large.
fold_carries_cases :
    (c : ℕ)
    → c < 2 ^ 32
    → (h : ℕ) × (l : ℕ) × (c ≡ h * 65536 + l)
      × (l < 65536)
      × (h < 65536)
      × (((fold_carries 2 c ≡ h + l) × (h + l < 65536))
          ⊎ ((fold_carries 2 c + 65535 ≡ h + l) × (65536 ≤ h + l)))
unfolding fold_carries
fold_carries_cases c bound =
    let halves : c ≡ c / 65536 * 65536 + c % 65536 = omega arith in
    let high : c / 65536 < 65536 = omega (arith, bound) in
    let low : c % 65536 < 65536 = omega arith in
    (c / 65536, c % 65536, halves, low, high, ground (arith, halves, high, low))

-- A 32-bit sum folds to a 16-bit one with the same remainder modulo 65535, which is 0 only for 0.
pub fold_carries-remainder :
    (c : ℕ)
    → c < 2 ^ 32
    → (fold_carries 2 c < 2 ^ 16)
      × (fold_carries 2 c % 65535 ≡ c % 65535)
      × ((fold_carries 2 c ≡ 0) ↔ (c ≡ 0))
fold_carries-remainder c bound =
    let (h, l, halves, low, high, cases) = fold_carries_cases c bound in
    elim cases [
      | inl (e, small) ↦ (
        omega (arith, e, small),
        omega (arith, e, halves),
        (λ z. omega (arith, e, halves, z), λ z. omega (arith, e, halves, z)),
      )
      | inr (e, large) ↦ (
        omega (arith, e, low, high),
        omega (arith, e, halves),
        (
          λ z. omega (arith, e, halves, low, high, large, z),
          λ z. omega (arith, e, halves, large, z),
        ),
      )
    ]

-- The checksum accepts a block of a 32-bit sum exactly if the sum is a multiple of 65535, not 0.
pub accepts :
    (c : ℕ)
    → c < 2 ^ 32
    → (2 ^ 16 - 1 - fold_carries 2 c % 2 ^ 16 ≡ 0) ↔ ((c % 65535 ≡ 0) × (0 < c))
accepts c bound =
    let (small, remainder, zeros) = fold_carries-remainder c bound in
    (
      λ z.
          let full : fold_carries 2 c ≡ 65535 = omega (arith, z, small) in
          (
            omega (arith, full, remainder),
            elim (zero-or-positive c) [
              | inl e ↦ absurd (omega (arith, full, zeros.1 e))
              | inr pos ↦ pos
            ],
          ),
      λ (m, positive). elim (zero-or-positive (fold_carries 2 c)) [
        | inl e ↦ absurd (omega (arith, positive, zeros.0 e))
        | inr pos ↦ omega (arith, small, remainder, m, pos)
      ],
    )

-- The checksum after the high byte of a word was lowered by one.
next_value :
    (high low old : ℕ)
    → high < 256
    → low < 256
    → 256 ≤ old
    → old < 2 ^ 16
    → (c : ℕ) × (c ≡ fold_carries 2 (high * 2 ^ 8 + low + (old + (2 ^ 16 - 1 - (old - 256)))))
      × (((c ≡ high * 256 + low + 256) × (high < 255)) ⊎ ((c ≡ low + 1) × (high ≡ 255)))
next_value high low old hh hl ho hs =
    let sum : high * 2 ^ 8 + low + (old + (2 ^ 16 - 1 - (old - 256))) ≡ high * 256 + low + 65791 =
      omega (arith, ho, hs) in
    let (h, l, halves, lo, hi, cases) =
      fold_carries_cases (high * 256 + low + 65791) (omega (arith, hh, hl)) in
    rw (sum) (
      fold_carries 2 (high * 256 + low + 65791),
      refl,
      elim cases [
        | inl (e, small) ↦ ground (arith, e, small, halves, lo, hh, hl)
        | inr (e, large) ↦ ground (arith, e, large, halves, lo, hh, hl)
      ],
    )

-- As a little-endian word it is one more, or 65534 less and not 0.
next_checksum :
    (high low c : ℕ)
    → high < 256
    → low < 256
    → ((c ≡ high * 256 + low + 256) × (high < 255)) ⊎ ((c ≡ low + 1) × (high ≡ 255))
    → (c / 2 ^ 8 < 256)
      × ((c / 2 ^ 8 + c % 2 ^ 8 * 2 ^ 8 ≡ high + low * 2 ^ 8 + 1)
          ⊎ ((c / 2 ^ 8 + c % 2 ^ 8 * 2 ^ 8 + 65534 ≡ high + low * 2 ^ 8) × (0 < c / 2 ^ 8)))
next_checksum high low c hh hl (inl (e, small)) =
    (omega (arith, e, small, hl), inl (omega (arith, e, small, hl)))
next_checksum high low c hh hl (inr (e, full)) = ground (arith, e, full, hl)

-- The header of an IPv4 packet with its options: the first byte gives its length in words of four.
abbrev pub header_length : ℕ → Packet → ℕ
header_length e p = at p e % 16 * 4

unfoldable pub header : ℕ → Packet → List ℕ
header e p = bytes_at p.contents e (header_length e p)

three_sets :
    (m : List ℕ) (a b d x y z j : ℕ)
    → a < length m
    → b < length m
    → d < length m
    → get_or (set (set (set m a x) b y) d z) j 0
      ≡ (if d == j then z else if b == j then y else if a == j then x else get_or m j 0)
three_sets m a b d x y z j ha hb hd = ground (
  arith,
  get_or-set (set (set m a x) b y) d j z 0,
  get_or-set (set m a x) b j y 0,
  get_or-set m a j x 0 ha,
  length-set m a x,
  length-set (set m a x) b y,
  hb,
  hd,
)

-- The bytes that lower_ttl leaves, with its checksum.
lower_ttl-at :
    (e : ℕ) (p : Packet) (c : ℕ)
    → e + 20 ≤ length p.contents
    → 0 < at p (e + 8)
    → c
      ≡ fold_carries 2 (
          at p (e + 10) * 2 ^ 8
          + at p (e + 11)
          + (at p (e + 8) * 2 ^ 8
              + at p (e + 9)
              + (2 ^ 16 - 1 - (at p (e + 8) * 2 ^ 8 + at p (e + 9) - 256))))
    → (i : ℕ)
    → at (lower_ttl e p) i ≡ (
        if e + 11 == i
        then c % 2 ^ 8
        else if e + 10 == i
        then u8 (c / 2 ^ 8)
        else if e + 8 == i
        then at p (e + 8) - 1
        else at p i)
unfolding lower_ttl
lower_ttl-at e p c room some_left value i =
    let m = p.contents in
    let x = at p (e + 8) - 1 in
    let inside : e + 8 < length m = omega (arith, room) in
    let e_9 : e + 8 + 1 ≡ e + 9 = omega arith in
    let e_11 : e + 10 + 1 ≡ e + 11 = omega arith in
    let at_8 : get_or (set m (e + 8) x) (e + 8) 0 ≡ x =
      ground (arith, get_or-set m (e + 8) (e + 8) x 0 inside) in
    let at_9 : get_or (set m (e + 8) x) (e + 9) 0 ≡ at p (e + 9) =
      ground (arith, get_or-set m (e + 8) (e + 9) x 0 inside) in
    let at_10 : get_or (set m (e + 8) x) (e + 10) 0 ≡ at p (e + 10) =
      ground (arith, get_or-set m (e + 8) (e + 10) x 0 inside) in
    let at_11 : get_or (set m (e + 8) x) (e + 11) 0 ≡ at p (e + 11) =
      ground (arith, get_or-set m (e + 8) (e + 11) x 0 inside) in
    let lowered : x * 2 ^ 8 + at p (e + 9) ≡ at p (e + 8) * 2 ^ 8 + at p (e + 9) - 256 =
      omega (arith, some_left) in
    rw (e_9, e_11, at_8, at_9, at_10, at_11, lowered, sym value)
      (three_sets m (e + 8) (e + 10) (e + 11) x (u8 (c / 2 ^ 8)) (c % 2 ^ 8) i inside
        (omega (arith, room)) (omega (arith, room)))

-- Lowering the time to live, byte by byte.
pub lower_ttl_bytes :
    (e : ℕ) (p : Packet)
    → All IsByte p.contents
    → e + 20 ≤ length p.contents
    → 0 < at p (e + 8)
    → (at (lower_ttl e p) (e + 8) + 1 ≡ at p (e + 8))
      × ((at (lower_ttl e p) (e + 10) + at (lower_ttl e p) (e + 11) * 2 ^ 8
            ≡ at p (e + 10) + at p (e + 11) * 2 ^ 8 + 1)
          ⊎ ((at (lower_ttl e p) (e + 10) + at (lower_ttl e p) (e + 11) * 2 ^ 8 + 65534
                ≡ at p (e + 10) + at p (e + 11) * 2 ^ 8)
              × (0 < at (lower_ttl e p) (e + 10))))
      × ((i : ℕ) → i ≢ e + 8 → i ≢ e + 10 → i ≢ e + 11 → at (lower_ttl e p) i ≡ at p i)
lower_ttl_bytes e p bytes room some_left =
    let high = at p (e + 10) in
    let low = at p (e + 11) in
    let old = at p (e + 8) * 2 ^ 8 + at p (e + 9) in
    let ok_8 = get_or-lt 256 p.contents (e + 8) (omega arith) bytes in
    let ok_9 = get_or-lt 256 p.contents (e + 9) (omega arith) bytes in
    let ok_10 = get_or-lt 256 p.contents (e + 10) (omega arith) bytes in
    let ok_11 = get_or-lt 256 p.contents (e + 11) (omega arith) bytes in
    let (c, value, cases) =
      next_value high low old ok_10 ok_11 (omega (arith, some_left)) (omega (arith, ok_8, ok_9)) in
    let (top, little) = next_checksum high low c ok_10 ok_11 cases in
    let here : (i : ℕ)
        → at (lower_ttl e p) i ≡ (
            if e + 11 == i
            then c % 2 ^ 8
            else if e + 10 == i
            then u8 (c / 2 ^ 8)
            else if e + 8 == i
            then at p (e + 8) - 1
            else at p i) =
      λ i. lower_ttl-at e p c room some_left (value) i in
    let high' : at (lower_ttl e p) (e + 10) ≡ c / 2 ^ 8 = ground (arith, here (e + 10), top) in
    let low' : at (lower_ttl e p) (e + 11) ≡ c % 2 ^ 8 = ground (arith, here (e + 11)) in
    (
      ground (arith, here (e + 8), some_left),
      rw (high', low') little,
      λ i no_8 no_10 no_11. ground (arith, here i, no_8, no_10, no_11),
    )
