-- ===== src/Utils/Hex/RoundTrip.antt =====
-- hex2bin reads back what bin2hex wrote.

use tinc_quic.Common.{ℕ, zero, suc, ◌+◌, ◌*◌, ◌/◌, ◌%◌, ◌<◌, ◌≡◌, refl, ap, ◌∙◌, arith, Bool}
use tinc_quic.Common.{true, ◌&&◌, List, ◌∷◌, ◌==◌, IsByte, get_or, table, All, table_sound}
use tinc_quic.Common.{bytes_at, length, u8, &&-true, get_or-lt, ==_iff, set, get_or-set}
use tinc_quic.Utils.Hex.{hex2bin, hex2bin_from, bin2hex, charhex2bin, hexadecimals, isxdigit}
use tinc_quic.Utils.Hex.{bin2hex_below}
use tinc_quic.Utils.Hex.Digits.{hex_digit, Apart, length-bin2hex_below, get_or-bin2hex_below}

-- Reading the digits of one byte, by evaluation over all bytes.
reads_back : ℕ → Bool
reads_back b =
    let high = get_or hexadecimals (b / 16) 0 in
    let low = get_or hexadecimals (b % 16) 0 in
    isxdigit high && (isxdigit low && u8 (charhex2bin high * 16 + charhex2bin low) == b)

all_read_back : table reads_back 0x100 ≡ true
unfolding table reads_back charhex2bin isxdigit
all_read_back = refl

read_byte : (b : ℕ) → IsByte b → reads_back b ≡ true
read_byte b h = table_sound reads_back 0x100 all_read_back b (omega (arith, h))

even_digit : (i b : ℕ) → hex_digit (i * 2) b ≡ get_or hexadecimals (b / 16) 0
unfolding hex_digit
even_digit i b = ground arith

odd_digit : (i b : ℕ) → hex_digit (i * 2 + 1) b ≡ get_or hexadecimals (b % 16) 0
unfolding hex_digit
odd_digit i b = ground arith

read_parts :
    (b : ℕ)
    → IsByte b
    → (isxdigit (get_or hexadecimals (b / 16) 0) ≡ true)
      × (isxdigit (get_or hexadecimals (b % 16) 0) ≡ true)
      × (u8 (
            charhex2bin (get_or hexadecimals (b / 16) 0) * 16
            + charhex2bin (get_or hexadecimals (b % 16) 0))
          ≡ b)
unfolding reads_back
read_parts b byte =
    let high = get_or hexadecimals (b / 16) 0 in
    let low = get_or hexadecimals (b % 16) 0 in
    let value = u8 (charhex2bin high * 16 + charhex2bin low) in
    let (first, rest) = &&-true (isxdigit high) (isxdigit low && value == b) (read_byte b byte) in
    let (second, third) = &&-true (isxdigit low) (value == b) rest in
    (first, second, (==_iff value b).0 third)

digits_round :
    (memory : List ℕ) (dst i n high low : ℕ)
    → get_or memory (dst + i * 2) 0 ≡ high
    → get_or memory (dst + (i * 2 + 1)) 0 ≡ low
    → isxdigit high ≡ true
    → isxdigit low ≡ true
    → hex2bin_from memory dst i (suc n)
      ≡ u8 (charhex2bin high * 16 + charhex2bin low) ∷ hex2bin_from memory dst (i + 1) n
unfolding hex2bin_from
digits_round memory dst i n high low at_high at_low h l = rw (at_high, at_low, h, l)

hex2bin_round :
    (memory : List ℕ) (dst i n b : ℕ)
    → IsByte b
    → get_or memory (dst + i * 2) 0 ≡ get_or hexadecimals (b / 16) 0
    → get_or memory (dst + (i * 2 + 1)) 0 ≡ get_or hexadecimals (b % 16) 0
    → hex2bin_from memory dst i (suc n) ≡ b ∷ hex2bin_from memory dst (i + 1) n
hex2bin_round memory dst i n b byte high low =
    let (h, l, value) = read_parts b byte in
    digits_round memory dst i n (get_or hexadecimals (b / 16) 0) (get_or hexadecimals (b % 16) 0)
      high low h l
    ∙ ap (λ x. x ∷ hex2bin_from memory dst (i + 1) n) value

hex2bin_from-digits :
    (memory text : List ℕ) (src dst i n : ℕ)
    → ((k : ℕ)
        → k < (i + n) * 2
        → get_or text (dst + k) 0 ≡ hex_digit k (get_or memory (src + k / 2) 0))
    → All IsByte memory
    → hex2bin_from text dst i n ≡ bytes_at memory (src + i) n
unfolding hex2bin_from
hex2bin_from-digits memory text src dst i zero digits bytes = refl
hex2bin_from-digits memory text src dst i (suc n) digits bytes =
    let b = get_or memory (src + i) 0 in
    let even : i * 2 / 2 ≡ i = omega arith in
    let odd : (i * 2 + 1) / 2 ≡ i = omega arith in
    let high = digits (i * 2) (omega arith) in
    let low = digits (i * 2 + 1) (omega arith) in
    let next : src + (i + 1) ≡ src + i + 1 = omega arith in
    let rest : hex2bin_from text dst (i + 1) n ≡ bytes_at memory (src + (i + 1)) n =
      hex2bin_from-digits memory text src dst (i + 1) n (λ k h. digits k (omega arith)) bytes in
    hex2bin_round text dst i n b (get_or-lt 0x100 memory (src + i) (omega arith) bytes)
      (high ∙ even_digit i (get_or memory (src + i * 2 / 2) 0) ∙ rw (even))
      (low ∙ odd_digit i (get_or memory (src + (i * 2 + 1) / 2) 0) ∙ rw (odd))
    ∙ rw (rest, next)

-- bin2hex, in place or into a block that does not overlap the source, reports two characters for
-- each byte and ends the text with a zero, and hex2bin reads the text back to the bytes that
-- stood at `src`.
pub hex2bin-bin2hex :
    (memory : List ℕ) (src dst n : ℕ)
    → dst + n * 2 < length memory
    → Apart src dst n
    → All IsByte memory
    → (hex2bin ((bin2hex memory src dst n).0) dst n ≡ bytes_at memory src n)
      × ((bin2hex memory src dst n).1 ≡ n * 2)
      × (get_or ((bin2hex memory src dst n).0) (dst + n * 2) 0 ≡ 0)
unfolding hex2bin bin2hex
hex2bin-bin2hex memory src dst n room apart bytes =
    let text = bin2hex_below memory src dst n in
    let size : length text ≡ length memory = length-bin2hex_below memory src dst n in
    let here : src + 0 ≡ src = omega arith in
    let digits : (k : ℕ)
        → k < (0 + n) * 2
        → get_or (set text (dst + n * 2) 0) (dst + k) 0
          ≡ hex_digit k (get_or memory (src + k / 2) 0) =
      λ k h. ground (
        arith,
        get_or-set text (dst + n * 2) (dst + k) 0 0,
        get_or-bin2hex_below memory src dst n k (omega arith) apart,
        size,
      ) in
    (
      hex2bin_from-digits memory (set text (dst + n * 2) 0) src dst 0 n digits bytes
          ∙ ap (λ p. bytes_at memory p n) here,
      refl,
      ground (arith, get_or-set text (dst + n * 2) (dst + n * 2) 0 0, size),
    )
