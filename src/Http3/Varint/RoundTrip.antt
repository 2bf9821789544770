-- ===== src/Http3/Varint/RoundTrip.antt =====
-- What the variable-length integers of src/http3_frames.c promise: their size, and the round trip.
use tinc_quic.Common.{ℕ, ◌+◌, ◌*◌, ◌/◌, ◌%◌, ◌^◌, ◌≤◌, ◌<◌, ◌≡◌, refl, arith, bit_or, none}
use tinc_quic.Common.{some, List, [], ◌∷◌, ◌++◌, ltb, if◌then◌else◌, length, table, table_sound}
use tinc_quic.Common.{◌==◌, ==_iff, true, get_or-lt, bit_or-add, All, IsByte, u8}
use tinc_quic.Http3.Varint.{http3_encode_varint, http3_decode_varint, two_bytes, four_bytes}
use tinc_quic.Http3.Varint.{eight_bytes, byte}

-- The number of bytes that a value takes.
abbrev pub varint_size : ℕ → ℕ
varint_size v = if ltb v 64 then 1 else if ltb v 16384 then 2 else if ltb v 1073741824 then 4 else 8

-- The form that a value takes.
abbrev pub varint_bytes : ℕ → List ℕ
varint_bytes v =
    if ltb v 64
    then u8 v ∷ []
    else if ltb v 16384
    then two_bytes v
    else if ltb v 1073741824
    then four_bytes v
    else eight_bytes v

-- The tag of a first byte, read as a sum.
tag_40 : (x : ℕ) → x < 64 → bit_or 0x40 x ≡ 64 + x
tag_40 x h = bit_or-add 6 0x40 x refl h

tag_80 : (x : ℕ) → x < 64 → bit_or 0x80 x ≡ 128 + x
tag_80 x h = bit_or-add 6 0x80 x refl h

decode-one : (v : ℕ) (rest : List ℕ) → v < 64 → http3_decode_varint (u8 v ∷ rest) ≡ some (v, 1)
unfolding http3_decode_varint
decode-one v rest h = ground arith

decode-two :
    (v : ℕ) (rest : List ℕ) → v < 16384 → http3_decode_varint (two_bytes v ++ rest) ≡ some (v, 2)
unfolding http3_decode_varint
decode-two v rest h =
    ground (arith, tag_40 (u8 (v / 2 ^ 8)), bit_or-add 8 (v / 2 ^ 8 * 2 ^ 8) (u8 v))

-- Bytes joined by `|` after their shifts are the number that they spell.
four_bytes_sum :
    (x a b c : ℕ)
    → a < 256
    → b < 256
    → c < 256
    → bit_or (bit_or (bit_or (x * 2 ^ 24) (a * 2 ^ 16)) (b * 2 ^ 8)) c
      ≡ x * 2 ^ 24 + a * 2 ^ 16 + b * 2 ^ 8 + c
four_bytes_sum x a b c ha hb hc =
    rw
      (
        bit_or-add 24 (x * 2 ^ 24) (a * 2 ^ 16) (omega arith) (omega arith),
        bit_or-add 16 (x * 2 ^ 24 + a * 2 ^ 16) (b * 2 ^ 8) (omega arith) (omega arith),
      )
      (bit_or-add 8 (x * 2 ^ 24 + a * 2 ^ 16 + b * 2 ^ 8) c (omega arith) hc)

decode-four :
    (v : ℕ) (rest : List ℕ)
    → v < 1073741824
    → http3_decode_varint (four_bytes v ++ rest) ≡ some (v, 4)
unfolding http3_decode_varint
decode-four v rest h = ground (
  arith,
  tag_80 (u8 (v / 2 ^ 24)),
  four_bytes_sum (v / 2 ^ 24) (u8 (v / 2 ^ 16)) (u8 (v / 2 ^ 8)) (u8 v),
)

high_bytes_sum :
    (x a b c d : ℕ)
    → a < 256
    → b < 256
    → c < 256
    → d < 256
    → bit_or
        (bit_or (bit_or (bit_or (x * 2 ^ 56) (a * 2 ^ 48)) (b * 2 ^ 40)) (c * 2 ^ 32))
        (d * 2 ^ 24)
      ≡ (x * 2 ^ 32 + a * 2 ^ 24 + b * 2 ^ 16 + c * 2 ^ 8 + d) * 2 ^ 24
high_bytes_sum x a b c d ha hb hc hd =
    rw
      (
        bit_or-add 56 (x * 2 ^ 56) (a * 2 ^ 48) (omega arith) (omega arith),
        bit_or-add 48 (x * 2 ^ 56 + a * 2 ^ 48) (b * 2 ^ 40) (omega arith) (omega arith),
        bit_or-add 40 (x * 2 ^ 56 + a * 2 ^ 48 + b * 2 ^ 40) (c * 2 ^ 32) (omega arith)
            (omega arith),
        bit_or-add 32 (x * 2 ^ 56 + a * 2 ^ 48 + b * 2 ^ 40 + c * 2 ^ 32) (d * 2 ^ 24) (omega arith)
            (omega arith),
      )
      (omega arith)

tag_C0_table : table (λ t. bit_or 0xC0 t == 192 + t % 64) 256 ≡ true
unfolding table
tag_C0_table = refl

-- The first byte keeps only the six low bits of what the top byte of the value holds.
tag_C0 : (t : ℕ) → t < 256 → (bit_or 0xC0 t ≡ 192 + t % 64)
tag_C0 t h = (==_iff _ _).0 (table_sound _ 256 tag_C0_table t h)

decode-eight :
    (v : ℕ) (rest : List ℕ) → http3_decode_varint (eight_bytes v ++ rest) ≡ some (v % 2 ^ 62, 8)
unfolding http3_decode_varint
decode-eight v rest = ground (
  arith,
  tag_C0 (u8 (v / 2 ^ 56)),
  high_bytes_sum (u8 (v / 2 ^ 56) % 64) (u8 (v / 2 ^ 48)) (u8 (v / 2 ^ 40)) (u8 (v / 2 ^ 32))
      (u8 (v / 2 ^ 24)),
  four_bytes_sum
      (u8 (v / 2 ^ 56) % 64 * 2 ^ 32
        + u8 (v / 2 ^ 48) * 2 ^ 24
        + u8 (v / 2 ^ 40) * 2 ^ 16
        + u8 (v / 2 ^ 32) * 2 ^ 8
        + u8 (v / 2 ^ 24))
      (u8 (v / 2 ^ 16)) (u8 (v / 2 ^ 8)) (u8 v),
)

-- `http3_encode_varint` answers exactly when its buffer holds the size of the value, and then
-- writes that many bytes.
pub encode_varint_size :
    (v size : ℕ)
    → (varint_size v ≤ size
        → (bs : List ℕ) × (http3_encode_varint v size ≡ some bs) × (length bs ≡ varint_size v))
      × (size < varint_size v → http3_encode_varint v size ≡ none)
unfolding http3_encode_varint
encode_varint_size v size = (λ h. (varint_bytes v, ground arith, ground arith), λ h. ground arith)

-- What is written is one of the four forms.
encode_varint_form :
    (v size : ℕ) (bs : List ℕ) → http3_encode_varint v size ≡ some bs → bs ≡ varint_bytes v
unfolding http3_encode_varint
encode_varint_form v size bs h = ground arith

pub encode_varint_bounds :
    (v size : ℕ) (bs : List ℕ)
    → http3_encode_varint v size ≡ some bs
    → (length bs ≡ varint_size v) × (length bs ≤ size) × (1 ≤ length bs) × (length bs ≤ 8)
unfolding http3_encode_varint
encode_varint_bounds v size bs h = ground arith

-- What `http3_encode_varint` wrote, whatever follows it, decodes to the low 62 bits of the value,
-- and all of it is consumed.
pub decode_varint-encode_varint :
    (v size : ℕ) (bs rest : List ℕ)
    → v < 2 ^ 64
    → http3_encode_varint v size ≡ some bs
    → http3_decode_varint (bs ++ rest) ≡ some (v % 2 ^ 62, length bs)
decode_varint-encode_varint v size bs rest fits h =
    rw (encode_varint_form v size bs h) (
      ground (arith, decode-one v rest, decode-two v rest, decode-four v rest, decode-eight v rest))

-- A successful decoding consumes 1, 2, 4 or 8 bytes, all of them in the buffer, and its value is
-- below 2 ^ 62.
pub decode_varint_bounds :
    (buffer : List ℕ) (v n : ℕ)
    → All IsByte buffer
    → http3_decode_varint buffer ≡ some (v, n)
    → (1 ≤ n) × (n ≤ 8) × (n ≤ length buffer) × (v < 2 ^ 62)
unfolding http3_decode_varint
decode_varint_bounds buffer v n hb h = ground (
  arith,
  at 0,
  bit_or-add 8 (byte buffer 0 % 2 ^ 6 * 2 ^ 8) (byte buffer 1),
  four_bytes_sum (byte buffer 0 % 2 ^ 6) (byte buffer 1) (byte buffer 2) (byte buffer 3),
  high_bytes_sum (byte buffer 0 % 2 ^ 6) (byte buffer 1) (byte buffer 2) (byte buffer 3)
      (byte buffer 4),
  four_bytes_sum
      (byte buffer 0 % 2 ^ 6 * 2 ^ 32
        + byte buffer 1 * 2 ^ 24
        + byte buffer 2 * 2 ^ 16
        + byte buffer 3 * 2 ^ 8
        + byte buffer 4)
      (byte buffer 5) (byte buffer 6) (byte buffer 7),
  at 1,
  at 2,
  at 3,
  at 4,
  at 5,
  at 6,
  at 7,
)
  where
    at : (i : ℕ) → byte buffer i < 2 ^ 8
    at i = get_or-lt (2 ^ 8) buffer i (omega arith) hb
