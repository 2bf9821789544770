-- ===== src/Http3/Varint.antt =====
-- `http3_encode_varint` and `http3_decode_varint` (src/http3_frames.c).
pub mod RoundTrip
use tinc_quic.Common.{ℕ, ◌*◌, ◌/◌, ◌%◌, ◌^◌, bit_or, Option, none, some, List, [], ◌∷◌, ltb}
use tinc_quic.Common.{◌==◌, if◌then◌else◌, length, get_or, u8}

-- The 2, 4 and 8 byte forms: the tag in the two top bits, then the value, high byte first.
abbrev pub two_bytes : ℕ → List ℕ
two_bytes v = bit_or 0x40 (u8 (v / 2 ^ 8)) ∷ u8 v ∷ []

abbrev pub four_bytes : ℕ → List ℕ
four_bytes v = bit_or 0x80 (u8 (v / 2 ^ 24)) ∷ u8 (v / 2 ^ 16) ∷ u8 (v / 2 ^ 8) ∷ u8 v ∷ []

abbrev pub eight_bytes : ℕ → List ℕ
eight_bytes v =
    bit_or 0xC0 (u8 (v / 2 ^ 56))
    ∷ u8 (v / 2 ^ 48)
    ∷ u8 (v / 2 ^ 40)
    ∷ u8 (v / 2 ^ 32)
    ∷ u8 (v / 2 ^ 24)
    ∷ u8 (v / 2 ^ 16)
    ∷ u8 (v / 2 ^ 8)
    ∷ u8 v
    ∷ []

-- The value and the size of the output buffer; the bytes written.
unfoldable pub http3_encode_varint : ℕ → ℕ → Option (List ℕ)
http3_encode_varint value buffer_size =
    if buffer_size == 0
    then none
    else if ltb value 64
    then if ltb buffer_size 1 then none else some (u8 value ∷ [])
    else if ltb value 16384
    then if ltb buffer_size 2 then none else some (two_bytes value)
    else if ltb value 1073741824
    then if ltb buffer_size 4 then none else some (four_bytes value)
    else if ltb buffer_size 8
    then none
    else some (eight_bytes value)

-- `buffer[i]`, and `buffer[0] & 0x3F`
abbrev pub byte : List ℕ → ℕ → ℕ
byte buffer i = get_or buffer i 0

abbrev pub head_bits : List ℕ → ℕ
head_bits buffer = byte buffer 0 % 2 ^ 6

abbrev pub four_byte_value : List ℕ → ℕ
four_byte_value b =
    bit_or (bit_or (bit_or (head_bits b * 2 ^ 24) (byte b 1 * 2 ^ 16)) (byte b 2 * 2 ^ 8))
      (byte b 3)

abbrev pub eight_byte_value : List ℕ → ℕ
eight_byte_value b =
    let high = bit_or (bit_or (head_bits b * 2 ^ 56) (byte b 1 * 2 ^ 48)) (byte b 2 * 2 ^ 40) in
    let middle = bit_or (bit_or high (byte b 3 * 2 ^ 32)) (byte b 4 * 2 ^ 24) in
    bit_or (bit_or (bit_or middle (byte b 5 * 2 ^ 16)) (byte b 6 * 2 ^ 8)) (byte b 7)

-- The value read, and the number of bytes consumed. The `switch` is on the two top bits.
unfoldable pub http3_decode_varint : List ℕ → Option (ℕ × ℕ)
http3_decode_varint buffer =
    let prefix = byte buffer 0 / 2 ^ 6 in
    if length buffer == 0
    then none
    else if prefix == 0
    then some (head_bits buffer, 1)
    else if prefix == 1
    then if ltb (length buffer) 2
      then none
      else some (bit_or (head_bits buffer * 2 ^ 8) (byte buffer 1), 2)
    else if prefix == 2
    then if ltb (length buffer) 4 then none else some (four_byte_value buffer, 4)
    else if prefix == 3
    then if ltb (length buffer) 8 then none else some (eight_byte_value buffer, 8)
    else none
