-- ===== src/Quic/Datagram/Header.antt =====
-- The header that the zero-copy path writes by hand, against the frame library.
use tinc_quic.Common.{ℕ, ◌/◌, ◌^◌, ◌≤◌, ◌<◌, bit_or, ◌≡◌, refl, arith, true, ◌==◌, table, u8}
use tinc_quic.Common.{table_sound, ==_iff}
use tinc_quic.Http3.Frame.{http3_encode_frame_header, frame_data}
use tinc_quic.Http3.Varint.{http3_encode_varint}
use tinc_quic.Quic.Datagram.{http3_header}

-- `x | tag` and `tag | x` give the same byte where x has six bits.
table_40 : table (λ x. u8 (bit_or x 0x40) == bit_or 0x40 (u8 x)) 64 ≡ true
unfolding table
table_40 = refl

table_80 : table (λ x. u8 (bit_or x 0x80) == bit_or 0x80 (u8 x)) 64 ≡ true
unfolding table
table_80 = refl

tag_40_comm : (x : ℕ) → x < 64 → u8 (bit_or x 0x40) ≡ bit_or 0x40 (u8 x)
tag_40_comm x h = (==_iff _ _).0 (table_sound _ 64 table_40 x h)

tag_80_comm : (x : ℕ) → x < 64 → u8 (bit_or x 0x80) ≡ bit_or 0x80 (u8 x)
tag_80_comm x h = (==_iff _ _).0 (table_sound _ 64 table_80 x h)

-- For data of fewer than 2 ^ 30 bytes the header that `quic_send_packet` writes in place is the one
-- that `http3_encode_frame_header` writes for a DATA frame of that length, given nine bytes.
pub http3_header-encode_frame_header :
    (data_len size : ℕ)
    → data_len < 2 ^ 30
    → 9 ≤ size
    → http3_header true data_len ≡ http3_encode_frame_header frame_data data_len size
unfolding http3_header http3_encode_frame_header http3_encode_varint
http3_header-encode_frame_header data_len size small room =
    ground (arith, tag_40_comm (data_len / 2 ^ 8), tag_80_comm (data_len / 2 ^ 24))
