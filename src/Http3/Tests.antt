-- ===== src/Http3/Tests.antt =====
-- Runs of src/http3_frames.c on concrete bytes, and its theorems at concrete inputs.
use tinc_quic.Common.{ℕ, ◌+◌, ◌^◌, ◌≡◌, refl, arith, some, List, [], ◌∷◌, ◌++◌, codes, length}
use tinc_quic.Common.{take, drop}
use tinc_quic.Http3.Frame.{http3_create_data_frame, http3_parse_data_frame}
use tinc_quic.Http3.Frame.{http3_decode_frame_header, http3_encode_frame_header}
use tinc_quic.Http3.Frame.Data.{parse_data_frame-create_data_frame}
use tinc_quic.Http3.Varint.{http3_decode_varint, http3_encode_varint}
use tinc_quic.Http3.Varint.RoundTrip.{decode_varint-encode_varint}

abbrev hello : List ℕ
hello = codes "hello"

abbrev hello_frame : List ℕ
hello_frame = 0 ∷ 5 ∷ codes "hello"

encode_300 : http3_encode_varint 300 8 ≡ some (0x41 ∷ 0x2C ∷ [])
unfolding http3_encode_varint
encode_300 = refl

encode_2_62 : http3_encode_varint (2 ^ 62 + 5) 8 ≡ some (0xC0 ∷ 0 ∷ 0 ∷ 0 ∷ 0 ∷ 0 ∷ 0 ∷ 5 ∷ [])
unfolding http3_encode_varint
encode_2_62 = refl

decode_300 : http3_decode_varint (0x41 ∷ 0x2C ∷ 7 ∷ []) ≡ some (300, 2)
unfolding http3_decode_varint
decode_300 = refl

create_hello : http3_create_data_frame hello 32 ≡ some hello_frame
unfolding http3_create_data_frame http3_encode_frame_header http3_encode_varint
create_hello = refl

parse_hello : http3_parse_data_frame hello_frame ≡ some (2, 5)
unfolding http3_parse_data_frame http3_decode_frame_header http3_decode_varint
parse_hello = refl

decode_varint-encode_varint_example :
    http3_decode_varint (0xC0 ∷ 0 ∷ 0 ∷ 0 ∷ 0 ∷ 0 ∷ 0 ∷ 5 ∷ 9 ∷ []) ≡ some (5, 8)
decode_varint-encode_varint_example =
    decode_varint-encode_varint (2 ^ 62 + 5) 8 (0xC0 ∷ 0 ∷ 0 ∷ 0 ∷ 0 ∷ 0 ∷ 0 ∷ 5 ∷ []) (9 ∷ [])
      (omega arith) encode_2_62

parse_data_frame-create_data_frame_example :
    (http3_parse_data_frame (hello_frame ++ (1 ∷ [])) ≡ some (2, 5))
    × (take 5 (drop 2 (hello_frame ++ (1 ∷ []))) ≡ hello)
    × (length hello_frame ≡ 2 + 5)
parse_data_frame-create_data_frame_example =
    parse_data_frame-create_data_frame hello 32 hello_frame (1 ∷ []) (omega arith) create_hello

encode_wide : http3_encode_varint 256 8 ≡ some (0x41 ∷ 0x00 ∷ [])
unfolding http3_encode_varint
encode_wide = refl

encode_5 : http3_encode_varint 5 8 ≡ some (5 ∷ [])
unfolding http3_encode_varint
encode_5 = refl
