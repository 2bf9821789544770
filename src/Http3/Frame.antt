-- ===== src/Http3/Frame.antt =====
-- Frame headers, DATA frames and the reading of HEADERS frames (src/http3_frames.c).
pub mod Data
use tinc_quic.Common.{ℕ, ◌+◌, ◌-◌, Option, none, some, List, [], ◌++◌, Bool, false, ◌||◌, ltb}
use tinc_quic.Common.{◌==◌, if◌then◌else◌, length, drop, u8, u64, ◌>>=◌}
use tinc_quic.Http3.Varint.{http3_encode_varint, http3_decode_varint}

abbrev pub frame_data : ℕ
frame_data = 0x00

abbrev pub frame_headers : ℕ
frame_headers = 0x01

-- `http3_frame_header_t`
pub record FrameHeader : Type 0 where
  pub frame_type : ℕ
  pub payload_length : ℕ

-- The type, the length and the size of the output buffer; the bytes written.
unfoldable pub http3_encode_frame_header : ℕ → ℕ → ℕ → Option (List ℕ)
http3_encode_frame_header type len buffer_size = if ltb buffer_size 2 then none else do
  type_bytes ← http3_encode_varint type buffer_size
  length_bytes ← http3_encode_varint len (buffer_size - length type_bytes)
  some (type_bytes ++ length_bytes)

-- The header, whose type is cut to a `uint8_t`, and its size.
unfoldable pub http3_decode_frame_header : List ℕ → Option (FrameHeader × ℕ)
http3_decode_frame_header buffer = if ltb (length buffer) 2 then none else do
  (type, type_len) ← http3_decode_varint buffer
  (len, length_len) ← http3_decode_varint (drop type_len buffer)
  some (record { frame_type = u8 type; payload_length = len }, type_len + length_len)

-- The data and the size of the output buffer; the frame written.
unfoldable pub http3_create_data_frame : List ℕ → ℕ → Option (List ℕ)
http3_create_data_frame payload frame_size =
    if length payload == 0 || ltb frame_size (u64 (length payload + 16)) then none else do
      header ← http3_encode_frame_header frame_data (length payload) frame_size
      some (header ++ payload)

-- Where the payload starts in the frame, and its length.
unfoldable pub http3_parse_data_frame : List ℕ → Option (ℕ × ℕ)
http3_parse_data_frame frame = if ltb (length frame) 2 then none else do
  (header, header_len) ← http3_decode_frame_header frame
  let total = u64 (header_len + header.payload_length)
  if header.frame_type == frame_data
      then if ltb (length frame) total then none else some (header_len, header.payload_length)
      else none

-- The size of the whole frame, `none` for the returned 0.
unfoldable pub http3_parse_headers_frame : List ℕ → Option ℕ
http3_parse_headers_frame frame = if ltb (length frame) 2 then none else do
  (header, header_len) ← http3_decode_frame_header frame
  let total = u64 (header_len + header.payload_length)
  if header.frame_type == frame_headers
      then if ltb (length frame) total then none else some total
      else none
