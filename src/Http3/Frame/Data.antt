-- ===== src/Http3/Frame/Data.antt =====
-- The round trip of DATA frames, and the bounds of what a parsed frame points at.
use tinc_quic.Common.{ℕ, ◌+◌, ◌-◌, ◌%◌, ◌^◌, ◌≤◌, ◌<◌, ◌≡◌, sym, arith, none, some, List, ◌++◌}
use tinc_quic.Common.{length, take, drop, All, IsByte, u8}
use mathlib.Core.List.{append_assoc}
use tinc_quic.Http3.Frame.{frame_data, FrameHeader, http3_encode_frame_header}
use tinc_quic.Http3.Frame.{http3_parse_headers_frame}
use tinc_quic.Http3.Varint.{http3_encode_varint, http3_decode_varint}
use tinc_quic.Http3.Varint.RoundTrip.{varint_size, encode_varint_size}
use tinc_quic.Http3.Varint.RoundTrip.{decode_varint-encode_varint, decode_varint_bounds}
use tinc_quic.Http3.Varint.RoundTrip.{encode_varint_bounds}
use tinc_quic.Common.{
  Option-cases, inl, inr, length-append, length-drop, drop-append, take-append, All-drop,
}
use tinc_quic.Http3.Frame.{
  http3_decode_frame_header, http3_create_data_frame, http3_parse_data_frame,
}

-- A header of two varints, whatever follows, decodes to the two numbers: the type cut to a byte.
pub decode_frame_header-varints :
    (type len size size' : ℕ) (bs cs rest : List ℕ)
    → type < 2 ^ 62
    → len < 2 ^ 62
    → http3_encode_varint type size ≡ some bs
    → http3_encode_varint len size' ≡ some cs
    → http3_decode_frame_header (bs ++ (cs ++ rest))
      ≡ some (record { frame_type = u8 type; payload_length = len }, length bs + length cs)
unfolding http3_decode_frame_header
decode_frame_header-varints type len size size' bs cs rest ht hl eb ec = ground (
  arith,
  decode_varint-encode_varint type size bs (cs ++ rest),
  decode_varint-encode_varint len size' cs rest,
  drop-append bs (cs ++ rest),
  length-append bs (cs ++ rest),
  length-append cs rest,
  encode_varint_bounds type size bs eb,
  encode_varint_bounds len size' cs ec,
)

-- A header that `http3_encode_frame_header` wrote, whatever follows it, is decoded to its type and
-- length, and all of it is consumed; it takes at most the size of the buffer.
pub decode_frame_header-encode_frame_header :
    (type len size : ℕ) (hs rest : List ℕ)
    → type < 2 ^ 8
    → len < 2 ^ 62
    → http3_encode_frame_header type len size ≡ some hs
    → (http3_decode_frame_header (hs ++ rest)
        ≡ some (record { frame_type = type; payload_length = len }, length hs))
      × (length hs ≤ size)
      × (length hs ≡ varint_size type + varint_size len)
unfolding http3_encode_frame_header
decode_frame_header-encode_frame_header type len size hs rest ht hl e =
    elim (Option-cases (http3_encode_varint type size)) [
      | inl no_type ↦ ground arith
      | inr (bs, eb) ↦ elim (Option-cases (http3_encode_varint len (size - length bs))) [
        | inl no_length ↦ ground arith
        | inr (cs, ec) ↦ ground (
          arith,
          decode_frame_header-varints type len size (size - length bs) bs cs rest,
          encode_varint_bounds type size bs eb,
          encode_varint_bounds len (size - length bs) cs ec,
          length-append bs cs,
          append_assoc bs cs rest,
        )
      ]
    ]

-- The offset at which the payload of a DATA frame starts.
abbrev pub data_offset : ℕ → ℕ
data_offset len = 1 + varint_size len

-- `http3_create_data_frame` writes a header that decodes to the payload's length, then the payload.
create_data_frame_form :
    (payload : List ℕ) (size : ℕ) (frame : List ℕ)
    → http3_create_data_frame payload size ≡ some frame
    → (header : List ℕ) × (http3_encode_frame_header frame_data (length payload) size ≡ some header)
      × (frame ≡ header ++ payload)
      × (0 < length payload)
unfolding http3_create_data_frame
create_data_frame_form payload size frame h =
    elim (Option-cases (http3_encode_frame_header frame_data (length payload) size)) [
      | inl e ↦ ground arith
      | inr (header, e) ↦ (header, e, ground arith, ground arith)
    ]

-- A DATA frame that `http3_create_data_frame` made, whatever follows it, is parsed to its payload:
-- the pointer and the length that are returned name exactly the bytes of the payload, and the
-- frame ends where they end.
pub parse_data_frame-create_data_frame :
    (payload : List ℕ) (size : ℕ) (frame rest : List ℕ)
    → length payload < 2 ^ 62
    → http3_create_data_frame payload size ≡ some frame
    → (http3_parse_data_frame (frame ++ rest) ≡ some (data_offset (length payload), length payload))
      × (take (length payload) (drop (data_offset (length payload)) (frame ++ rest)) ≡ payload)
      × (length frame ≡ data_offset (length payload) + length payload)
unfolding http3_parse_data_frame
parse_data_frame-create_data_frame payload size frame rest small h =
    let (header, e, form, pos) = create_data_frame_form payload size frame h in
    let (back, fits, len) =
      decode_frame_header-encode_frame_header frame_data (length payload) size header
        (payload ++ rest) (omega arith) small e in
    let split : frame ++ rest ≡ header ++ (payload ++ rest) =
      rw form (append_assoc header payload rest) in
    let size_of : length frame ≡ length header + length payload =
      rw form (length-append header payload) in
    let start : data_offset (length payload) ≡ length header = sym len in
    (
      rw split (
          ground
            (arith, back, len, length-append header (payload ++ rest), length-append payload rest)),
      rw (split, start, drop-append header (payload ++ rest)) (take-append payload rest),
      omega (arith, size_of, len),
    )

-- Every payload that is not empty and whose buffer has 16 bytes to spare gets a frame.
pub create_data_frame_total :
    (payload : List ℕ) (size : ℕ)
    → size < 2 ^ 64
    → 0 < length payload
    → length payload + 16 ≤ size
    → (frame : List ℕ) × (http3_create_data_frame payload size ≡ some frame)
create_data_frame_total payload size w pos room =
    let (bs, eb, lb) = (encode_varint_size frame_data size).0 (omega arith) in
    let (cs, ec, lc) = (encode_varint_size (length payload) (size - length bs)).0 (ground arith) in
    (
      (bs ++ cs) ++ payload,
      unfold http3_create_data_frame http3_encode_frame_header in ground (arith, eb, ec),
    )

decode_frame_header_bounds :
    (buffer : List ℕ) (header : FrameHeader) (n : ℕ)
    → All IsByte buffer
    → http3_decode_frame_header buffer ≡ some (header, n)
    → (n ≤ 16) × (n ≤ length buffer) × (header.payload_length < 2 ^ 62) × (2 ≤ n)
unfolding http3_decode_frame_header
decode_frame_header_bounds buffer header n hb h = elim (Option-cases (http3_decode_varint buffer)) [
  | inl e ↦ ground arith
  | inr ((type, k), e) ↦ elim (Option-cases (http3_decode_varint (drop k buffer))) [
    | inl e' ↦ ground arith
    | inr ((len, m), e') ↦ ground (
      arith,
      decode_varint_bounds buffer type k hb e,
      decode_varint_bounds (drop k buffer) len m (All-drop IsByte k buffer hb) e',
      length-drop k buffer,
    )
  ]
]

-- Whatever bytes arrive, a parsed DATA frame points inside the received bytes: the 64-bit sum of
-- header and payload length does not wrap.
pub parse_data_frame_in_bounds :
    (frame : List ℕ) (off len : ℕ)
    → All IsByte frame
    → http3_parse_data_frame frame ≡ some (off, len)
    → (off + len ≤ length frame) × (2 ≤ off)
unfolding http3_parse_data_frame
parse_data_frame_in_bounds frame off len hb h =
    elim (Option-cases (http3_decode_frame_header frame)) [
      | inl e ↦ ground arith
      | inr ((header, n), e) ↦ ground (arith, decode_frame_header_bounds frame header n hb e)
    ]

-- A frame whose type is any multiple of 256 is taken for a DATA frame: the type is cut to a byte
-- before it is tested.
pub parse_data_frame_wide_type :
    (type size size' : ℕ) (payload bs cs : List ℕ)
    → type < 2 ^ 62
    → type % 256 ≡ 0
    → length payload < 2 ^ 62
    → http3_encode_varint type size ≡ some bs
    → http3_encode_varint (length payload) size' ≡ some cs
    → http3_parse_data_frame (bs ++ (cs ++ payload)) ≡ some (length bs + length cs, length payload)
unfolding http3_parse_data_frame
parse_data_frame_wide_type type size size' payload bs cs ht hm hl eb ec = ground (
  arith,
  decode_frame_header-varints type (length payload) size size' bs cs payload ht hl eb ec,
  encode_varint_bounds type size bs eb,
  encode_varint_bounds (length payload) size' cs ec,
  length-append bs (cs ++ payload),
  length-append cs payload,
)

-- What parses as a HEADERS frame does not parse as a DATA frame.
pub parse_data_frame_of_headers :
    (frame : List ℕ) (n : ℕ)
    → http3_parse_headers_frame frame ≡ some n
    → http3_parse_data_frame frame ≡ none
unfolding http3_parse_data_frame http3_parse_headers_frame
parse_data_frame_of_headers frame n h = ground arith
