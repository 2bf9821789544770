-- ===== src/Http3/Headers/Size.antt =====
-- The size of a HEADERS frame, and its reading.
use tinc_quic.Common.{ℕ, ◌+◌, ◌≤◌, ◌<◌, ◌≡◌, arith, some, List, [], ◌++◌, length, length-append}
use tinc_quic.Common.{Option-cases, inl, inr, >>=-eq-some}
use mathlib.Core.List.{append_assoc}
use tinc_quic.Http3.Frame.{http3_encode_frame_header, frame_headers, http3_parse_headers_frame}
use tinc_quic.Http3.Frame.Data.{decode_frame_header-encode_frame_header}
use tinc_quic.Http3.Headers.{HttpMethod, print_at, headers_text, http3_create_headers_frame}
use tinc_quic.Http3.Headers.{max_header_size, crlf, pseudo_headers, real_headers, type_line}
use tinc_quic.Http3.Varint.RoundTrip.{varint_size}

print_at_room :
    (headers text out : List ℕ) → print_at headers text ≡ some out → length out < max_header_size
unfolding print_at
print_at_room headers text out h = ground (arith, length-append headers text)

headers_text_room :
    (method : HttpMethod) (path authority agent text : List ℕ)
    → headers_text method path authority agent ≡ some text
    → length text < max_header_size
unfolding headers_text
headers_text_room method path authority agent text h =
    let (first, _, h₁) = >>=-eq-some (print_at [] (pseudo_headers method path authority)) _ h in
    let (second, _, h₂) = >>=-eq-some (print_at first (real_headers agent)) _ h₁ in
    let (third, _, h₃) = >>=-eq-some (type_line method second) _ h₂ in
    print_at_room third crlf text h₃

create_headers_frame_form :
    (method : HttpMethod) (path authority agent : List ℕ) (size : ℕ) (frame : List ℕ)
    → http3_create_headers_frame method path authority agent size ≡ some frame
    → (text header : List ℕ) × (headers_text method path authority agent ≡ some text)
      × (http3_encode_frame_header frame_headers (length text) size ≡ some header)
      × (frame ≡ header ++ text)
unfolding http3_create_headers_frame
create_headers_frame_form method path authority agent size frame h =
    elim (Option-cases (headers_text method path authority agent)) [
      | inl e ↦ ground arith
      | inr (text, e) ↦
          elim (Option-cases (http3_encode_frame_header frame_headers (length text) size)) [
            | inl e' ↦ ground arith
            | inr (header, e') ↦ (text, header, e, e', ground arith)
          ]
    ]

-- A HEADERS frame is the header of a frame and fewer than 2048 bytes of text, and it is read back
-- whole: whatever follows it, `http3_parse_headers_frame` returns its size.
pub parse_headers_frame-create_headers_frame :
    (method : HttpMethod) (path authority agent : List ℕ) (size : ℕ) (frame rest : List ℕ)
    → http3_create_headers_frame method path authority agent size ≡ some frame
    → (text : List ℕ) × (headers_text method path authority agent ≡ some text)
      × (length text < max_header_size)
      × (length frame ≡ 1 + varint_size (length text) + length text)
      × (http3_parse_headers_frame (frame ++ rest) ≡ some (length frame))
unfolding http3_parse_headers_frame
parse_headers_frame-create_headers_frame method path authority agent size frame rest h =
    let (text, header, e, e', form) =
      create_headers_frame_form method path authority agent size frame h in
    let room = headers_text_room method path authority agent text e in
    let (back, _, len) =
      decode_frame_header-encode_frame_header frame_headers (length text) size header (text ++ rest)
        (omega arith) (omega arith) e' in
    let split : frame ++ rest ≡ header ++ (text ++ rest) =
      rw form (append_assoc header text rest) in
    let size_of : length frame ≡ length header + length text =
      rw form (length-append header text) in
    (
      text,
      e,
      room,
      omega (arith, size_of, len),
      rw split (
          ground (
            arith,
            back,
            len,
            size_of,
            length-append header (text ++ rest),
            length-append text rest,
          )),
    )

-- The only test on the output buffer is that it has 2048 bytes. A text of 2046 or 2047 bytes passes
-- that test, and the frame written is longer than 2048 bytes.
pub create_headers_frame_overrun :
    (method : HttpMethod) (path authority agent text frame : List ℕ)
    → headers_text method path authority agent ≡ some text
    → 2046 ≤ length text
    → http3_create_headers_frame method path authority agent max_header_size ≡ some frame
    → max_header_size < length frame
create_headers_frame_overrun method path authority agent text frame e long h =
    let (text', e', _, len, _) =
      parse_headers_frame-create_headers_frame method path authority agent max_header_size frame []
        h in
    ground (arith, e, e', len)
