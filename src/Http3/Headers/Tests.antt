-- ===== src/Http3/Headers/Tests.antt =====
-- Runs of the HEADERS frame of src/http3_frames.c, and its theorems at concrete inputs.
use tinc_quic.Common.{ℕ, ◌+◌, ◌≤◌, ◌<◌, ◌≡◌, refl, arith, Option, none, some, List, [], ◌∷◌}
use tinc_quic.Common.{◌++◌, length, replicate, codes}
use tinc_quic.Http3.Frame.{http3_encode_frame_header, http3_parse_headers_frame}
use tinc_quic.Http3.Headers.{headers_text, print_at, pseudo_headers, real_headers, type_line}
use tinc_quic.Http3.Headers.{line, method_str, content_type, http_get}
use tinc_quic.Http3.Headers.{http3_create_headers_frame}
use tinc_quic.Http3.Headers.Size.{create_headers_frame_overrun}
use tinc_quic.Http3.Headers.Size.{parse_headers_frame-create_headers_frame}
use tinc_quic.Http3.Varint.{http3_encode_varint}
use tinc_quic.Http3.Varint.RoundTrip.{varint_size}

-- The bytes of a result, none for a failure.
abbrev bytes_of : Option (List ℕ) → List ℕ
bytes_of none = []
bytes_of (some bs) = bs

abbrev long_path : List ℕ
long_path = replicate 1767 b'a'

request_text : List ℕ → List ℕ
unfolding headers_text print_at pseudo_headers real_headers type_line line method_str content_type
request_text path = bytes_of (headers_text http_get path (codes "a") (codes "x"))

request_frame : List ℕ → List ℕ
unfolding request_text http3_create_headers_frame http3_encode_frame_header http3_encode_varint
request_frame path =
    bytes_of (http3_create_headers_frame http_get path (codes "a") (codes "x") 2048)

create_short :
    http3_create_headers_frame http_get (codes "/") (codes "a") (codes "x") 2048
    ≡ some (request_frame (codes "/"))
unfolding request_frame
create_short = refl

length-short : length (request_frame (codes "/")) ≡ 283
unfolding request_frame
length-short = refl

text-long : headers_text http_get long_path (codes "a") (codes "x") ≡ some (request_text long_path)
unfolding request_text
text-long = refl

create_long :
    http3_create_headers_frame http_get long_path (codes "a") (codes "x") 2048
    ≡ some (request_frame long_path)
unfolding request_frame
create_long = refl

length-long : 2046 ≤ length (request_text long_path)
unfolding request_text
length-long = omega arith

parse_headers_frame-create_headers_frame_example :
    (text : List ℕ) × (headers_text http_get (codes "/") (codes "a") (codes "x") ≡ some text)
    × (length text < 2048)
    × (length (request_frame (codes "/")) ≡ 1 + varint_size (length text) + length text)
    × (http3_parse_headers_frame (request_frame (codes "/") ++ (7 ∷ []))
        ≡ some (length (request_frame (codes "/"))))
parse_headers_frame-create_headers_frame_example =
    parse_headers_frame-create_headers_frame http_get (codes "/") (codes "a") (codes "x") 2048
      (request_frame (codes "/")) (7 ∷ []) create_short

create_headers_frame_overrun_example : 2048 < length (request_frame long_path)
create_headers_frame_overrun_example =
    create_headers_frame_overrun http_get long_path (codes "a") (codes "x") (request_text long_path)
      (request_frame long_path) text-long length-long create_long
