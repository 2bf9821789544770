-- ===== src/Quic/Stream/Split.antt =====
-- A DATA frame that arrives in two buffers.
use tinc_quic.Common.{ℕ, suc, ◌^◌, ◌<◌, ◌≡◌, refl, arith, true, false, some, List, [], ◌∷◌}
use tinc_quic.Common.{◌++◌, length, lt→ltb, length-append}
use tinc_quic.Http3.Frame.{http3_encode_frame_header, frame_data, http3_parse_data_frame}
use tinc_quic.Http3.Frame.{http3_parse_headers_frame}
use tinc_quic.Http3.Frame.Data.{decode_frame_header-encode_frame_header}
use tinc_quic.Quic.Stream.{front_frame, receive_buffer, unwrap_frames, no_frame}

front_cut :
    (n size : ℕ) (header part : List ℕ)
    → n < 2 ^ 62
    → http3_encode_frame_header frame_data n size ≡ some header
    → length part < n
    → front_frame (header ++ part) ≡ no_frame
unfolding front_frame http3_parse_data_frame http3_parse_headers_frame
front_cut n size header part small e cut =
    let (back, _, len) =
      decode_frame_header-encode_frame_header frame_data n size header part (omega arith) small e in
    ground (arith, back, len, length-append header part)

first_round :
    (fuel : ℕ) (buffer inbuf : List ℕ)
    → front_frame buffer ≡ no_frame
    → 0 < length buffer
    → unwrap_frames (suc fuel) buffer 0 inbuf ≡ inbuf ++ buffer
unfolding unwrap_frames
first_round fuel buffer inbuf e pos = rw (lt→ltb 0 (length buffer) pos, e)

receive_buffer_raw :
    (buffer inbuf : List ℕ)
    → front_frame buffer ≡ no_frame
    → receive_buffer true false inbuf buffer ≡ inbuf ++ buffer
unfolding receive_buffer
receive_buffer_raw [] inbuf e = refl
receive_buffer_raw (b ∷ bs) inbuf e =
    rw (lt→ltb 0 (suc (length bs)) (omega arith))
      (first_round (length bs) (b ∷ bs) inbuf e (omega arith))

-- If a received buffer begins with the header of a DATA frame and ends inside that frame's payload,
-- all its bytes, those of the header among them, are added to `inbuf` as metadata.
pub receive_buffer_cut :
    (n size : ℕ) (header part inbuf : List ℕ)
    → n < 2 ^ 62
    → http3_encode_frame_header frame_data n size ≡ some header
    → length part < n
    → receive_buffer true false inbuf (header ++ part) ≡ inbuf ++ (header ++ part)
receive_buffer_cut n size header part inbuf small e cut =
    receive_buffer_raw (header ++ part) inbuf (front_cut n size header part small e cut)
