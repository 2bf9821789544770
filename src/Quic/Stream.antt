-- ===== src/Quic/Stream.antt =====
-- Metadata on the control stream: how `quic_send_meta` wraps it, and how the receive event of
-- `quic_stream_callback` unwraps it into `c->inbuf` (src/quic.c).
pub mod Frames
pub mod Split
use tinc_quic.Common.{ℕ, zero, suc, ◌+◌, ◌-◌, ◌*◌, ◌/◌, ◌%◌, ◌^◌, ◌≤◌, ◌<◌, bit_and, bit_or}
use tinc_quic.Common.{◌≡◌, refl, sym, ap, ◌∙◌, ◌≢◌, ◌↔◌, ◌⊎◌, inl, inr, arith, Bool, true}
use tinc_quic.Common.{false, ◌&&◌, ◌||◌, not, Option, none, some, List, [], ◌∷◌, ◌++◌, map, ltb}
use tinc_quic.Common.{leb, ◌==◌, if◌then◌else◌, ◌>>=◌, drop, length, u32, take}
use mathlib.Core.List.{foldl}
use tinc_quic.Http3.Frame.{http3_create_data_frame, http3_parse_headers_frame}
use tinc_quic.Http3.Frame.{http3_parse_data_frame}

-- What `quic_send_meta` puts into its send buffer; `none` is the failure to create a frame.
unfoldable pub wrap_meta : Bool → Bool → List ℕ → Option (List ℕ)
wrap_meta masquerading invitation buffer =
    if masquerading && not invitation
    then http3_create_data_frame buffer (length buffer + 32)
    else some buffer

-- What stands at the front of the received bytes. The code tries a DATA frame first.
pub data FrontFrame : Type 0 where
  data_payload : ℕ → ℕ → FrontFrame
  headers_size : ℕ → FrontFrame
  no_frame : FrontFrame

unfoldable pub front_frame : List ℕ → FrontFrame
front_frame frame = elim (http3_parse_data_frame frame) [
  | some (start, len) ↦ data_payload start len
  | none ↦ elim (http3_parse_headers_frame frame) [
    | some size ↦ headers_size size
    | none ↦ no_frame
  ]
]

-- The `while` loop over the frames from `offset` on. `inbuf` is `c->inbuf`; each round passes a
-- frame of two bytes at least, so as many rounds as there are bytes are enough.
pub unwrap_frames : ℕ → List ℕ → ℕ → List ℕ → List ℕ
unwrap_frames zero buffer offset inbuf = inbuf
unwrap_frames (suc fuel) buffer offset inbuf =
    let frame = drop offset buffer in
    let rest : List ℕ = elim (front_frame frame) [
      | data_payload start len ↦
          unwrap_frames fuel buffer (u32 (offset + (start + len)))
            (inbuf ++ take len (drop start frame))
      | headers_size size ↦ unwrap_frames fuel buffer (u32 (offset + size)) inbuf
      | no_frame ↦ if offset == 0 then inbuf ++ buffer else inbuf
    ] in
    if ltb offset (length buffer) then rest else inbuf

-- One received buffer.
unfoldable pub receive_buffer : Bool → Bool → List ℕ → List ℕ → List ℕ
receive_buffer masquerading invitation inbuf buffer =
    if masquerading && ltb 0 (length buffer) && not invitation
    then unwrap_frames (length buffer) buffer 0 inbuf
    else inbuf ++ buffer

-- `QUIC_STREAM_EVENT_RECEIVE` up to the call of `receive_meta`: the buffers of the event in order.
-- Data on another stream than the control stream are ignored.
unfoldable pub receive_event : Bool → Bool → Bool → List ℕ → List (List ℕ) → List ℕ
receive_event control masquerading invitation inbuf buffers =
    if control then foldl (receive_buffer masquerading invitation) inbuf buffers else inbuf
