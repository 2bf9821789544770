-- ===== src/Quic/Stream/Frames.antt =====
-- A buffer of whole frames is unwrapped to the payloads of its DATA frames.
use tinc_quic.Common.{ℕ, zero, suc, ◌+◌, ◌^◌, ◌≤◌, ◌<◌, ◌≡◌, refl, sym, ap, ◌∙◌, arith, true}
use tinc_quic.Common.{false, some, List, [], ◌∷◌, ◌++◌, length, drop, drop-append}
use tinc_quic.Common.{length-append, u32, lt→ltb}
use mathlib.Core.List.{append-nil, append_assoc}
use tinc_quic.Http3.Frame.{http3_create_data_frame}
use tinc_quic.Http3.Frame.Data.{parse_data_frame-create_data_frame, data_offset}
use tinc_quic.Http3.Frame.Data.{parse_data_frame_of_headers}
use tinc_quic.Http3.Headers.{HttpMethod, http3_create_headers_frame}
use tinc_quic.Http3.Headers.Size.{parse_headers_frame-create_headers_frame}
use tinc_quic.Quic.Stream.{unwrap_frames, front_frame, data_payload, headers_size}
use tinc_quic.Quic.Stream.{receive_buffer}

-- The bytes of whole frames, DATA and HEADERS in any order, and the payloads in the DATA frames.
pub data Frames : List ℕ → List ℕ → Type 0 where
  done : Frames [] []
  data_frame :
      (payload frame : List ℕ) (size : ℕ) {wire content : List ℕ}
      → length payload < 2 ^ 62
      → http3_create_data_frame payload size ≡ some frame
      → Frames wire content
      → Frames (frame ++ wire) (payload ++ content)
  headers_frame :
      (method : HttpMethod) (path authority agent frame : List ℕ) (size : ℕ) {wire content : List ℕ}
      → http3_create_headers_frame method path authority agent size ≡ some frame
      → Frames wire content
      → Frames (frame ++ wire) content

-- What is found at the front of whole frames.
front_data :
    (payload frame rest : List ℕ) (size : ℕ)
    → length payload < 2 ^ 62
    → http3_create_data_frame payload size ≡ some frame
    → front_frame (frame ++ rest) ≡ data_payload (data_offset (length payload)) (length payload)
unfolding front_frame
front_data payload frame rest size small h =
    rw ((parse_data_frame-create_data_frame payload size frame rest small h).0, front_frame)

front_headers :
    (method : HttpMethod) (path authority agent frame rest : List ℕ) (size : ℕ)
    → http3_create_headers_frame method path authority agent size ≡ some frame
    → front_frame (frame ++ rest) ≡ headers_size (length frame)
unfolding front_frame
front_headers method path authority agent frame rest size h =
    let (text, _, _, _, parsed) =
      parse_headers_frame-create_headers_frame method path authority agent size frame rest h in
    rw (parse_data_frame_of_headers (frame ++ rest) (length frame) parsed, front_frame, parsed)

-- One round at a DATA frame.
unwrap_data :
    (fuel : ℕ) (before payload frame wire inbuf : List ℕ) (size : ℕ)
    → length payload < 2 ^ 62
    → http3_create_data_frame payload size ≡ some frame
    → length (before ++ (frame ++ wire)) < 2 ^ 32
    → unwrap_frames (suc fuel) (before ++ (frame ++ wire)) (length before) inbuf
      ≡ unwrap_frames fuel (before ++ (frame ++ wire)) (length (before ++ frame)) (inbuf ++ payload)
unfolding unwrap_frames
unwrap_data fuel before payload frame wire inbuf size small h short =
    let (_, taken, len) = parse_data_frame-create_data_frame payload size frame wire small h in
    let front = front_data payload frame wire size small h in
    let at : drop (length before) (before ++ (frame ++ wire)) ≡ frame ++ wire =
      drop-append before (frame ++ wire) in
    let inside = length-append before (frame ++ wire) in
    let moved = length-append before frame in
    let whole = length-append frame wire in
    let n : ℕ = length payload in
    let next : u32 (length before + (data_offset n + n)) ≡ length (before ++ frame) =
      omega (arith, len, inside, moved, whole) in
    rw
      (
        lt→ltb (length before) (length (before ++ (frame ++ wire)))
            (omega (arith, len, inside, whole)),
        at,
        front,
        at,
        taken,
      )
      (ap (λ k. unwrap_frames fuel (before ++ (frame ++ wire)) k (inbuf ++ payload)) next)

-- One round at a HEADERS frame.
unwrap_headers :
    (fuel : ℕ) (method : HttpMethod) (before path authority agent frame wire inbuf : List ℕ)
    (size : ℕ)
    → http3_create_headers_frame method path authority agent size ≡ some frame
    → length (before ++ (frame ++ wire)) < 2 ^ 32
    → unwrap_frames (suc fuel) (before ++ (frame ++ wire)) (length before) inbuf
      ≡ unwrap_frames fuel (before ++ (frame ++ wire)) (length (before ++ frame)) inbuf
unfolding unwrap_frames
unwrap_headers fuel method before path authority agent frame wire inbuf size h short =
    let (text, _, _, len, _) =
      parse_headers_frame-create_headers_frame method path authority agent size frame wire h in
    let front = front_headers method path authority agent frame wire size h in
    let at : drop (length before) (before ++ (frame ++ wire)) ≡ frame ++ wire =
      drop-append before (frame ++ wire) in
    let inside = length-append before (frame ++ wire) in
    let moved = length-append before frame in
    let whole = length-append frame wire in
    let next : u32 (length before + length frame) ≡ length (before ++ frame) =
      omega (arith, inside, moved, whole) in
    rw
      (
        lt→ltb (length before) (length (before ++ (frame ++ wire)))
            (omega (arith, len, inside, whole)),
        at,
        front,
      )
      (ap (λ k. unwrap_frames fuel (before ++ (frame ++ wire)) k inbuf) next)

-- A loop that has reached the end of the buffer stops.
unwrap_end :
    (fuel : ℕ) (before inbuf : List ℕ)
    → unwrap_frames fuel (before ++ []) (length before) inbuf ≡ inbuf
unfolding unwrap_frames
unwrap_end zero before inbuf = refl
unwrap_end (suc fuel) before inbuf = ground (arith, length-append before [])

-- From the end of what has been unwrapped on, the loop adds exactly the payloads that follow.
unwrap_frames-Frames :
    {wire content : List ℕ} (w : Frames wire content) (fuel : ℕ) (before inbuf : List ℕ)
    → length (before ++ wire) < 2 ^ 32
    → length wire ≤ fuel
    → unwrap_frames fuel (before ++ wire) (length before) inbuf ≡ inbuf ++ content
unwrap_frames-Frames done fuel before inbuf short enough =
    unwrap_end fuel before inbuf ∙ sym (append-nil inbuf)
unwrap_frames-Frames (data_frame payload frame size {wire = w} small h rest) zero before inbuf short
      enough =
    let (_, _, len) = parse_data_frame-create_data_frame payload size frame [] small h in
    absurd (omega (arith, len, length-append frame w))
unwrap_frames-Frames (data_frame payload frame size {wire = w} {content = c} small h rest)
      (suc fuel) before inbuf short enough =
    let (_, _, len) = parse_data_frame-create_data_frame payload size frame [] small h in
    let again =
      unwrap_frames-Frames rest fuel (before ++ frame) (inbuf ++ payload) (rw append_assoc short)
        (omega (arith, len, length-append frame w)) in
    unwrap_data fuel before payload frame w inbuf size small h short
    ∙ rw (append_assoc before frame w, append_assoc inbuf payload c) at again
unwrap_frames-Frames (headers_frame m p a g frame size {wire = w} h rest) zero before inbuf short
      enough =
    let (_, _, _, len, _) = parse_headers_frame-create_headers_frame m p a g size frame [] h in
    absurd (omega (arith, len, length-append frame w))
unwrap_frames-Frames (headers_frame m p a g frame size {wire = w} h rest) (suc fuel) before inbuf
      short enough =
    let (_, _, _, len, _) = parse_headers_frame-create_headers_frame m p a g size frame [] h in
    let again =
      unwrap_frames-Frames rest fuel (before ++ frame) inbuf (rw append_assoc short)
        (omega (arith, len, length-append frame w)) in
    unwrap_headers fuel m before p a g frame w inbuf size h short
    ∙ rw (append_assoc before frame w) at again

-- No bytes carry no content: a frame is not empty.
Frames-nil : {wire content : List ℕ} → Frames wire content → wire ≡ [] → content ≡ []
Frames-nil done e = refl
Frames-nil (data_frame payload frame size {wire = w} small h rest) e =
    let (_, _, len) = parse_data_frame-create_data_frame payload size frame [] small h in
    absurd (omega (arith, len, length-append frame w, ap length e))
Frames-nil (headers_frame m p a g frame size {wire = w} h rest) e =
    let (_, _, _, len, _) = parse_headers_frame-create_headers_frame m p a g size frame [] h in
    absurd (omega (arith, len, length-append frame w, ap length e))

-- A received buffer of fewer than 2 ^ 32 bytes that is made of whole frames as the program makes
-- them, DATA and HEADERS in any order, adds exactly the payloads of the
-- DATA frames to `inbuf`, in order.
pub receive_buffer-Frames :
    {wire content : List ℕ} (inbuf : List ℕ)
    → Frames wire content
    → length wire < 2 ^ 32
    → receive_buffer true false inbuf wire ≡ inbuf ++ content
unfolding receive_buffer
receive_buffer-Frames {wire = []} inbuf w short = ap (λ c. inbuf ++ c) (sym (Frames-nil w refl))
receive_buffer-Frames {wire = x ∷ xs} inbuf w short =
    rw (lt→ltb 0 (suc (length xs)) (omega arith))
      (unwrap_frames-Frames w (suc (length xs)) [] inbuf short (omega arith))
