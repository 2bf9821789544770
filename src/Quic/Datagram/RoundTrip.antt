-- ===== src/Quic/Datagram/RoundTrip.antt =====
-- What `quic_send_packet` lays out, the datagram event takes apart.
use tinc_quic.Common.{ℕ, zero, suc, ◌+◌, ◌^◌, ◌≤◌, ◌<◌, ◌≡◌, refl, sym, ◌∙◌, ◌≢◌, ◌⊎◌, inl, inr}
use tinc_quic.Common.{arith, Bool, true, false, some, List, ◌++◌, ltb, length, length-append}
use tinc_quic.Common.{replicate, length-replicate, Bool-cases, Option-cases, take_all, get_or}
use tinc_quic.Common.{take, drop, drop-append, take-append, lt→ltb}
use mathlib.Core.List.{append-nil}
use tinc_quic.Http3.Frame.{http3_encode_frame_header, frame_data, http3_parse_data_frame}
use tinc_quic.Http3.Frame.Data.{decode_frame_header-encode_frame_header}
use tinc_quic.Padding.{PaddingMode, padding_off, padding_random, padding_buckets, padding_magic}
use tinc_quic.Padding.{padding_remove}
use tinc_quic.Padding.Packet.{padding_remove_plain, padding_remove-header}
use tinc_quic.Quic.Datagram.{http3_header, padding_header, padding_length, total_size}
use tinc_quic.Quic.Datagram.{http3_header_length, padding_header_length, buffer_room}
use tinc_quic.Quic.Datagram.{build_datagram, unwrap, receive_datagram, maxsize, is_udp_probe}
use tinc_quic.Quic.Datagram.Header.{http3_header-encode_frame_header}

-- The bytes of the datagram behind the HTTP/3 header.
abbrev pub body : PaddingMode → List ℕ → List ℕ
body mode packet =
    let padding_len = padding_length mode (length packet) in
    padding_header padding_len (length packet) ++ (packet ++ replicate padding_len 0)

length-body :
    (mode : PaddingMode) (packet : List ℕ)
    → let padding_len = padding_length mode (length packet) in
      length (body mode packet) ≡ padding_header_length padding_len + length packet + padding_len
unfolding padding_header padding_header_length
length-body mode packet =
    let n = padding_length mode (length packet) in
    ground (arith, length-append packet (replicate n 0), length-replicate n (zero))

-- A packet with padding fills 64 bytes at least, so the three bytes of the padding header, which
-- step 2 leaves out, do not change the size of the HTTP/3 header.
padding_length_min :
    (mode : PaddingMode) (len : ℕ)
    → 0 < padding_length mode len
    → 64 ≤ len + padding_length mode len
unfolding padding_length
padding_length_min padding_off len h = ground arith
padding_length_min padding_random len h = ground arith
padding_length_min padding_buckets len h = ground arith

length-http3_header :
    (masquerading : Bool) (data_len : ℕ) (header : List ℕ)
    → http3_header masquerading data_len ≡ some header
    → length header ≡ http3_header_length masquerading data_len
unfolding http3_header http3_header_length
length-http3_header false data_len header h = ground arith
length-http3_header true data_len header h = ground arith

header_room :
    (masquerading : Bool) (mode : PaddingMode) (len : ℕ)
    → total_size masquerading mode len ≤ buffer_room
    → let padding_len = padding_length mode len in
      http3_header_length masquerading (len + padding_len)
      ≡ http3_header_length masquerading (padding_header_length padding_len + len + padding_len)
unfolding total_size http3_header_length padding_header_length
header_room false mode len h = refl
header_room true mode len h = ground (arith, padding_length_min mode len)

-- The size reserved in steps 1 to 3 is the number of bytes that step 4 writes.
total_size-body :
    (masquerading : Bool) (mode : PaddingMode) (packet header : List ℕ)
    → total_size masquerading mode (length packet) ≤ buffer_room
    → http3_header masquerading (length (body mode packet)) ≡ some header
    → length (header ++ body mode packet) ≡ total_size masquerading mode (length packet)
total_size-body masquerading mode packet header fits e =
    let n : ℕ = length packet in
    let parts : total_size masquerading mode n
        ≡ http3_header_length masquerading (n + padding_length mode n)
          + padding_header_length (padding_length mode n)
          + n
          + padding_length mode n =
      unfold total_size in refl in
    ground (
      arith,
      parts,
      length-append header (body mode packet),
      length-http3_header masquerading (length (body mode packet)) header e,
      header_room masquerading mode n fits,
      length-body mode packet,
    )

-- A datagram is the HTTP/3 header, the padding header, the packet and the padding, whole: the size
-- reserved before the buffer is filled is the number of bytes written to it, and the buffer has
-- room for them.
pub build_datagram_form :
    (masquerading : Bool) (mode : PaddingMode) (packet datagram : List ℕ)
    → build_datagram masquerading mode packet ≡ some datagram
    → (header : List ℕ) × (http3_header masquerading (length (body mode packet)) ≡ some header)
      × (datagram ≡ header ++ body mode packet)
      × (length datagram ≡ total_size masquerading mode (length packet))
      × (length datagram ≤ buffer_room)
unfolding build_datagram
build_datagram_form masquerading mode packet datagram h =
    elim (Bool-cases (ltb buffer_room (total_size masquerading mode (length packet)))) [
      | inl large ↦ absurd (ground arith)
      | inr fits ↦ elim (Option-cases (http3_header masquerading (length (body mode packet)))) [
        | inl e ↦ absurd (ground (arith, length-body mode packet))
        | inr (header, e) ↦
            let whole = total_size-body masquerading mode packet header (ground arith) e in
            let form : datagram ≡ header ++ body mode packet = ground (
              arith,
              length-body mode packet,
              take_all (total_size masquerading mode (length packet)) (header ++ body mode packet)
                  (omega (arith, whole)),
            ) in
            (header, e, form, rw form whole, rw form (rw whole (ground arith)))
      ]
    ]

-- Under masquerading the receiver finds the body in the DATA frame; without it there is no frame.
unwrap-header :
    (masquerading : Bool) (header payload : List ℕ)
    → length payload < 2 ^ 30
    → http3_header masquerading (length payload) ≡ some header
    → unwrap masquerading (header ++ payload) ≡ payload
unfolding unwrap http3_header
unwrap-header false header payload small e = ground arith
unwrap-header true header payload small e =
    let encoded : http3_encode_frame_header frame_data (length payload) 9 ≡ some header =
      sym (http3_header-encode_frame_header (length payload) 9 small (omega arith)) ∙ e in
    let (back, _, len) =
      decode_frame_header-encode_frame_header frame_data (length payload) 9 header payload
        (omega arith) (omega arith) encoded in
    let parsed : http3_parse_data_frame (header ++ payload) ≡ some (length header, length payload) =
      unfold http3_parse_data_frame in ground (arith, back, len, length-append header payload) in
    rw (parsed, unwrap, drop-append header payload)
      (take_all (length payload) payload (omega arith))

-- The body of a packet with padding, or of one that does not look like it, gives the packet back.
padding_remove-padded :
    (n : ℕ) (packet : List ℕ)
    → 0 < length packet
    → length packet < 2 ^ 16
    → (0 < n) ⊎ (get_or packet 0 0 ≢ padding_magic)
    → (off : ℕ) × (padding_remove (padding_header n (length packet) ++ (packet ++ replicate n 0))
        ≡ some (off, length packet))
      × (take
            (length packet)
            (drop off (padding_header n (length packet) ++ (packet ++ replicate n 0)))
          ≡ packet)
unfolding padding_header
padding_remove-padded zero packet pos fits clear = (
  0,
  rw append-nil ((padding_remove_plain packet).0 pos (ground arith)),
  rw append-nil (take_all (length packet) packet (omega arith)),
)
padding_remove-padded (suc n) packet pos fits clear = (
  3,
  rw (lt→ltb 0 (suc n) (omega arith)) (padding_remove-header packet (replicate (suc n) 0) pos fits),
  rw (lt→ltb 0 (suc n) (omega arith)) (take-append packet (replicate (suc n) 0)),
)

-- A packet that `quic_send_packet` laid out, in any padding mode, with or without masquerading,
-- arrives as it was: the receiver with the same masquerading setting hands exactly its bytes to
-- `receive_packet`. The datagram has at most MAXSIZE bytes, the packet is no UDP probe, and it has
-- padding or does not begin with the magic byte of padding.
pub receive_datagram-build_datagram :
    (masquerading : Bool) (mode : PaddingMode) (packet datagram : List ℕ)
    → build_datagram masquerading mode packet ≡ some datagram
    → 0 < length packet
    → length datagram ≤ maxsize
    → is_udp_probe packet ≡ false
    → (0 < padding_length mode (length packet)) ⊎ (get_or packet 0 0 ≢ padding_magic)
    → receive_datagram true masquerading datagram ≡ some packet
unfolding receive_datagram
receive_datagram-build_datagram masquerading mode packet datagram h pos small no_probe clear =
    let (header, e, form, _, room) = build_datagram_form masquerading mode packet datagram h in
    let sum : length datagram ≡ length header + length (body mode packet) =
      rw form (length-append header (body mode packet)) in
    let inner : unwrap masquerading datagram ≡ body mode packet =
      rw form (unwrap-header masquerading header (body mode packet) (omega (arith, sum)) e) in
    let held = length-body mode packet in
    let (off, removed, taken) =
      padding_remove-padded (padding_length mode (length packet)) packet pos
        (omega (arith, sum, held)) clear in
    ground (arith, sum, inner, held, removed, taken, no_probe)
