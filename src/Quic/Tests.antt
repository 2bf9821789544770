-- ===== src/Quic/Tests.antt =====
-- Runs of src/quic.c's framing, and its theorems at concrete inputs.
use tinc_quic.Common.{ℕ, ◌≤◌, ◌<◌, ◌≡◌, refl, inl, arith, true, false, some, List, [], ◌∷◌}
use tinc_quic.Common.{◌++◌, length, replicate, codes, get_or, ◌⊎◌, All}
use tinc_quic.Http3.Frame.{http3_create_data_frame, http3_encode_frame_header}
use tinc_quic.Http3.Varint.{http3_encode_varint}
use tinc_quic.Padding.{padding_random}
use tinc_quic.Quic.Datagram.{build_datagram, http3_header, is_udp_probe, padding_length}
use tinc_quic.Quic.Datagram.{receive_datagram, maxsize, total_size, padding_header}
use tinc_quic.Quic.Datagram.Header.{http3_header-encode_frame_header}
use tinc_quic.Quic.Datagram.RoundTrip.{body, receive_datagram-build_datagram}
use tinc_quic.Quic.Datagram.RoundTrip.{build_datagram_form}
use tinc_quic.Quic.Pool.{Pool, acquire_buffer, find_free, pooled, release_buffer, allocated}
use tinc_quic.Quic.Pool.{release_buffer-acquire_buffer}
use tinc_quic.Quic.Stream.{receive_buffer}
use tinc_quic.Quic.Stream.Frames.{Frames, data_frame, receive_buffer-Frames, done}
use tinc_quic.Quic.Stream.Split.{receive_buffer_cut}

-- A packet of 20 bytes, with an Ethernet type.
abbrev packet : List ℕ
packet = replicate 12 2 ++ (8 ∷ 0 ∷ 1 ∷ 2 ∷ 3 ∷ 4 ∷ 5 ∷ 6 ∷ [])

datagram : List ℕ
datagram = 0 ∷ 0x40 ∷ 87 ∷ 0xFD ∷ 0 ∷ 20 ∷ (packet ++ replicate 64 0)

build_packet : build_datagram true padding_random packet ≡ some datagram
unfolding build_datagram total_size http3_header padding_header datagram
build_packet = refl

build_datagram_form_example :
    (header : List ℕ) × (http3_header true (length (body padding_random packet)) ≡ some header)
    × (datagram ≡ header ++ body padding_random packet)
    × (length datagram ≡ total_size true padding_random 20)
    × (length datagram ≤ 2200)
build_datagram_form_example = build_datagram_form true padding_random packet datagram build_packet

no_probe : is_udp_probe packet ≡ false
unfolding is_udp_probe
no_probe = refl

length-datagram : length datagram ≤ maxsize
unfolding datagram
length-datagram = omega arith

has_padding : 0 < padding_length padding_random 20
unfolding padding_length
has_padding = omega arith

receive_datagram-build_datagram_example : receive_datagram true true datagram ≡ some packet
receive_datagram-build_datagram_example =
    receive_datagram-build_datagram true padding_random packet datagram build_packet (omega arith)
      length-datagram no_probe (inl has_padding)

http3_header-encode_frame_header_example : http3_header true 87 ≡ http3_encode_frame_header 0 87 100
http3_header-encode_frame_header_example =
    http3_header-encode_frame_header 87 100 (omega arith) (omega arith)

create_hi : http3_create_data_frame (codes "hi") 34 ≡ some (0 ∷ 2 ∷ codes "hi")
unfolding http3_create_data_frame http3_encode_frame_header http3_encode_varint
create_hi = refl

create_ok : http3_create_data_frame (codes "ok\n") 35 ≡ some (0 ∷ 3 ∷ codes "ok\n")
unfolding http3_create_data_frame http3_encode_frame_header http3_encode_varint
create_ok = refl

two-Frames : Frames (0 ∷ 2 ∷ (codes "hi" ++ (0 ∷ 3 ∷ codes "ok\n"))) (codes "hiok\n")
two-Frames =
    data_frame (codes "hi") (0 ∷ 2 ∷ codes "hi") 34 (omega arith) create_hi
      (data_frame (codes "ok\n") (0 ∷ 3 ∷ codes "ok\n") 35 (omega arith) create_ok done)

receive_buffer-Frames_example :
    receive_buffer true false (codes "> ") (0 ∷ 2 ∷ (codes "hi" ++ (0 ∷ 3 ∷ codes "ok\n")))
    ≡ codes "> hiok\n"
receive_buffer-Frames_example = receive_buffer-Frames (codes "> ") two-Frames (omega arith)

header_2 : http3_encode_frame_header 0 2 34 ≡ some (0 ∷ 2 ∷ [])
unfolding http3_encode_frame_header http3_encode_varint
header_2 = refl

receive_buffer_cut_example : receive_buffer true false [] (0 ∷ 2 ∷ codes "h") ≡ 0 ∷ 2 ∷ codes "h"
receive_buffer_cut_example =
    receive_buffer_cut 2 34 (0 ∷ 2 ∷ []) (codes "h") [] (omega arith) header_2 (omega arith)

-- The first of three buffers is in use.
abbrev pool : Pool
pool = record { initialized = true; in_use = true ∷ false ∷ false ∷ [] }

second_buffer :
    acquire_buffer pool
    ≡ (pooled 1, record { initialized = true; in_use = true ∷ true ∷ false ∷ [] })
unfolding acquire_buffer find_free
second_buffer = refl

release_buffer-acquire_buffer_example :
    ((i : ℕ) × ((acquire_buffer pool).0 ≡ pooled i)
      × (get_or pool.in_use i true ≡ false)
      × (get_or (acquire_buffer pool).1.in_use i false ≡ true)
      × ((j : ℕ) → j < i → get_or pool.in_use j false ≡ true)
      × (release_buffer (pooled i) ((acquire_buffer pool).1) ≡ (false, pool)))
    ⊎ ((acquire_buffer pool ≡ (allocated, pool))
        × All (λ b. b ≡ true) pool.in_use
        × (release_buffer allocated pool ≡ (true, pool)))
release_buffer-acquire_buffer_example = release_buffer-acquire_buffer pool refl
