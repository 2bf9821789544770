-- ===== src/Quic/Datagram.antt =====
-- How `quic_send_packet` lays a VPN packet out in a datagram, and how the datagram event of
-- `quic_connection_callback` takes it apart (src/quic.c). A packet is the list of its bytes.
pub mod Header
pub mod RoundTrip
use tinc_quic.Common.{ℕ, zero, suc, ◌+◌, ◌-◌, ◌*◌, ◌/◌, ◌%◌, ◌^◌, ◌≤◌, ◌<◌, bit_and, bit_or}
use tinc_quic.Common.{◌≡◌, refl, sym, ap, ◌∙◌, ◌≢◌, ◌↔◌, ◌⊎◌, inl, inr, arith, Bool, true}
use tinc_quic.Common.{false, ◌&&◌, ◌||◌, not, Option, none, some, List, [], ◌∷◌, ◌++◌, map, ltb}
use tinc_quic.Common.{leb, ◌==◌, if◌then◌else◌, ◌>>=◌, length, u8, get_or, take, drop}
use tinc_quic.Common.{replicate}
use tinc_quic.Http3.Frame.{http3_parse_data_frame}
use tinc_quic.Padding.{PaddingMode, padding_off, padding_random, padding_buckets}
use tinc_quic.Padding.{max_padding_size, padding_magic, padding_remove}

-- The size of a pool buffer behind its `QUIC_BUFFER`.
abbrev pub buffer_room : ℕ
buffer_room = 2200

-- `MTU` and `MAXSIZE` of net.h, without jumbograms; a `node_id_t` has 6 bytes.
abbrev pub mtu : ℕ
mtu = 1518

abbrev pub maxsize : ℕ
maxsize = mtu + 4 + 6 + 6 + mtu / 64 + 20

-- The target of step 1. `(len + 127) & ~127` is written as a multiple of 128.
pub target_size : PaddingMode → ℕ → ℕ
target_size padding_random len =
    if ltb (max_padding_size + len) (len + 64) then max_padding_size + len else len + 64
target_size padding_buckets len = (len + 127) / 128 * 128
target_size padding_off len = len

-- Step 1: the padding of a packet of `len` bytes.
unfoldable pub padding_length : PaddingMode → ℕ → ℕ
unfolding target_size
padding_length mode len = if ltb len (target_size mode len) then target_size mode len - len else 0

-- Step 2: the room reserved for the HTTP/3 header, without and with masquerading.
unfoldable pub http3_header_length : Bool → ℕ → ℕ
http3_header_length false data_len = 0
http3_header_length true data_len =
    if ltb data_len 64
    then 2
    else if ltb data_len 16384
    then 3
    else if ltb data_len 1073741824
    then 5
    else 9

unfoldable pub padding_header_length : ℕ → ℕ
padding_header_length padding_len = if ltb 0 padding_len then 3 else 0

-- Step 3: the size of the datagram.
unfoldable pub total_size : Bool → PaddingMode → ℕ → ℕ
unfolding padding_length http3_header_length padding_header_length
total_size masquerading mode len =
    let padding_len = padding_length mode len in
    http3_header_length masquerading (len + padding_len)
    + padding_header_length padding_len
    + len
    + padding_len

-- Step 4 A: the HTTP/3 header written; `none` is a packet that is too large for it.
unfoldable pub http3_header : Bool → ℕ → Option (List ℕ)
http3_header false data_len = some []
http3_header true data_len =
    if ltb data_len 64
    then some (0x00 ∷ u8 data_len ∷ [])
    else if ltb data_len 16384
    then some (0x00 ∷ u8 (bit_or (data_len / 2 ^ 8) 0x40) ∷ u8 data_len ∷ [])
    else if ltb data_len 1073741824
    then some (
        0x00
        ∷ u8 (bit_or (data_len / 2 ^ 24) 0x80)
        ∷ u8 (data_len / 2 ^ 16)
        ∷ u8 (data_len / 2 ^ 8)
        ∷ u8 data_len
        ∷ [])
    else none

-- Step 4 B
unfoldable pub padding_header : ℕ → ℕ → List ℕ
padding_header padding_len payload_len =
    if ltb 0 padding_len then padding_magic ∷ u8 (payload_len / 2 ^ 8) ∷ u8 payload_len ∷ [] else []

-- Steps 1 to 4: the datagram, `total_size` bytes of the buffer from its start; `none` if the packet
-- is too large.
unfoldable pub build_datagram : Bool → PaddingMode → List ℕ → Option (List ℕ)
build_datagram masquerading mode packet =
    let len = length packet in
    let padding_len = padding_length mode len in
    let data_len = padding_header_length padding_len + len + padding_len in
    if ltb buffer_room (total_size masquerading mode len) then none else do
      header ← http3_header masquerading data_len
      some (
          take (total_size masquerading mode len)
            (header ++ (padding_header padding_len len ++ (packet ++ replicate padding_len 0))))

-- The payload of a DATA frame under masquerading; what is no DATA frame is taken as it is.
unfoldable pub unwrap : Bool → List ℕ → List ℕ
unwrap false datagram = datagram
unwrap true datagram = elim (http3_parse_data_frame datagram) [
  | some (off, len) ↦ take len (drop off datagram)
  | none ↦ datagram
]

-- A UDP probe: the bytes 12 and 13 are zero.
unfoldable pub is_udp_probe : List ℕ → Bool
is_udp_probe payload =
    leb 14 (length payload) && get_or payload 12 0 == 0 && get_or payload 13 0 == 0

-- `QUIC_CONNECTION_EVENT_DATAGRAM_RECEIVED`: the packet handed to `receive_packet`, `none` if the
-- datagram is dropped. `known` says that the connection has a node.
unfoldable pub receive_datagram : Bool → Bool → List ℕ → Option (List ℕ)
receive_datagram known masquerading datagram =
    let payload = unwrap masquerading datagram in
    if length datagram == 0 || ltb maxsize (length datagram) || not known then none else do
      (off, len) ← padding_remove payload
      let packet = take len (drop off payload)
      if ltb maxsize (length packet) || is_udp_probe packet then none else some packet
