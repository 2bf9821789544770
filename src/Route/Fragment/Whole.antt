-- ===== src/Route/Fragment/Whole.antt =====
-- The fragments of fragment_ipv4_packet together are the packet.

use tinc_quic.Common.{ℕ, zero, suc, ◌+◌, ◌-◌, ◌/◌, ◌%◌, ◌^◌, ◌≤◌, ◌<◌, bit_or, ◌≡◌, refl, sym}
use tinc_quic.Common.{ap, ◌∙◌, arith, true, false, List, [], ◌∷◌, ◌++◌, ltb, ◌==◌}
use tinc_quic.Common.{if◌then◌else◌, length, All, bytes_at, drop, IsByte, drop-drop}
use tinc_quic.Common.{drop-append, u16, ==_iff, bytes_at_split, length-append, get_or, ◌*◌}
use Prim.Native.Nat.{max}
use tinc_quic.Route.{Packet, inet_checksum, at, word}
use tinc_quic.Route.Checksum.{header, header_length}
use tinc_quic.Route.Checksum.Sums.{length-bytes_at}
use tinc_quic.Route.Fragment.{fragment_ipv4_packet, fragment_room, fragment_of, fragments_from}
use tinc_quic.Route.Fragment.{fragment_header}
use tinc_quic.Route.Fragment.Header.{bytes_at_middle, length-fragment_header}
use tinc_quic.Route.Fragment.Header.{fragment_header_valid}

fragment_contents :
    (a b c : List ℕ) (e n : ℕ)
    → length a ≡ e
    → length b ≡ n
    → (bytes_at (a ++ (b ++ c)) e n ≡ b) × (drop (e + n) (a ++ (b ++ c)) ≡ c)
fragment_contents a b c e n ha hb = (
  rw (sym ha, sym hb) (bytes_at_middle a b c),
  rw (sym ha, sym hb)
      (sym (drop-drop (length b) (length a) (a ++ (b ++ c)))
        ∙ ap (drop (length b)) (drop-append a (b ++ c))
        ∙ drop-append b c),
)

-- A fragment on its own, of at most `bound` bytes.
pub record IsFragment (bound : ℕ) (e : ℕ) (f : Packet) : Type 0 where
  pub within : f.len ≤ bound
  pub some_data : e + 20 < f.len
  pub whole_block : length f.contents ≡ f.len
  pub valid : inet_checksum (header e f) 0xFFFF ≡ 0

-- The data of fragments, one behind the other.
abbrev pub payloads : ℕ → List Packet → List ℕ
payloads e [] = []
payloads e (f ∷ fragments) = drop (e + 20) f.contents ++ payloads e fragments

module _ (e : ℕ) (p : Packet) (bytes : All IsByte p.contents) (version : at p e % 16 ≡ 5) where
  fragment_of-parts :
      (offset len ip_off : ℕ)
      → (inet_checksum (header e (fragment_of e p offset len ip_off)) 0xFFFF ≡ 0)
        × (drop (e + 20) (fragment_of e p offset len ip_off).contents
            ≡ bytes_at p.contents offset len)
        × (length (fragment_of e p offset len ip_off).contents ≡ e + 20 + len)
  unfolding fragment_of header fragment_header
  fragment_of-parts offset len ip_off =
      let c = inet_checksum (fragment_header e p (20 + len) ip_off 0) 0xFFFF in
      let b = fragment_header e p (20 + len) ip_off c in
      let piece = bytes_at p.contents offset len in
      let front = bytes_at p.contents 0 e in
      let (here, behind) =
        fragment_contents front b piece e 20 (length-bytes_at p.contents 0 e)
          (length-fragment_header e p (20 + len) ip_off c) in
      let first : at (fragment_of e p offset len ip_off) e ≡ at p e = ap (λ l. get_or l 0 0) here in
      let twenty : header_length e (fragment_of e p offset len ip_off) ≡ 20 =
        ap (λ n. n % 16 * 4) first ∙ ap (λ n. n * 4) version in
      (
        ap (λ n. inet_checksum (bytes_at (fragment_of e p offset len ip_off).contents e n) 0xFFFF)
              twenty
            ∙ ap (λ h. inet_checksum h 0xFFFF) here
            ∙ fragment_header_valid e p (20 + len) ip_off bytes (omega (arith, version)),
        behind,
        omega (
          arith,
          length-append front (b ++ piece),
          length-append b piece,
          length-bytes_at p.contents 0 e,
          length-bytes_at p.contents offset len,
          length-fragment_header e p (20 + len) ip_off c,
        ),
      )

  fragment_of-len : (offset len ip_off : ℕ) → (fragment_of e p offset len ip_off).len ≡ e + 20 + len
  unfolding fragment_of
  fragment_of-len offset len ip_off = refl

  fragment_of-IsFragment :
      (bound offset len ip_off : ℕ)
      → 0 < len
      → e + 20 + len ≤ bound
      → IsFragment bound e (fragment_of e p offset len ip_off)
  fragment_of-IsFragment bound offset len ip_off some_bytes room =
      let (valid, _, size) = fragment_of-parts offset len ip_off in
      let as_long : (fragment_of e p offset len ip_off).len ≡ e + 20 + len =
        fragment_of-len offset len ip_off in
      record {
        within = omega (arith, as_long, room);
        some_data = omega (arith, as_long, some_bytes);
        whole_block = size ∙ sym as_long;
        valid = valid;
      }

  -- The loop, with rounds enough.
  fragments_from_whole :
      (fuel bound maxlen origf offset todo ip_off : ℕ)
      → todo ≤ fuel
      → 0 < maxlen
      → e + 20 + maxlen ≤ bound
      → (payloads e (fragments_from fuel e p maxlen origf offset todo ip_off)
          ≡ bytes_at p.contents offset todo)
        × All (IsFragment bound e) (fragments_from fuel e p maxlen origf offset todo ip_off)
  unfolding fragments_from
  fragments_from_whole zero bound maxlen origf offset todo ip_off enough some_room room =
      let none_left : todo ≡ 0 = omega (arith, enough) in rw (none_left) (refl, tt)
  fragments_from_whole (suc fuel) bound maxlen origf offset zero ip_off enough some_room room =
      (refl, tt)
  fragments_from_whole (suc fuel) bound maxlen origf offset (suc n) ip_off enough some_room room =
      let todo = suc n in
      let len = if ltb maxlen todo then maxlen else todo in
      let more : ℕ = if todo - len == 0 then 0 else 0x2000 in
      let busy : (todo == 0) ≡ false = ground arith in
      let some_bytes : 0 < len = ground (arith, some_room) in
      let no_more : len ≤ todo = ground arith in
      let fits : len ≤ maxlen = ground arith in
      let whole : len + (todo - len) ≡ todo = omega (arith, no_more) in
      let off = bit_or (bit_or ip_off origf) more in
      let (_, piece, _) = fragment_of-parts offset len off in
      let (joined, all) =
        fragments_from_whole fuel bound maxlen origf (offset + len) (todo - len)
          (u16 (ip_off + len / 8)) (omega (arith, enough, some_bytes, no_more)) some_room room in
      let this : IsFragment bound e (fragment_of e p offset len off) =
        fragment_of-IsFragment bound offset len off some_bytes (omega (arith, fits, room)) in
      rw (busy) (
        rw (piece, joined)
            (sym (bytes_at_split p.contents offset len (todo - len))
              ∙ ap (bytes_at p.contents offset) whole),
        (this, all),
      )

-- If the header of an IPv4 packet has no options and gives its length, then fragment_ipv4_packet
-- makes fragments whose data together are those of the packet, in order. Each has some data, at
-- most as many bytes as the MTU, or 590 if that is more, and a header with a valid checksum.
pub fragment_ipv4_packet_whole :
    (mtu e : ℕ) (p : Packet)
    → All IsByte p.contents
    → e ≤ 18
    → at p e % 16 ≡ 5
    → e + word p (e + 2) ≡ p.len
    → (payloads e (fragment_ipv4_packet mtu e p) ≡ bytes_at p.contents (e + 20) (p.len - (e + 20)))
      × All (IsFragment (max mtu 590) e) (fragment_ipv4_packet mtu e p)
unfolding fragment_ipv4_packet fragment_room
fragment_ipv4_packet_whole mtu e p bytes small version as_long =
    let ip_len = word p (e + 2) in
    let size : ip_len - 20 ≡ p.len - (e + 20) = omega (arith, as_long) in
    let top = max mtu 590 in
    let least : 590 ≤ top = omega arith in
    let room = top - e - 20 in
    let off = word p (e + 6) in
    let no_options : (at p e % 16 == 5) ≡ true = (==_iff (at p e % 16) 5).1 version in
    let lengths : (e + ip_len == p.len) ≡ true = (==_iff (e + ip_len) p.len).1 as_long in
    rw (no_options, lengths, sym size)
      (fragments_from_whole e p bytes version (ip_len - 20) top (room - room % 8)
        (off - off % 2 ^ 13) (e + 20) (ip_len - 20) (off % 2 ^ 13) (omega arith)
        (omega (arith, least, small)) (omega (arith, least, small)))
