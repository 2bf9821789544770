-- ===== src/Route/Clamp.antt =====
-- clamp_mss of src/route.c: the maximum segment size that a TCP connection is opened with.
pub mod Laws
use tinc_quic.Common.{ℕ, zero, suc, ◌+◌, ◌-◌, ◌*◌, ◌/◌, ◌%◌, ◌^◌, ◌≤◌, ◌<◌, bit_and, bit_or}
use tinc_quic.Common.{◌≡◌, refl, sym, ap, ◌∙◌, ◌≢◌, ◌↔◌, ◌⊎◌, inl, inr, arith, Bool, true}
use tinc_quic.Common.{false, ◌&&◌, ◌||◌, not, Option, none, some, List, [], ◌∷◌, ◌++◌, map, ltb}
use tinc_quic.Common.{leb, ◌==◌, if◌then◌else◌, ◌>>=◌, bytes_eq, bit_xor, u16, set, u8}
use tinc_quic.Route.{Packet, Router, at, packet_type, word, eth_p_ip, eth_p_ipv6, ethlen}

-- The MSS of the option at `i`, and the checksum of TCP for it.
unfoldable pub write_mss : ℕ → ℕ → ℕ → Packet → Packet
write_mss start i newmss p =
    let oldmss = word p (start + 22 + i) in
    let csum = bit_xor (word p (start + 16)) 0xFFFF + bit_xor oldmss 0xFFFF + newmss in
    let once = csum % 2 ^ 16 + csum / 2 ^ 16 in
    let folded = bit_xor (once + once / 2 ^ 16) 0xFFFF in
    let high = set p.contents (start + 22 + i) (newmss / 2 ^ 8) in
    let low = set high (start + 23 + i) (newmss % 2 ^ 8) in
    if leb oldmss newmss then p else record p {
      contents = set (set low (start + 16) (u8 (folded / 2 ^ 8))) (start + 17) (u8 folded);
    }

-- The loop over the `len` bytes of options from `i` on; a round takes a byte at least. The length of
-- the MSS option is read at `start + 21`, without `i`.
pub search_mss : ℕ → ℕ → ℕ → ℕ → ℕ → Packet → Packet
search_mss zero start len i newmss p = p
search_mss (suc fuel) start len i newmss p =
    let kind = at p (start + 20 + i) in
    let size = at p (start + 21 + i) in
    let padded = search_mss fuel start len (i + 1) newmss p in
    let next = search_mss fuel start len (i + size) newmss p in
    if leb len i
    then p
    else if kind == 0
    then p
    else if kind == 1
    then padded
    else if ltb len (i + 2) || ltb len (i + size)
    then p
    else if not (kind == 2)
    then if ltb size 2 then p else next
    else if not (at p (start + 21) == 4)
    then p
    else write_mss start i newmss p

-- Where an inner IP header starts: `type` is ETH_P_IP for IP in IP.
unfoldable pub inner_start : Packet → ℕ
inner_start p =
    if packet_type p == eth_p_ip && at p (ethlen p + 9) == 4 then ethlen p + 20 else ethlen p

-- Where the TCP header starts, if there is one.
unfoldable pub tcp_start : Packet → Option ℕ
tcp_start p =
    let start = inner_start p in
    if leb p.len (start + 20)
    then none
    else if packet_type p == eth_p_ip && at p (start + 9) == 6
    then some (start + at p start % 16 * 4)
    else if packet_type p == eth_p_ipv6 && at p (start + 6) == 6
    then some (start + 40)
    else none

-- A negative length of the options is one of 0 here: the loop does nothing either way.
unfoldable pub clamp_tcp : ℕ → ℕ → Packet → Packet
clamp_tcp mtu start p =
    let len = (at p (start + 12) / 2 ^ 4 - 5) * 4 in
    if leb p.len (start + 20) || ltb p.len (start + 20 + len)
    then p
    else search_mss len start len 0 (u16 (mtu + 2 ^ 16 - (start + 20))) p

-- `via->options & OPTION_CLAMP_MSS`, and the smaller of two MTUs.
unfoldable pub clamp_mss : Router → List ℕ → List ℕ → Packet → Packet
clamp_mss r source via p =
    let mtu =
      if not (bytes_eq via r.myself) && ltb (r.node_mtu via) (r.node_mtu source)
      then r.node_mtu via
      else r.node_mtu source in
    if not (r.options via / 2 ^ 3 % 2 == 1)
    then p
    else elim (tcp_start p) [ none ↦ p | some start ↦ clamp_tcp mtu start p ]
