-- ===== src/Route.antt =====
-- src/route.c: a packet that arrives from a node or the device, and where it goes. Nodes are given
-- by their names, which are unique. What a function does with a packet at last is an action; the
-- bodies of the ICMP replies and of neighbour advertisements are not modelled.
pub mod Checksum
pub mod Clamp
pub mod Limit
mod Tests
pub mod Forward
pub mod Fragment
use tinc_quic.Common.{ℕ, zero, suc, ◌+◌, ◌-◌, ◌*◌, ◌/◌, ◌%◌, ◌^◌, ◌≤◌, ◌<◌, bit_and, bit_or}
use tinc_quic.Common.{◌≡◌, refl, sym, ap, ◌∙◌, ◌≢◌, ◌↔◌, ◌⊎◌, inl, inr, arith, Bool, true}
use tinc_quic.Common.{false, ◌&&◌, ◌||◌, not, Option, none, some, List, [], ◌∷◌, ◌++◌, map, ltb}
use tinc_quic.Common.{leb, ◌==◌, if◌then◌else◌, ◌>>=◌, bit_xor, get_or, set, u32, u8}

-- `contents` is the block behind DATA(packet).
pub record Packet : Type 0 where
  pub contents : List ℕ
  pub len : ℕ
  pub priority : ℕ

-- The nodes, as far as routing looks at them, and the options of the daemon. `options` are a node's.
pub record Router : Type 0 where
  pub myself : List ℕ
  pub reachable : List ℕ → Bool
  pub via : List ℕ → Option (List ℕ)
  pub nexthop : List ℕ → Option (List ℕ)
  pub node_mtu : List ℕ → ℕ
  pub options : List ℕ → ℕ
  pub forwarding_off : Bool
  pub decrement_ttl : Bool
  pub priorityinheritance : Bool
  pub directonly : Bool

-- The replies carry the size of the Ethernet header, their type and code, and the packet.
pub data Action : Type 0 where
  dropped : Action
  unreachable_ipv4 : ℕ → ℕ → ℕ → Packet → Action
  unreachable_ipv6 : ℕ → ℕ → ℕ → Packet → Action
  broadcast_packet : Packet → Action
  route_neighborsol : Packet → Action
  send_fragments : List ℕ → List Packet → Action
  send_packet : List ℕ → Packet → Action

abbrev pub at : Packet → ℕ → ℕ
at p i = get_or p.contents i 0

-- Two bytes in network order
abbrev pub word : Packet → ℕ → ℕ
word p i = at p i * 2 ^ 8 + at p (i + 1)

-- `while(checksum >> 16)`, on rounds; a 32-bit sum needs two.
unfoldable pub fold_carries : ℕ → ℕ → ℕ
fold_carries zero checksum = checksum
fold_carries (suc n) checksum =
    let rest = fold_carries n (checksum % 2 ^ 16 + checksum / 2 ^ 16) in
    if checksum / 2 ^ 16 == 0 then checksum else rest

-- The sum of the little-endian words, and of a last byte.
unfoldable pub sum_words : List ℕ → ℕ → ℕ
sum_words [] checksum = checksum
sum_words (x ∷ []) checksum = u32 (checksum + x)
sum_words (x ∷ y ∷ vdata) checksum = sum_words vdata (u32 (checksum + (x + y * 2 ^ 8)))

-- `~checksum`, cut to 16 bits
unfoldable pub inet_checksum : List ℕ → ℕ → ℕ
inet_checksum vdata prevsum =
    2 ^ 16 - 1 - fold_carries 2 (sum_words vdata (bit_xor prevsum 0xFFFF)) % 2 ^ 16

pub record Limiter : Type 0 where
  pub lasttime : ℕ
  pub count : ℕ

-- `true` asks the caller to be silent.
unfoldable pub ratelimit : ℕ → ℕ → Limiter → Bool × Limiter
ratelimit frequency now s =
    if s.lasttime == now
    then if leb frequency s.count
      then (true, s)
      else (false, record { lasttime = s.lasttime; count = s.count + 1 })
    else (false, record { lasttime = now; count = 1 })

abbrev pub checklength : Packet → ℕ → Bool
checklength p length = not (ltb p.len length)

abbrev pub ether_size : ℕ
ether_size = 14

-- The constants of src/ethernet.h, src/ipv4.h and src/ipv6.h.
abbrev pub eth_p_ip : ℕ
eth_p_ip = 0x0800

abbrev pub eth_p_ipv6 : ℕ
eth_p_ipv6 = 0x86DD

abbrev pub eth_p_8021q : ℕ
eth_p_8021q = 0x8100

abbrev pub ip_size : ℕ
ip_size = 20

abbrev pub ip6_size : ℕ
ip6_size = 40

abbrev pub icmp_time_exceeded : ℕ
icmp_time_exceeded = 11

abbrev pub icmp6_time_exceeded : ℕ
icmp6_time_exceeded = 3

abbrev pub tagged : Packet → Bool
tagged p = word p 12 == eth_p_8021q

-- The type, and the size of the header, behind a VLAN tag if there is one
abbrev pub packet_type : Packet → ℕ
packet_type p = if tagged p then word p 16 else word p 12

abbrev pub ethlen : Packet → ℕ
ethlen p = if tagged p then ether_size + 4 else ether_size

-- The packet with the changed bytes, or what is done instead.
pub data Ttl : Type 0 where
  go_on : Packet → Ttl
  stop : Action → Ttl

-- The time to live at `e + 8` and the checksum at `e + 10`.
unfoldable pub lower_ttl : ℕ → Packet → Packet
lower_ttl e p =
    let old = word p (e + 8) in
    let lowered : Packet = record p { contents = set p.contents (e + 8) (at p (e + 8) - 1) } in
    let checksum =
      fold_carries 2 (word lowered (e + 10) + (old + (2 ^ 16 - 1 - word lowered (e + 8)))) in
    record lowered {
      contents =
          set (set lowered.contents (e + 10) (u8 (checksum / 2 ^ 8))) (e + 11) (checksum % 2 ^ 8);
    }

unfoldable pub decrement_ipv4 : ℕ → Packet → Ttl
decrement_ipv4 e p =
    if not (checklength p (e + ip_size))
    then stop dropped
    else if leb (at p (e + 8)) 1
    then if not (at p (e + 11) == 1) || not (at p (e + 32) == icmp_time_exceeded)
      then stop (unreachable_ipv4 e icmp_time_exceeded 0 p)
      else stop dropped
    else go_on (lower_ttl e p)

unfoldable pub decrement_ipv6 : ℕ → Packet → Ttl
decrement_ipv6 e p =
    if not (checklength p (e + ip6_size))
    then stop dropped
    else if leb (at p (e + 7)) 1
    then if not (at p (e + 6) == 58) || not (at p (e + 40) == icmp6_time_exceeded)
      then stop (unreachable_ipv6 e icmp6_time_exceeded 0 p)
      else stop dropped
    else go_on (record p { contents = set p.contents (e + 7) (at p (e + 7) - 1) })

unfoldable pub do_decrement_ttl : Packet → Ttl
do_decrement_ttl p =
    if packet_type p == eth_p_ip
    then decrement_ipv4 (ethlen p) p
    else if packet_type p == eth_p_ipv6
    then decrement_ipv6 (ethlen p) p
    else go_on p
