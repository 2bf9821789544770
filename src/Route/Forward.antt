-- ===== src/Route/Forward.antt =====
-- route_ipv4 and route_ipv6 of src/route.c.
pub mod Sends
pub mod Way
pub mod Tested
use tinc_quic.Common.{ℕ, zero, suc, ◌+◌, ◌-◌, ◌*◌, ◌/◌, ◌%◌, ◌^◌, ◌≤◌, ◌<◌, bit_and, bit_or}
use tinc_quic.Common.{◌≡◌, refl, sym, ap, ◌∙◌, ◌≢◌, ◌↔◌, ◌⊎◌, inl, inr, arith, Bool, true}
use tinc_quic.Common.{false, ◌&&◌, ◌||◌, not, Option, none, some, List, [], ◌∷◌, ◌++◌, map, ltb}
use tinc_quic.Common.{leb, ◌==◌, if◌then◌else◌, ◌>>=◌, bytes_eq, bytes_at}
use Prim.Native.Nat.{max}
use tinc_quic.Route.{Packet, Router, Action, at, checklength, dropped, unreachable_ipv4}
use tinc_quic.Route.{unreachable_ipv6, ether_size, do_decrement_ttl, ip6_size, ip_size}
use tinc_quic.Route.{send_packet, go_on, route_neighborsol, stop, Ttl, broadcast_packet}
use tinc_quic.Route.{send_fragments}
use tinc_quic.Route.Clamp.{clamp_mss}
use tinc_quic.Route.Fragment.{fragment_ipv4_packet}
use tinc_quic.Subnet.{Subnet}
use tinc_quic.Subnet.Lookup.{SubnetState, lookup_subnet_ipv4, lookup_subnet_ipv6}

abbrev pub is_node : Option (List ℕ) → List ℕ → Bool
is_node none name = false
is_node (some v) name = bytes_eq v name

-- `via`
unfoldable pub next_via : Router → List ℕ → Option (List ℕ)
next_via r owner = if is_node (r.via owner) r.myself then r.nexthop owner else r.via owner

-- Neither end of the packet is this node.
unfoldable pub in_transit : Router → List ℕ → List ℕ → Bool
in_transit r source owner = not (bytes_eq source r.myself) && not (bytes_eq owner r.myself)

-- `packet->len > MAX(via->mtu, least) && via != myself`
unfoldable pub too_large : Router → ℕ → List ℕ → Packet → Bool
too_large r least via p = ltb (max (r.node_mtu via) least) p.len && not (bytes_eq via r.myself)

-- `packet->len = MAX(via->mtu, least)`
abbrev pub shortened : Router → ℕ → List ℕ → Packet → Packet
shortened r least via p = record p { len = max (r.node_mtu via) least }

-- The end of it, with `via`.
unfoldable pub hand_over_ipv4 : Router → List ℕ → List ℕ → Packet → Option (List ℕ) → Action
hand_over_ipv4 r source owner p none = send_packet owner p
hand_over_ipv4 r source owner p (some via) =
    if too_large r 590 via p
    then if at p 20 / 2 ^ 6 % 2 == 1
      then unreachable_ipv4 ether_size 3 4 (shortened r 590 via p)
      else send_fragments via (fragment_ipv4_packet (r.node_mtu via) ether_size p)
    else send_packet owner (clamp_mss r source via p)

-- From the choice of `via` on.
unfoldable pub deliver_ipv4 : Router → List ℕ → List ℕ → Packet → Action
deliver_ipv4 r source owner p =
    if is_node (next_via r owner) source
    then dropped
    else if r.directonly && not (is_node (next_via r owner) owner)
    then unreachable_ipv4 ether_size 3 9 p
    else hand_over_ipv4 r source owner p (next_via r owner)

unfoldable pub inherit_ipv4 : Router → Packet → Packet
inherit_ipv4 r p = if r.priorityinheritance then record p { priority = at p 15 } else p

unfoldable pub after_ttl_ipv4 : Router → List ℕ → List ℕ → Ttl → Action
after_ttl_ipv4 r source owner (stop action) = action
after_ttl_ipv4 r source owner (go_on p) = deliver_ipv4 r source owner (inherit_ipv4 r p)

-- From the owner of the subnet on.
unfoldable pub forward_ipv4 : Router → List ℕ → List ℕ → Packet → Action
forward_ipv4 r source owner p =
    if bytes_eq owner source
    then dropped
    else if not (r.reachable owner)
    then unreachable_ipv4 ether_size 3 0 p
    else if r.forwarding_off && in_transit r source owner
    then unreachable_ipv4 ether_size 3 9 p
    else elim (if r.decrement_ttl && in_transit r source owner
        then do_decrement_ttl p
        else go_on p) [
          | stop action ↦ action
          | go_on p' ↦ deliver_ipv4 r source owner (inherit_ipv4 r p')
        ]

abbrev pub broadcast : Ttl → Action
broadcast (stop action) = action
broadcast (go_on p) = broadcast_packet p

unfoldable pub route_broadcast : Router → List ℕ → Packet → Action
route_broadcast r source p =
    broadcast
      (if r.decrement_ttl && not (bytes_eq source r.myself) then do_decrement_ttl p else go_on p)

unfoldable pub route_found_ipv4 : Router → List ℕ → Packet → Option Subnet → Action
route_found_ipv4 r source p found = elim found [
  | none ↦ unreachable_ipv4 ether_size 3 6 p
  | some subnet ↦ elim subnet.owner [
    | none ↦ route_broadcast r source p
    | some owner ↦ forward_ipv4 r source owner p
  ]
]

unfoldable pub route_ipv4 : Router → SubnetState → List ℕ → Packet → Action × SubnetState
route_ipv4 r subnets source p =
    if not (checklength p (ether_size + ip_size))
    then (dropped, subnets)
    else let looked_up = lookup_subnet_ipv4 r.reachable subnets (bytes_at p.contents 30 4) in
      (route_found_ipv4 r source p (looked_up.0), looked_up.1)

-- The end of it, with `via`.
unfoldable pub hand_over_ipv6 : Router → List ℕ → List ℕ → Packet → Option (List ℕ) → Action
hand_over_ipv6 r source owner p none = send_packet owner p
hand_over_ipv6 r source owner p (some via) =
    if too_large r 1294 via p
    then unreachable_ipv6 ether_size 2 0 (shortened r 1294 via p)
    else send_packet owner (clamp_mss r source via p)

unfoldable pub deliver_ipv6 : Router → List ℕ → List ℕ → Packet → Action
deliver_ipv6 r source owner p =
    if is_node (next_via r owner) source
    then dropped
    else if r.directonly && not (is_node (next_via r owner) owner)
    then unreachable_ipv6 ether_size 1 1 p
    else hand_over_ipv6 r source owner p (next_via r owner)

-- The traffic class
unfoldable pub inherit_ipv6 : Router → Packet → Packet
inherit_ipv6 r p =
    if r.priorityinheritance
    then record p { priority = at p 14 % 16 * 2 ^ 4 + at p 15 / 2 ^ 4 }
    else p

unfoldable pub after_ttl_ipv6 : Router → List ℕ → List ℕ → Ttl → Action
after_ttl_ipv6 r source owner (stop action) = action
after_ttl_ipv6 r source owner (go_on p) = deliver_ipv6 r source owner (inherit_ipv6 r p)

unfoldable pub forward_ipv6 : Router → List ℕ → List ℕ → Packet → Action
forward_ipv6 r source owner p =
    if bytes_eq owner source
    then dropped
    else if not (r.reachable owner)
    then unreachable_ipv6 ether_size 1 0 p
    else if r.forwarding_off && in_transit r source owner
    then unreachable_ipv6 ether_size 1 1 p
    else elim (if r.decrement_ttl && in_transit r source owner
        then do_decrement_ttl p
        else go_on p) [
          | stop action ↦ action
          | go_on p' ↦ deliver_ipv6 r source owner (inherit_ipv6 r p')
        ]

unfoldable pub route_found_ipv6 : Router → List ℕ → Packet → Option Subnet → Action
route_found_ipv6 r source p found = elim found [
  | none ↦ unreachable_ipv6 ether_size 1 3 p
  | some subnet ↦ elim subnet.owner [
    | none ↦ route_broadcast r source p
    | some owner ↦ forward_ipv6 r source owner p
  ]
]

-- ICMPv6 neighbour solicitations go their own way.
unfoldable pub is_neighborsol : Packet → Bool
is_neighborsol p = at p 20 == 58 && (checklength p (ether_size + ip6_size + 8) && at p 54 == 135)

unfoldable pub route_ipv6 : Router → SubnetState → List ℕ → Packet → Action × SubnetState
route_ipv6 r subnets source p =
    if not (checklength p (ether_size + ip6_size))
    then (dropped, subnets)
    else if is_neighborsol p
    then (route_neighborsol p, subnets)
    else let looked_up = lookup_subnet_ipv6 r.reachable subnets (bytes_at p.contents 38 16) in
      (route_found_ipv6 r source p (looked_up.0), looked_up.1)
