-- ===== src/Route/Tests.antt =====
-- A packet that is routed, and the theorems about routing at it.
use tinc_quic.Common.{ℕ, zero, suc, ◌+◌, ◌≤◌, ◌≡◌, refl, ap, ◌∙◌, ◌≢◌, arith, Bool, true, false}
use tinc_quic.Common.{some, List, [], ◌∷◌, ◌++◌, map, All, bytes_eq, codes, IsByte, get_elem?}
use tinc_quic.Common.{replicate, bytes_at}
use tinc_quic.Common.Int.{pos}
use tinc_quic.Hash.{hash_alloc}
use tinc_quic.Hash.Slots.{hash_alloc-IsSized}
use tinc_quic.Route.{Packet, Router, do_decrement_ttl, inet_checksum, decrement_ipv4, at}
use tinc_quic.Route.{sum_words, fold_carries, lower_ttl, send_packet}
use tinc_quic.Route.Checksum.{header}
use tinc_quic.Route.Checksum.Valid.{do_decrement_ttl_valid}
use tinc_quic.Route.Clamp.{clamp_mss}
use tinc_quic.Route.Forward.{route_found_ipv4, forward_ipv4, after_ttl_ipv4, deliver_ipv4}
use tinc_quic.Route.Forward.{hand_over_ipv4, inherit_ipv4, next_via, in_transit, too_large}
use tinc_quic.Route.Forward.{route_ipv4}
use tinc_quic.Route.Forward.Sends.{Allowed, route_ipv4_sends, route_ipv4_long}
use tinc_quic.Route.Fragment.{fragment_ipv4_packet, fragment_room, fragment_of, fragments_from}
use tinc_quic.Route.Fragment.Whole.{payloads, IsFragment, fragment_ipv4_packet_whole}
use tinc_quic.Route.Limit.{passed, ratelimit-passed}
use tinc_quic.Subnet.{Subnet, ipv4}
use tinc_quic.Subnet.Lookup.{SubnetState, subnet_cache_flush, search_all, matching_ipv4, usable}
use tinc_quic.Subnet.Lookup.{lookup_subnet_ipv4}
use tinc_quic.Subnet.Lookup.Cache.{CachesOk, subnet_cache_flush-CachesOk}
use tinc_quic.Subnet.Lookup.Cache.{lookup_subnet-CachesOk}
use tinc_quic.Subnet.Mask.{maskcmp}

-- From 10.0.0.1 to 10.1.2.3, with a header of which the checksum is valid.
abbrev packet : Packet
packet = record {
  contents =
      replicate 12 0
      ++ (0x08 ∷ 0x00 ∷ 0x45 ∷ 0x00 ∷ 0x00 ∷ 0x14 ∷ 0 ∷ 0 ∷ 0 ∷ 0 ∷ 0x40 ∷ 0x06 ∷ 0x64 ∷ 0xE0 ∷ 10
          ∷ 0 ∷ 0 ∷ 1 ∷ 10 ∷ 1 ∷ 2 ∷ 3 ∷ []);
  len = 34;
  priority = 0;
}

abbrev node_a : List ℕ
node_a = codes "a"

abbrev far : Subnet
far = record {
  net = ipv4 (10 ∷ 0 ∷ 0 ∷ 0 ∷ []) 8;
  weight = pos 10;
  owner = some node_a;
  expires = 0;
}

abbrev filled : SubnetState
filled = record {
  tree = far ∷ [];
  node_tree = λ name. [];
  ipv4_cache = hash_alloc 0x100 4;
  ipv6_cache = hash_alloc 0x100 16;
  mac_cache = hash_alloc 0x100 6;
}

abbrev only_a : List ℕ → Bool
only_a name = bytes_eq name node_a

abbrev router : Router
router = record {
  myself = codes "me";
  reachable = only_a;
  via = λ name. some name;
  nexthop = λ name. some name;
  node_mtu = λ name. 1518;
  options = λ name. 0;
  forwarding_off = true;
  decrement_ttl = true;
  priorityinheritance = false;
  directonly = false;
}

abbrev subnets : SubnetState
subnets = subnet_cache_flush filled

subnets-CachesOk : CachesOk only_a subnets
subnets-CachesOk =
    subnet_cache_flush-CachesOk only_a filled (hash_alloc-IsSized 0x100 4 (omega arith))
      (hash_alloc-IsSized 0x100 16 (omega arith)) (hash_alloc-IsSized 0x100 6 (omega arith))

far_found : (lookup_subnet_ipv4 only_a subnets (10 ∷ 1 ∷ 2 ∷ 3 ∷ [])).0 ≡ some far
unfolding subnet_cache_flush search_all matching_ipv4 usable bytes_eq maskcmp
far_found =
    (lookup_subnet-CachesOk only_a subnets (10 ∷ 1 ∷ 2 ∷ 3 ∷ []) subnets-CachesOk).0.0 ∙ refl

goes_to_a : (route_ipv4 router subnets (codes "me") packet).0 ≡ send_packet node_a packet
unfolding route_found_ipv4 forward_ipv4 after_ttl_ipv4 deliver_ipv4 hand_over_ipv4 inherit_ipv4
    next_via in_transit too_large clamp_mss bytes_eq
goes_to_a =
    route_ipv4_long router subnets (codes "me") packet refl
    ∙ ap (route_found_ipv4 router (codes "me") packet) far_found
    ∙ refl

route_ipv4_sends_example :
    (s : Subnet) × (i : ℕ) × (get_elem? subnets.tree i ≡ some s)
    × (matching_ipv4 (bytes_at packet.contents 30 4) s.net ≡ true)
    × (s.owner ≡ some node_a)
    × Allowed router (codes "me") node_a packet packet
route_ipv4_sends_example =
    route_ipv4_sends router subnets (codes "me") node_a packet packet subnets-CachesOk goes_to_a

-- The same with a header of 24 bytes.
abbrev with_options : Packet
with_options = record {
  contents =
      replicate 12 0
      ++ (0x08 ∷ 0x00 ∷ 0x46 ∷ 0x00 ∷ 0x00 ∷ 0x18 ∷ 0 ∷ 0 ∷ 0 ∷ 0 ∷ 0x40 ∷ 0x06 ∷ 0x61 ∷ 0xDA ∷ 10
          ∷ 0 ∷ 0 ∷ 1 ∷ 10 ∷ 1 ∷ 2 ∷ 3 ∷ 1 ∷ 1 ∷ 1 ∷ 1 ∷ []);
  len = 38;
  priority = 0;
}

with_options-IsByte : All IsByte with_options.contents
with_options-IsByte = omega arith

do_decrement_ttl_valid_example :
    (at (lower_ttl 14 with_options) 22 + 1 ≡ at with_options 22)
    × ((i : ℕ) → i ≢ 22 → i ≢ 24 → i ≢ 25 → at (lower_ttl 14 with_options) i ≡ at with_options i)
    × (inet_checksum (header 14 with_options) 0xFFFF ≡ 0
        → inet_checksum (header 14 (lower_ttl 14 with_options)) 0xFFFF ≡ 0)
unfolding do_decrement_ttl decrement_ipv4
do_decrement_ttl_valid_example =
    do_decrement_ttl_valid with_options (lower_ttl 14 with_options) with_options-IsByte
      (omega arith) (omega arith) refl refl

valid_header : inet_checksum (header 14 with_options) 0xFFFF ≡ 0
unfolding inet_checksum header sum_words fold_carries
valid_header = refl

ratelimit-passed_example :
    passed 3 5 (record { lasttime = 0; count = 0 }) (5 ∷ 5 ∷ 5 ∷ 5 ∷ 6 ∷ []) ≤ 3
ratelimit-passed_example = ratelimit-passed 3 5 (5 ∷ 5 ∷ 5 ∷ 5 ∷ 6 ∷ []) (omega arith) (omega arith)

append-IsByte : (xs ys : List ℕ) → All IsByte xs → All IsByte ys → All IsByte (xs ++ ys)
append-IsByte [] ys hx hy = hy
append-IsByte (x ∷ xs) ys hx hy = (hx.0, append-IsByte xs ys (hx.1) hy)

replicate-IsByte : (n v : ℕ) → IsByte v → All IsByte (replicate n v)
replicate-IsByte zero v h = tt
replicate-IsByte (suc n) v h = (h, replicate-IsByte n v h)

abbrev large_headers : List ℕ
large_headers =
    replicate 12 0
    ++ (0x08 ∷ 0x00 ∷ 0x45 ∷ 0x00 ∷ 0x02 ∷ 0x6C ∷ 0 ∷ 0 ∷ 0 ∷ 0 ∷ 0x40 ∷ 0x06 ∷ 0 ∷ 0 ∷ 10 ∷ 0 ∷ 0
        ∷ 1 ∷ 10 ∷ 1 ∷ 2 ∷ 3 ∷ [])

-- A packet of 620 bytes behind its Ethernet header.
abbrev large : Packet
large = record { contents = large_headers ++ replicate 600 7; len = 634; priority = 0 }

large-IsByte : All IsByte large.contents
large-IsByte =
    append-IsByte large_headers (replicate 600 7) (omega arith)
      (replicate-IsByte 600 7 (omega arith))

two_fragments : map (λ f. f.len) (fragment_ipv4_packet 590 14 large) ≡ 586 ∷ 82 ∷ []
unfolding fragment_ipv4_packet fragment_room fragment_of fragments_from
two_fragments = refl

fragment_ipv4_packet_whole_example :
    (payloads 14 (fragment_ipv4_packet 590 14 large) ≡ bytes_at large.contents 34 600)
    × All (IsFragment 590 14) (fragment_ipv4_packet 590 14 large)
fragment_ipv4_packet_whole_example =
    fragment_ipv4_packet_whole 590 14 large large-IsByte (omega arith) refl refl
