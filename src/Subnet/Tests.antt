-- ===== src/Subnet/Tests.antt =====
-- Runs of the masks and lookups, and their theorems at concrete inputs.
use tinc_quic.Common.{ℕ, ◌≤◌, ◌≡◌, refl, ◌∙◌, ◌↔◌, arith, Bool, true, none, some, List, [], ◌∷◌}
use tinc_quic.Common.{All, bytes_eq, IsByte, get_elem?, replicate}
use tinc_quic.Common.Int.{pos, bytes_compare}
use tinc_quic.Hash.{hash_alloc}
use tinc_quic.Hash.Slots.{hash_alloc-IsSized}
use tinc_quic.Subnet.{Subnet, ipv4, ipv6, mac}
use tinc_quic.Subnet.Compare.{subnet_compare, same_type, subnet_compare_mac}
use tinc_quic.Subnet.Compare.{subnet_compare_ipv4, subnet_compare_ipv6}
use tinc_quic.Subnet.Compare.Order.{prefixlength, Sorted}
use tinc_quic.Subnet.Lookup.{SubnetState, lookup_subnet_ipv4, matching_ipv4, subnet_cache_flush}
use tinc_quic.Subnet.Lookup.{usable, search_all, lookup_subnet_ipv6, matching_ipv6}
use tinc_quic.Subnet.Lookup.{lookup_subnet_mac, matching_mac}
use tinc_quic.Subnet.Lookup.Cache.{CachesOk, subnet_cache_flush-CachesOk}
use tinc_quic.Subnet.Lookup.Cache.{lookup_subnet-CachesOk, lookup_subnet_mac_ignores_owner}
use tinc_quic.Subnet.Lookup.Prefix.{lookup_subnet_ipv4_best}
use tinc_quic.Subnet.Mask.{mask, maskcmp, clear_from}
use tinc_quic.Subnet.Mask.Laws.{maskcmp_iff}

abbrev near : Subnet
near = record {
  net = ipv4 (10 ∷ 1 ∷ 0 ∷ 0 ∷ []) 16;
  weight = pos 10;
  owner = some (98 ∷ []);
  expires = 0;
}

abbrev far : Subnet
far = record {
  net = ipv4 (10 ∷ 0 ∷ 0 ∷ 0 ∷ []) 8;
  weight = pos 10;
  owner = some (97 ∷ []);
  expires = 0;
}

abbrev wide : Subnet
wide = record { net = ipv6 (0xFD ∷ replicate 15 0) 8; weight = pos 10; owner = none; expires = 0 }

abbrev station : Subnet
station = record {
  net = mac (2 ∷ 0 ∷ 0 ∷ 0 ∷ 0 ∷ 1 ∷ []);
  weight = pos 10;
  owner = some (97 ∷ []);
  expires = 0;
}

-- Only the node `a` is reachable.
abbrev only_a : List ℕ → Bool
only_a name = bytes_eq name (97 ∷ [])

abbrev filled : SubnetState
filled = record {
  tree = station ∷ near ∷ far ∷ wide ∷ [];
  node_tree = λ name. [];
  ipv4_cache = hash_alloc 0x100 4;
  ipv6_cache = hash_alloc 0x100 16;
  mac_cache = hash_alloc 0x100 6;
}

abbrev state : SubnetState
state = subnet_cache_flush filled

abbrev address : List ℕ
address = 10 ∷ 1 ∷ 2 ∷ 3 ∷ []

address-IsByte : All IsByte address
address-IsByte = (omega arith, (omega arith, (omega arith, (omega arith, tt))))

maskcmp_iff_example : (maskcmp address address 20 ≡ pos 0) ↔ (mask address 20 ≡ mask address 20)
maskcmp_iff_example =
    maskcmp_iff address address 20 refl (omega arith) address-IsByte address-IsByte

masked : mask address 23 ≡ 10 ∷ 1 ∷ 2 ∷ 0 ∷ []
unfolding mask clear_from
masked = refl

state-CachesOk : CachesOk only_a state
state-CachesOk =
    subnet_cache_flush-CachesOk only_a filled (hash_alloc-IsSized 0x100 4 (omega arith))
      (hash_alloc-IsSized 0x100 16 (omega arith)) (hash_alloc-IsSized 0x100 6 (omega arith))

lookup_subnet-CachesOk_example :
    (((lookup_subnet_ipv4 only_a state address).0
        ≡ search_all only_a (matching_ipv4 address) state.tree none)
      × CachesOk only_a ((lookup_subnet_ipv4 only_a state address).1))
    × (((lookup_subnet_ipv6 only_a state address).0
          ≡ search_all only_a (matching_ipv6 address) state.tree none)
        × CachesOk only_a ((lookup_subnet_ipv6 only_a state address).1))
    × ((lookup_subnet_mac only_a state none address).0
        ≡ search_all only_a (matching_mac address) state.tree none)
    × CachesOk only_a ((lookup_subnet_mac only_a state none address).1)
lookup_subnet-CachesOk_example = lookup_subnet-CachesOk only_a state address state-CachesOk

state-Sorted : Sorted (state.tree)
unfolding subnet_cache_flush subnet_compare same_type subnet_compare_mac subnet_compare_ipv4
    subnet_compare_ipv6 bytes_compare
state-Sorted = ((refl, (refl, (refl, tt))), ((refl, (refl, tt)), ((refl, tt), (tt, tt))))

far-usable : usable only_a far ≡ true
unfolding usable bytes_eq
far-usable = refl

far_place : get_elem? state.tree 2 ≡ some far
unfolding subnet_cache_flush
far_place = refl

far_matches : matching_ipv4 address far.net ≡ true
unfolding matching_ipv4 maskcmp
far_matches = refl

lookup_subnet_ipv4_best_example :
    (r : Subnet) × ((lookup_subnet_ipv4 only_a state address).0 ≡ some r)
    × (matching_ipv4 address r.net ≡ true)
    × (usable only_a r ≡ true)
    × (prefixlength far.net ≤ prefixlength r.net)
lookup_subnet_ipv4_best_example =
    lookup_subnet_ipv4_best only_a state address 2 far state-CachesOk state-Sorted far_place
      far-usable far_matches

abbrev address6 : List ℕ
address6 = 0xFD ∷ replicate 15 1

wide-usable : usable only_a wide ≡ true
unfolding usable
wide-usable = refl

wide_place : get_elem? state.tree 3 ≡ some wide
unfolding subnet_cache_flush
wide_place = refl

wide_matches : matching_ipv6 address6 wide.net ≡ true
unfolding matching_ipv6 maskcmp
wide_matches = refl

-- The subnet with the longer prefix has an owner that cannot be reached.
far_found : (lookup_subnet_ipv4 only_a state address).0 ≡ some far
unfolding subnet_cache_flush search_all matching_ipv4 maskcmp usable bytes_eq
far_found = (lookup_subnet-CachesOk only_a state address state-CachesOk).0.0 ∙ refl

abbrev station_address : List ℕ
station_address = 2 ∷ 0 ∷ 0 ∷ 0 ∷ 0 ∷ 1 ∷ []

station_found : (lookup_subnet_mac only_a state none station_address).0 ≡ some station
unfolding subnet_cache_flush search_all matching_mac usable bytes_eq
station_found =
    let (_, _, found, _) = lookup_subnet-CachesOk only_a state station_address state-CachesOk in
    found ∙ refl

lookup_subnet_mac_ignores_owner_example :
    (lookup_subnet_mac only_a
      ((lookup_subnet_mac only_a state none station_address).1)
      (some (99 ∷ []))
      station_address).0
    ≡ some station
lookup_subnet_mac_ignores_owner_example =
    lookup_subnet_mac_ignores_owner only_a state station_address (99 ∷ []) station
      (state-CachesOk.mac_sized) station_found
