-- ===== src/Subnet/Lookup.antt =====
-- The lookups of src/subnet.c. `tree` is what splay_each walks through: the subnets in the order of
-- subnet_compare. `reachable` reads `status.reachable` of the node with a name.
pub mod Best
pub mod Prefix
pub mod Cache
use tinc_quic.Common.{ℕ, zero, suc, ◌+◌, ◌-◌, ◌*◌, ◌/◌, ◌%◌, ◌^◌, ◌≤◌, ◌<◌, bit_and, bit_or}
use tinc_quic.Common.{◌≡◌, refl, sym, ap, ◌∙◌, ◌≢◌, ◌↔◌, ◌⊎◌, inl, inr, arith, Bool, true}
use tinc_quic.Common.{false, ◌&&◌, ◌||◌, not, Option, none, some, List, [], ◌∷◌, ◌++◌, map, ltb}
use tinc_quic.Common.{leb, ◌==◌, if◌then◌else◌, ◌>>=◌, bytes_eq}
use tinc_quic.Common.Int.{is_zero}
use tinc_quic.Hash.{HashTable, hash_alloc, hash_clear, hash_insert, hash_search}
use tinc_quic.Subnet.{Net, Subnet, mac, ipv4, ipv6}
use tinc_quic.Subnet.Mask.{maskcmp}

pub record SubnetState : Type 0 where
  pub tree : List Subnet
  pub node_tree : List ℕ → List Subnet
  pub ipv4_cache : HashTable Subnet
  pub ipv6_cache : HashTable Subnet
  pub mac_cache : HashTable Subnet

unfoldable pub subnet_cache_flush : SubnetState → SubnetState
subnet_cache_flush st = record st {
  ipv4_cache = hash_clear st.ipv4_cache;
  ipv6_cache = hash_clear st.ipv6_cache;
  mac_cache = hash_clear st.mac_cache;
}

unfoldable pub init_subnets : SubnetState
init_subnets = record {
  tree = [];
  node_tree = λ n. [];
  ipv4_cache = hash_alloc 0x100 4;
  ipv6_cache = hash_alloc 0x100 16;
  mac_cache = hash_alloc 0x100 6;
}

-- `!p->owner || p->owner->status.reachable`
unfoldable pub usable : (List ℕ → Bool) → Subnet → Bool
usable reachable p = elim p.owner [ none ↦ true | some name ↦ reachable name ]

unfoldable pub matching_mac : List ℕ → Net → Bool
matching_mac address (mac x) = bytes_eq address x
matching_mac address (ipv4 x m) = false
matching_mac address (ipv6 x m) = false

unfoldable pub matching_ipv4 : List ℕ → Net → Bool
matching_ipv4 address (mac x) = false
matching_ipv4 address (ipv4 x m) = is_zero (maskcmp address x m)
matching_ipv4 address (ipv6 x m) = false

unfoldable pub matching_ipv6 : List ℕ → Net → Bool
matching_ipv6 address (mac x) = false
matching_ipv6 address (ipv4 x m) = false
matching_ipv6 address (ipv6 x m) = is_zero (maskcmp address x m)

-- The loop, with what was found so far: it ends at the first match that is usable, and else goes
-- on with the match as its result.
unfoldable pub search_all :
    (List ℕ → Bool) → (Net → Bool) → List Subnet → Option Subnet → Option Subnet
search_all reachable match [] r = r
search_all reachable match (p ∷ tree) r =
    if match p.net
    then if usable reachable p then some p else search_all reachable match tree (some p)
    else search_all reachable match tree r

-- `if(r) hash_insert(...)`
unfoldable pub remember : HashTable Subnet → List ℕ → Option Subnet → HashTable Subnet
remember cache address none = cache
remember cache address (some r) = hash_insert cache address r

-- The cache is asked first.
pub look_up : HashTable Subnet → List ℕ → Option Subnet → Option Subnet × HashTable Subnet
look_up cache address found = elim (hash_search cache address) [
  | some r ↦ (some r, cache)
  | none ↦ (found, remember cache address found)
]

module _ (reachable : List ℕ → Bool) (st : SubnetState) where
  -- `owner ? owner->subnet_tree : subnet_tree`
  unfoldable pub searched_tree : Option (List ℕ) → List Subnet
  searched_tree none = st.tree
  searched_tree (some name) = st.node_tree name

  pub lookup_subnet_mac : Option (List ℕ) → List ℕ → Option Subnet × SubnetState
  lookup_subnet_mac owner address =
      let found = search_all reachable (matching_mac address) (searched_tree owner) none in
      let (r, cache) = look_up st.mac_cache address found in (r, record st { mac_cache = cache })

  pub lookup_subnet_ipv4 : List ℕ → Option Subnet × SubnetState
  lookup_subnet_ipv4 address =
      let found = search_all reachable (matching_ipv4 address) st.tree none in
      let (r, cache) = look_up st.ipv4_cache address found in (r, record st { ipv4_cache = cache })

  pub lookup_subnet_ipv6 : List ℕ → Option Subnet × SubnetState
  lookup_subnet_ipv6 address =
      let found = search_all reachable (matching_ipv6 address) st.tree none in
      let (r, cache) = look_up st.ipv6_cache address found in (r, record st { ipv6_cache = cache })
