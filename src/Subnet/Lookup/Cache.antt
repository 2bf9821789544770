-- ===== src/Subnet/Lookup/Cache.antt =====
-- The caches never change what a lookup returns.
use tinc_quic.Common.{ℕ, ◌≡◌, refl, sym, ap, ◌∙◌, inl, inr, arith, Bool, Option, none, some}
use tinc_quic.Common.{List, bytes_eq_sound, Option-cases}
use tinc_quic.Hash.{HashTable, hash_search, hash_insert, hash_clear}
use tinc_quic.Hash.Slots.{IsSized, hash_search-hash_insert, hash_operations-IsSized}
use tinc_quic.Hash.Slots.{hash_search-hash_delete, hash_clear-IsSized, hash_insert_found}
use tinc_quic.Subnet.{Subnet}
use tinc_quic.Subnet.Lookup.{SubnetState, look_up, lookup_subnet_ipv4, remember}
use tinc_quic.Subnet.Lookup.{subnet_cache_flush, lookup_subnet_ipv6, search_all}
use tinc_quic.Subnet.Lookup.{lookup_subnet_mac, matching_ipv4, matching_ipv6, matching_mac}
use tinc_quic.Subnet.Lookup.{searched_tree}

-- A cache holds only what a search would find.
pub CacheOk : (List ℕ → Option Subnet) → HashTable Subnet → Type 0
CacheOk find cache =
    (key : List ℕ) (r : Subnet) → hash_search cache key ≡ some r → find key ≡ some r

module _ (find : List ℕ → Option Subnet) where
  insert-CacheOk :
      (cache : HashTable Subnet) (key : List ℕ) (r : Subnet)
      → IsSized cache
      → CacheOk find cache
      → find key ≡ some r
      → CacheOk find (hash_insert cache key r)
  unfolding CacheOk
  insert-CacheOk cache key r sized ok found key' r' hit = ground (
    arith,
    hash_search-hash_insert cache key key' r sized,
    ok key' r',
    bytes_eq_sound key' key,
    hit,
    found,
  )

  remember-CacheOk :
      (cache : HashTable Subnet) (key : List ℕ) (found : Option Subnet)
      → IsSized cache
      → CacheOk find cache
      → find key ≡ found
      → IsSized (remember cache key found) × CacheOk find (remember cache key found)
  unfolding remember
  remember-CacheOk cache key none sized ok e = (sized, ok)
  remember-CacheOk cache key (some r) sized ok e =
      ((hash_operations-IsSized cache key r sized).0, insert-CacheOk cache key r sized ok e)

  -- What a lookup through the cache returns, and what it leaves in the cache.
  look_up-CacheOk :
      (cache : HashTable Subnet) (address : List ℕ)
      → IsSized cache
      → CacheOk find cache
      → ((look_up cache address (find address)).0 ≡ find address)
        × IsSized ((look_up cache address (find address)).1)
        × CacheOk find ((look_up cache address (find address)).1)
  unfolding look_up CacheOk
  look_up-CacheOk cache address sized ok = elim (Option-cases (hash_search cache address)) [
    | inl miss ↦
        let (sized', ok') = remember-CacheOk cache address (find address) sized ok refl in
        rw (look_up, miss) (refl, sized', ok')
    | inr (r, hit) ↦ rw (look_up, hit) (sym (ok address r hit), sized, ok)
  ]

  clear-CacheOk : (cache : HashTable Subnet) → IsSized cache → CacheOk find (hash_clear cache)
  unfolding CacheOk
  clear-CacheOk cache sized key r hit =
      let (_, empty) = hash_search-hash_delete cache key key sized in cc

module _ (reachable : List ℕ → Bool) where
  -- All caches agree with searches of the tree of all subnets.
  pub record CachesOk (st : SubnetState) : Type 0 where
    pub ipv4_sized : IsSized st.ipv4_cache
    pub ipv6_sized : IsSized st.ipv6_cache
    pub mac_sized : IsSized st.mac_cache
    pub ipv4_ok : CacheOk (λ a. search_all reachable (matching_ipv4 a) st.tree none) st.ipv4_cache
    pub ipv6_ok : CacheOk (λ a. search_all reachable (matching_ipv6 a) st.tree none) st.ipv6_cache
    pub mac_ok : CacheOk (λ a. search_all reachable (matching_mac a) st.tree none) st.mac_cache

  -- If the caches agree with the tree, then a lookup in the tree of all subnets
  -- returns what the search of that tree returns, and the caches
  -- still agree with the tree afterwards.
  pub lookup_subnet-CachesOk :
      (st : SubnetState) (address : List ℕ)
      → CachesOk st
      → (((lookup_subnet_ipv4 reachable st address).0
            ≡ search_all reachable (matching_ipv4 address) st.tree none)
          × CachesOk ((lookup_subnet_ipv4 reachable st address).1))
        × (((lookup_subnet_ipv6 reachable st address).0
              ≡ search_all reachable (matching_ipv6 address) st.tree none)
            × CachesOk ((lookup_subnet_ipv6 reachable st address).1))
        × ((lookup_subnet_mac reachable st none address).0
            ≡ search_all reachable (matching_mac address) st.tree none)
        × CachesOk ((lookup_subnet_mac reachable st none address).1)
  unfolding lookup_subnet_ipv4 lookup_subnet_ipv6 lookup_subnet_mac searched_tree
  lookup_subnet-CachesOk st address ok =
      let (v4, v4_sized, v4_ok) =
        look_up-CacheOk (λ a. search_all reachable (matching_ipv4 a) st.tree none) st.ipv4_cache
          address ok.ipv4_sized ok.ipv4_ok in
      let (v6, v6_sized, v6_ok) =
        look_up-CacheOk (λ a. search_all reachable (matching_ipv6 a) st.tree none) st.ipv6_cache
          address ok.ipv6_sized ok.ipv6_ok in
      let (m, m_sized, m_ok) =
        look_up-CacheOk (λ a. search_all reachable (matching_mac a) st.tree none) st.mac_cache
          address ok.mac_sized ok.mac_ok in
      (
        (
          v4,
          record {
            ipv4_sized = v4_sized;
            ipv6_sized = ok.ipv6_sized;
            mac_sized = ok.mac_sized;
            ipv4_ok = v4_ok;
            ipv6_ok = ok.ipv6_ok;
            mac_ok = ok.mac_ok;
          },
        ),
        (
          v6,
          record {
            ipv4_sized = ok.ipv4_sized;
            ipv6_sized = v6_sized;
            mac_sized = ok.mac_sized;
            ipv4_ok = ok.ipv4_ok;
            ipv6_ok = v6_ok;
            mac_ok = ok.mac_ok;
          },
        ),
        m,
        record {
          ipv4_sized = ok.ipv4_sized;
          ipv6_sized = ok.ipv6_sized;
          mac_sized = m_sized;
          ipv4_ok = ok.ipv4_ok;
          ipv6_ok = ok.ipv6_ok;
          mac_ok = m_ok;
        },
      )

  -- After a flush, caches with sound arrays agree with every tree and every set of reachable nodes.
  pub subnet_cache_flush-CachesOk :
      (st : SubnetState)
      → IsSized st.ipv4_cache
      → IsSized st.ipv6_cache
      → IsSized st.mac_cache
      → CachesOk (subnet_cache_flush st)
  unfolding subnet_cache_flush
  subnet_cache_flush-CachesOk st s4 s6 sm = record {
    ipv4_sized = hash_clear-IsSized st.ipv4_cache s4;
    ipv6_sized = hash_clear-IsSized st.ipv6_cache s6;
    mac_sized = hash_clear-IsSized st.mac_cache sm;
    ipv4_ok =
        clear-CacheOk (λ a. search_all reachable (matching_ipv4 a) st.tree none) st.ipv4_cache s4;
    ipv6_ok =
        clear-CacheOk (λ a. search_all reachable (matching_ipv6 a) st.tree none) st.ipv6_cache s6;
    mac_ok =
        clear-CacheOk (λ a. search_all reachable (matching_mac a) st.tree none) st.mac_cache sm;
  }

look_up_hit :
    (cache : HashTable Subnet) (address : List ℕ) (found : Option Subnet) (v : Subnet)
    → hash_search cache address ≡ some v
    → look_up cache address found ≡ (some v, cache)
unfolding look_up
look_up_hit cache address found v hit = rw (look_up, hit)

look_up_miss :
    (cache : HashTable Subnet) (address : List ℕ) (found : Option Subnet)
    → hash_search cache address ≡ none
    → look_up cache address found ≡ (found, remember cache address found)
unfolding look_up
look_up_miss cache address found miss = rw (look_up, miss)

look_up-look_up :
    (cache : HashTable Subnet) (address : List ℕ) (found other : Option Subnet) (r : Subnet)
    → IsSized cache
    → (look_up cache address found).0 ≡ some r
    → (look_up ((look_up cache address found).1) address other).0 ≡ some r
unfolding remember
look_up-look_up cache address found other r sized first =
    elim (Option-cases (hash_search cache address)) [
      | inl miss ↦
          let e : look_up cache address found ≡ (found, remember cache address found) =
            look_up_miss cache address found miss in
          let e' : found ≡ some r = sym (ap (λ x. x.0) e) ∙ first in
          let inserted = hash_insert_found cache address r sized in
          rw (e, e')
            (ap (λ x. x.0) (look_up_hit (hash_insert cache address r) address other r inserted))
      | inr (v, hit) ↦
          let e : look_up cache address found ≡ (some v, cache) =
            look_up_hit cache address found v hit in
          let e' : some v ≡ some r = sym (ap (λ x. x.0) e) ∙ first in
          rw (e) (ap (λ x. x.0) (look_up_hit cache address other v hit) ∙ e')
    ]

-- Once lookup_subnet_mac, with a cache of sound arrays, has found an address in the tree of all
-- subnets, it gives the same subnet
-- when it is asked for that address among the subnets of one owner, whichever owner that is.
pub lookup_subnet_mac_ignores_owner :
    (reachable : List ℕ → Bool) (st : SubnetState) (address owner : List ℕ) (r : Subnet)
    → IsSized st.mac_cache
    → (lookup_subnet_mac reachable st none address).0 ≡ some r
    → (lookup_subnet_mac reachable
        ((lookup_subnet_mac reachable st none address).1)
        (some owner)
        address).0
      ≡ some r
unfolding lookup_subnet_mac searched_tree
lookup_subnet_mac_ignores_owner reachable st address owner r sized found =
    look_up-look_up st.mac_cache address
      (search_all reachable (matching_mac address) (searched_tree reachable st none) none)
      (search_all reachable (matching_mac address) (searched_tree reachable st (some owner)) none) r
      sized found
