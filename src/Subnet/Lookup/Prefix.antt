-- ===== src/Subnet/Lookup/Prefix.antt =====
-- The lookups by longest prefix, caches included.
use tinc_quic.Common.{ℕ, zero, suc, ◌≤◌, ◌≡◌, refl, sym, ap, ◌∙◌, ◌⊎◌, inl, inr, arith, Bool}
use tinc_quic.Common.{true, Option, none, some, List, [], ◌∷◌, Bool-cases, get_elem?}
use tinc_quic.Common.{All-get_elem?}
use mathlib.Core.Path.{subst}
use tinc_quic.Subnet.{Net, Subnet, mac, ipv4, ipv6}
use tinc_quic.Subnet.Compare.{type}
use tinc_quic.Subnet.Compare.Order.{Sorted, prefixlength}
use tinc_quic.Subnet.Lookup.{search_all, usable, SubnetState, matching_ipv4, matching_ipv6}
use tinc_quic.Subnet.Lookup.{lookup_subnet_ipv4, lookup_subnet_ipv6}
use tinc_quic.Subnet.Lookup.Best.{search_all-AsGood, AsGood}
use tinc_quic.Subnet.Lookup.Cache.{CachesOk, lookup_subnet-CachesOk}

module _ (reachable : List ℕ → Bool) (match : Net → Bool) where
  -- A search that has found something returns something.
  search_all-some :
      (tree : List Subnet) (p : Subnet)
      → (r : Subnet) × (search_all reachable match tree (some p) ≡ some r)
  unfolding search_all
  search_all-some [] p = (p, refl)
  search_all-some (q ∷ tree) p = elim (Bool-cases (match q.net)) [
    | inl m ↦ elim (Bool-cases (usable reachable q)) [
      | inl u ↦ (q, ground (arith, m, u))
      | inr u ↦ let (r, found) = search_all-some tree q in (r, ground (arith, m, u, found))
    ]
    | inr m ↦ let (r, found) = search_all-some tree p in (r, ground (arith, m, found))
  ]

  -- A search that meets a match returns something.
  search_all-found :
      (tree : List Subnet) (r0 : Option Subnet) (j : ℕ) (q : Subnet)
      → get_elem? tree j ≡ some q
      → match q.net ≡ true
      → (r : Subnet) × (search_all reachable match tree r0 ≡ some r)
  unfolding search_all
  search_all-found [] r0 j q at m = cc
  search_all-found (p ∷ tree) r0 zero q at m =
      let (r, found) = search_all-some tree p in
      let e : p ≡ q = cc in
      elim (Bool-cases (usable reachable p)) [
        | inl u ↦ (p, ground (arith, m, u, e))
        | inr u ↦ (r, ground (arith, m, u, e, found))
      ]
  search_all-found (p ∷ tree) r0 (suc j) q at m = elim (Bool-cases (match p.net)) [
    | inl m' ↦ elim (Bool-cases (usable reachable p)) [
      | inl u ↦ (p, ground (arith, m', u))
      | inr u ↦ let (r, found) = search_all-some tree p in (r, ground (arith, m', u, found))
    ]
    | inr m' ↦ let (r, found) = search_all-found tree r0 j q at m in (r, ground (arith, m', found))
  ]

  -- What a search returns is a match from the tree.
  search_all-member :
      (tree : List Subnet) (r0 : Option Subnet) (r : Subnet)
      → search_all reachable match tree r0 ≡ some r
      → (r0 ≡ some r) ⊎ ((i : ℕ) × (get_elem? tree i ≡ some r) × (match r.net ≡ true))
  unfolding search_all
  search_all-member [] r0 r found = inl found
  search_all-member (p ∷ tree) r0 r found = elim (Bool-cases (match p.net)) [
    | inl m ↦ elim (Bool-cases (usable reachable p)) [
      | inl u ↦
          let e : p ≡ r = ground (arith, m, u, found) in
          inr (0, ap some e, subst (λ x. match x.net ≡ true) e m)
      | inr u ↦ elim (search_all-member tree (some p) r (ground (arith, m, u, found))) [
        | inl first ↦ let e : p ≡ r = cc in inr (0, first, subst (λ x. match x.net ≡ true) e m)
        | inr (i, at, m') ↦ inr (suc i, at, m')
      ]
    ]
    | inr m ↦ elim (search_all-member tree r0 r (ground (arith, m, found))) [
      | inl first ↦ inl first
      | inr (i, at, m') ↦ inr (suc i, at, m')
    ]
  ]

matching_ipv4-type : (a : List ℕ) (n : Net) → matching_ipv4 a n ≡ true → type n ≡ 1
unfolding matching_ipv4
matching_ipv4-type a (mac x) m = cc
matching_ipv4-type a (ipv4 x p) m = refl
matching_ipv4-type a (ipv6 x p) m = cc

matching_ipv6-type : (a : List ℕ) (n : Net) → matching_ipv6 a n ≡ true → type n ≡ 2
unfolding matching_ipv6
matching_ipv6-type a (mac x) m = cc
matching_ipv6-type a (ipv4 x p) m = cc
matching_ipv6-type a (ipv6 x p) m = refl

-- A search of a sorted tree answers a usable match by the best usable match.
search_all-best :
    (reachable : List ℕ → Bool) (match : Net → Bool) (kind : ℕ)
    → ((n : Net) → match n ≡ true → type n ≡ kind)
    → (tree : List Subnet) (j : ℕ) (q : Subnet) → Sorted tree
    → get_elem? tree j ≡ some q
    → match q.net ≡ true
    → usable reachable q ≡ true
    → (r : Subnet) × (search_all reachable match tree none ≡ some r)
      × (match r.net ≡ true)
      × (usable reachable r ≡ true)
      × (prefixlength q.net ≤ prefixlength r.net)
search_all-best reachable match kind types tree j q sorted at m u =
    let (r, found) = search_all-found reachable match tree none j q at m in
    let all = search_all-AsGood reachable match kind types tree none r sorted found in
    let good = All-get_elem? (AsGood reachable match kind types r) tree j q all at in
    let (m', u', longer) = good m u in (r, found, m', u', longer)

module _ (reachable : List ℕ → Bool) (st : SubnetState) (address : List ℕ) (j : ℕ) (q : Subnet)
    (ok : CachesOk reachable st) (sorted : Sorted st.tree) (at : get_elem? st.tree j ≡ some q)
    (u : usable reachable q ≡ true) where
  -- If some subnet of the sorted tree has a prefix that matches the address under its mask, and has
  -- no owner or a reachable one, then lookup_subnet_ipv4 returns a subnet that also matches and is
  -- usable, and whose prefix is at least as long; the caches must agree with the tree.
  pub lookup_subnet_ipv4_best :
      matching_ipv4 address q.net ≡ true
      → (r : Subnet) × ((lookup_subnet_ipv4 reachable st address).0 ≡ some r)
        × (matching_ipv4 address r.net ≡ true)
        × (usable reachable r ≡ true)
        × (prefixlength q.net ≤ prefixlength r.net)
  lookup_subnet_ipv4_best m =
      let (r, found, m', u', longer) =
        search_all-best reachable (matching_ipv4 address) 1 (matching_ipv4-type address) st.tree j q
          sorted at m u in
      (r, (lookup_subnet-CachesOk reachable st address ok).0.0 ∙ found, m', u', longer)

  -- If some IPv6 subnet of the sorted tree matches the address under its mask, has no owner or a
  -- reachable one, and the caches agree with the tree, then lookup_subnet_ipv6 returns a subnet that
  -- also matches and is usable, and whose prefix is at least as long.
  pub lookup_subnet_ipv6_best :
      matching_ipv6 address q.net ≡ true
      → (r : Subnet) × ((lookup_subnet_ipv6 reachable st address).0 ≡ some r)
        × (matching_ipv6 address r.net ≡ true)
        × (usable reachable r ≡ true)
        × (prefixlength q.net ≤ prefixlength r.net)
  lookup_subnet_ipv6_best m =
      let (r, found, m', u', longer) =
        search_all-best reachable (matching_ipv6 address) 2 (matching_ipv6-type address) st.tree j q
          sorted at m u in
      (r, (lookup_subnet-CachesOk reachable st address ok).1.0 ∙ found, m', u', longer)

-- If the caches agree with the tree, what lookup_subnet_ipv4 returns stands in the tree and matches
-- the address, usable or not.
pub lookup_subnet_ipv4_member :
    (reachable : List ℕ → Bool) (st : SubnetState) (address : List ℕ) (r : Subnet)
    → CachesOk reachable st
    → (lookup_subnet_ipv4 reachable st address).0 ≡ some r
    → (i : ℕ) × (get_elem? st.tree i ≡ some r) × (matching_ipv4 address r.net ≡ true)
lookup_subnet_ipv4_member reachable st address r ok found =
    elim (search_all-member reachable (matching_ipv4 address) st.tree none r
      (sym (lookup_subnet-CachesOk reachable st address ok).0.0 ∙ found)) [
        | inl e ↦ cc
        | inr at ↦ at
      ]
