-- ===== src/Route/Forward/Sends.antt =====
-- What holds where route_ipv4 sends a packet to the owner of a subnet.
use tinc_quic.Common.{ℕ, ◌≡◌, refl, sym, ap, ◌∙◌, inl, inr, arith, Bool, true, false, ◌&&◌, not}
use tinc_quic.Common.{Option, none, some, List, ltb, if◌then◌else◌, bytes_eq, Option-cases}
use tinc_quic.Common.{get_elem?, bytes_at, Bool-cases, ◌≢◌, ◌≤◌, ◌⊎◌}
use mathlib.Core.Path.{subst}
use tinc_quic.Route.{Router, Packet, send_packet, dropped, do_decrement_ttl, decrement_ipv4}
use tinc_quic.Route.{go_on, decrement_ipv6}
use tinc_quic.Route.Forward.{is_node, next_via, forward_ipv4, route_ipv4, route_found_ipv4}
use tinc_quic.Route.Forward.{broadcast, route_broadcast}
use tinc_quic.Route.Forward.Tested.{Tested, is_send, forward_ipv4_sends}
use tinc_quic.Route.Forward.Way.{Way, bytes_eq-differ, in_transit-ends, next_via-Way}
use tinc_quic.Route.Forward.Way.{Way-next_via, is_node-some, too_large-fits}
use tinc_quic.Subnet.{Subnet}
use tinc_quic.Subnet.Lookup.{SubnetState, matching_ipv4, lookup_subnet_ipv4}
use tinc_quic.Subnet.Lookup.Cache.{CachesOk}
use tinc_quic.Subnet.Lookup.Prefix.{lookup_subnet_ipv4_member}

-- A packet `p` from `source` may be sent to `to` as `q`.
pub record Allowed (r : Router) (source to : List ℕ) (p : Packet) (q : Packet) : Type 0 where
  pub not_back : to ≢ source
  pub up : r.reachable to ≡ true
  pub forwards : r.forwarding_off ≡ true → (source ≡ r.myself) ⊎ (to ≡ r.myself)
  pub no_loop : (v : List ℕ) → Way r to v → v ≢ source
  pub direct : r.directonly ≡ true → Way r to to
  pub fits : (v : List ℕ) → Way r to v → (p.len ≤ r.node_mtu v) ⊎ ((p.len ≤ 590) ⊎ (v ≡ r.myself))
  pub same_len : q.len ≡ p.len

Tested-Allowed :
    (r : Router) (source to : List ℕ) (p q : Packet)
    → Tested 590 r source to p q
    → Allowed r source to p q
Tested-Allowed r source to p q t = record {
  not_back = bytes_eq-differ to source t.not_back;
  up = t.owner_up;
  forwards = λ off. in_transit-ends r source to (ground (arith, off, t.forwards));
  no_loop = λ v way.
      bytes_eq-differ v source
        (ap (λ w. is_node w source) (sym (next_via-Way r to v way)) ∙ t.no_loop);
  direct = λ only.
      Way-next_via r to to (is_node-some (next_via r to) to (ground (arith, only, t.direct)));
  fits = λ v way. too_large-fits r v p (t.fits v (next_via-Way r to v way));
  same_len = t.same_len;
}

route_owned :
    (r : Router) (source owner : List ℕ) (p : Packet) (s : Subnet)
    → s.owner ≡ some owner
    → route_found_ipv4 r source p (some s) ≡ forward_ipv4 r source owner p
unfolding route_found_ipv4
route_owned r source owner p s e = rw (e) refl

broadcast_stays :
    (b : Bool) (p : Packet)
    → is_send (broadcast (if b then do_decrement_ttl p else go_on p)) ≡ false
unfolding is_send do_decrement_ttl decrement_ipv4 decrement_ipv6
broadcast_stays b p = ground arith

unowned :
    (r : Router) (source : List ℕ) (p : Packet) (s : Subnet)
    → s.owner ≡ none
    → is_send (route_found_ipv4 r source p (some s)) ≡ false
unfolding route_found_ipv4 route_broadcast
unowned r source p s e =
    rw (e) (broadcast_stays (r.decrement_ttl && not (bytes_eq source r.myself)) p)

route_found_ipv4_sends :
    (r : Router) (source to : List ℕ) (p q : Packet) (found : Option Subnet)
    → route_found_ipv4 r source p found ≡ send_packet to q
    → (s : Subnet) × (found ≡ some s) × (s.owner ≡ some to) × Tested 590 r source to p q
unfolding route_found_ipv4 is_send
route_found_ipv4_sends r source to p q none h = absurd cc
route_found_ipv4_sends r source to p q (some s) h = elim (Option-cases s.owner) [
  | inl e ↦ absurd (cc (unowned r source p s e, ap is_send h))
  | inr (owner, e) ↦
      let sent : forward_ipv4 r source owner p ≡ send_packet to q =
        sym (route_owned r source owner p s e) ∙ h in
      let (there, allowed) = forward_ipv4_sends r source owner to p q sent in
      (s, refl, e ∙ ap some there, subst (λ o. Tested 590 r source o p q) there allowed)
]

pub route_ipv4_long :
    (r : Router) (subnets : SubnetState) (source : List ℕ) (p : Packet)
    → ltb p.len 34 ≡ false
    → (route_ipv4 r subnets source p).0
      ≡ route_found_ipv4 r source p
          (lookup_subnet_ipv4 r.reachable subnets (bytes_at p.contents 30 4)).0
unfolding route_ipv4
route_ipv4_long r subnets source p h = rw (h) refl

route_ipv4_short :
    (r : Router) (subnets : SubnetState) (source : List ℕ) (p : Packet)
    → ltb p.len 34 ≡ true
    → (route_ipv4 r subnets source p).0 ≡ dropped
unfolding route_ipv4
route_ipv4_short r subnets source p h = rw (h) refl

-- If the caches of subnets agree with their tree and route_ipv4 sends a packet to a node, then the
-- tree holds a subnet of that node that matches the destination; the node is reachable and not the
-- source; where forwarding is off, the source or the node is this node; the first node of the way to
-- it is not the source, and is the node itself where only direct ways are allowed; the packet is not
-- longer than the MTU of that first node or 590 bytes, unless that is this node; and its length is
-- as before.
pub route_ipv4_sends :
    (r : Router) (subnets : SubnetState) (source to : List ℕ) (p q : Packet)
    → CachesOk r.reachable subnets
    → (route_ipv4 r subnets source p).0 ≡ send_packet to q
    → (s : Subnet) × (i : ℕ) × (get_elem? subnets.tree i ≡ some s)
      × (matching_ipv4 (bytes_at p.contents 30 4) s.net ≡ true)
      × (s.owner ≡ some to)
      × Allowed r source to p q
unfolding is_send
route_ipv4_sends r subnets source to p q ok h = elim (Bool-cases (ltb p.len 34)) [
  | inl short ↦ absurd (cc (ap is_send (sym (route_ipv4_short r subnets source p short) ∙ h)))
  | inr long ↦
      let dest = bytes_at p.contents 30 4 in
      let (s, found, owner, tested) =
        route_found_ipv4_sends r source to p q (lookup_subnet_ipv4 r.reachable subnets dest).0
          (sym (route_ipv4_long r subnets source p long) ∙ h) in
      let (i, at_i, matches) = lookup_subnet_ipv4_member r.reachable subnets dest s ok found in
      (s, i, at_i, matches, owner, Tested-Allowed r source to p q tested)
]
