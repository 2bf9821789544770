-- ===== src/Route/Clamp/Laws.antt =====
-- clamp_mss and do_decrement_ttl leave the length of a packet as it is.
use tinc_quic.Common.{ℕ, zero, suc, ◌+◌, ◌-◌, ◌*◌, ◌/◌, ◌^◌, ◌≡◌, refl, inl, inr, arith, List}
use tinc_quic.Common.{Option-cases, u16}
use tinc_quic.Route.{do_decrement_ttl, Packet, Router, decrement_ipv4, at, decrement_ipv6}
use tinc_quic.Route.{lower_ttl, go_on}
use tinc_quic.Route.Clamp.{clamp_mss, clamp_tcp, search_mss, write_mss, tcp_start}

search_mss-len :
    (fuel start len i newmss : ℕ) (p : Packet) → (search_mss fuel start len i newmss p).len ≡ p.len
unfolding search_mss write_mss
search_mss-len zero start len i newmss p = refl
search_mss-len (suc fuel) start len i newmss p = ground (
  arith,
  search_mss-len fuel start len (i + 1) newmss p,
  search_mss-len fuel start len (i + at p (start + 21 + i)) newmss p,
)

clamp_tcp-len : (mtu start : ℕ) (p : Packet) → (clamp_tcp mtu start p).len ≡ p.len
unfolding clamp_tcp
clamp_tcp-len mtu start p = ground (
  arith,
  search_mss-len ((at p (start + 12) / 2 ^ 4 - 5) * 4) start ((at p (start + 12) / 2 ^ 4 - 5) * 4) 0
      (u16 (mtu + 2 ^ 16 - (start + 20))) p,
)

pub clamp_mss-len :
    (r : Router) (source via : List ℕ) (p : Packet) → (clamp_mss r source via p).len ≡ p.len
unfolding clamp_mss
clamp_mss-len r source via p = elim (Option-cases (tcp_start p)) [
  | inl e ↦ ground (arith, e)
  | inr (start, e) ↦ rw (e) (
      ground
        (arith, clamp_tcp-len (r.node_mtu via) start p, clamp_tcp-len (r.node_mtu source) start p))
]

pub do_decrement_ttl-len : (p q : Packet) → do_decrement_ttl p ≡ go_on q → q.len ≡ p.len
unfolding do_decrement_ttl decrement_ipv4 decrement_ipv6 lower_ttl
do_decrement_ttl-len p q h = ground (arith, h)
