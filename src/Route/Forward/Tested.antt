-- ===== src/Route/Forward/Tested.antt =====
-- The tests that a packet has passed where forward_ipv4 sends it.
use tinc_quic.Common.{ℕ, ◌≡◌, refl, sym, ap, ◌∙◌, arith, Bool, true, false, ◌&&◌, not, Option}
use tinc_quic.Common.{none, some, List, [], if◌then◌else◌, bytes_eq}
use tinc_quic.Route.{Router, Packet, send_packet, Action, dropped, unreachable_ipv4, ether_size}
use tinc_quic.Route.{unreachable_ipv6, route_neighborsol, do_decrement_ttl, decrement_ipv4}
use tinc_quic.Route.{go_on, Ttl, decrement_ipv6, stop, broadcast_packet, send_fragments}
use tinc_quic.Route.Clamp.{clamp_mss}
use tinc_quic.Route.Clamp.Laws.{clamp_mss-len, do_decrement_ttl-len}
use tinc_quic.Route.Forward.{deliver_ipv4, in_transit, is_node, next_via, too_large}
use tinc_quic.Route.Forward.{hand_over_ipv4, after_ttl_ipv4, forward_ipv4, inherit_ipv4}

-- The tests of the code that have let a packet pass.
pub record Tested (least : ℕ) (r : Router) (source owner : List ℕ) (p : Packet) (q : Packet)
    : Type 0 where
  pub not_back : bytes_eq owner source ≡ false
  pub owner_up : r.reachable owner ≡ true
  pub forwards : r.forwarding_off && in_transit r source owner ≡ false
  pub no_loop : is_node (next_via r owner) source ≡ false
  pub direct : r.directonly && not (is_node (next_via r owner) owner) ≡ false
  pub fits : (via : List ℕ) → next_via r owner ≡ some via → too_large r least via p ≡ false
  pub same_len : q.len ≡ p.len

get_name : Option (List ℕ) → List ℕ
get_name none = []
get_name (some v) = v

unfoldable pub is_send : Action → Bool
is_send dropped = false
is_send (unreachable_ipv4 e t c p) = false
is_send (unreachable_ipv6 e t c p) = false
is_send (broadcast_packet p) = false
is_send (route_neighborsol p) = false
is_send (send_fragments via fragments) = false
is_send (send_packet to p) = true

-- A test that leads to another action has failed where the packet is sent.
test_failed :
    (b : Bool) (other rest sent : Action)
    → is_send other ≡ false
    → is_send sent ≡ true
    → (if b then other else rest) ≡ sent
    → (b ≡ false) × (rest ≡ sent)
test_failed true other rest sent stops sends h = absurd (cc)
test_failed false other rest sent stops sends h = (refl, h)

send_packet-inj :
    (to to' : List ℕ) (p q : Packet) → send_packet to p ≡ send_packet to' q → (to ≡ to') × (p ≡ q)
send_packet-inj to to' p q h = (cc (h), cc (h))

-- What delivery checks, and the length that is sent.
Delivered : ℕ → Router → List ℕ → List ℕ → Packet → List ℕ → Packet → Type 0
Delivered least r source owner p to q =
    (is_node (next_via r owner) source ≡ false)
    × (r.directonly && not (is_node (next_via r owner) owner) ≡ false)
    × ((via : List ℕ) → next_via r owner ≡ some via → too_large r least via p ≡ false)
    × (owner ≡ to)
    × (q.len ≡ p.len)

hand_over_ipv4_sends :
    (r : Router) (source owner to : List ℕ) (p q : Packet) (via : Option (List ℕ))
    → hand_over_ipv4 r source owner p via ≡ send_packet to q
    → ((v : List ℕ) → via ≡ some v → too_large r 590 v p ≡ false) × (owner ≡ to) × (q.len ≡ p.len)
unfolding hand_over_ipv4 is_send get_name
hand_over_ipv4_sends r source owner to p q none h =
    let (there, as_is) = send_packet-inj owner to p q h in
    (λ v e. absurd cc, there, ap (λ (x : Packet). x.len) (sym as_is))
hand_over_ipv4_sends r source owner to p q (some via) h =
    let (fits, h') =
      test_failed (too_large r 590 via p) _ _ (send_packet to q) (ground arith) refl h in
    let (there, clamped) = send_packet-inj owner to (clamp_mss r source via p) q h' in
    (
      λ v e. ap (λ w. too_large r 590 (get_name w) p) (sym e) ∙ fits,
      there,
      ap (λ (x : Packet). x.len) (sym clamped) ∙ clamp_mss-len r source via p,
    )

deliver_ipv4_sends :
    (r : Router) (source owner to : List ℕ) (p q : Packet)
    → deliver_ipv4 r source owner p ≡ send_packet to q
    → Delivered 590 r source owner p to q
unfolding deliver_ipv4 Delivered is_send
deliver_ipv4_sends r source owner to p q h =
    let (no_loop, h1) =
      test_failed (is_node (next_via r owner) source) dropped _ (send_packet to q) refl refl h in
    let (direct, h2) =
      test_failed (r.directonly && not (is_node (next_via r owner) owner))
        (unreachable_ipv4 ether_size 3 9 p) _ (send_packet to q) refl refl h1 in
    let (fits, there, as_long) = hand_over_ipv4_sends r source owner to p q (next_via r owner) h2 in
    (no_loop, direct, fits, there, as_long)

-- A packet of the same length that fits.
too_large-len :
    (r : Router) (least : ℕ) (via : List ℕ) (p q : Packet)
    → p.len ≡ q.len
    → too_large r least via p ≡ too_large r least via q
unfolding too_large
too_large-len r least via p q h = rw (h)

forward_end :
    (r : Router) (source owner to : List ℕ) (p q : Packet) (ttl : Ttl)
    → ((p' : Packet) → ttl ≡ go_on p' → p'.len ≡ p.len)
    → ((a : Action) → ttl ≡ stop a → is_send a ≡ false)
    → after_ttl_ipv4 r source owner ttl ≡ send_packet to q
    → Delivered 590 r source owner p to q
unfolding after_ttl_ipv4 inherit_ipv4 Delivered is_send
forward_end r source owner to p q (stop a) keeps stops h = absurd (cc (h, stops a refl))
forward_end r source owner to p q (go_on p') keeps stops h =
    let p1 = inherit_ipv4 r p' in
    let kept : p1.len ≡ p.len = ground (arith, keeps p' refl) in
    let (no_loop, direct, fits, there, as_long) = deliver_ipv4_sends r source owner to p1 q h in
    (
      no_loop,
      direct,
      λ v e. too_large-len r 590 v p p1 (sym kept) ∙ fits v e,
      there,
      as_long ∙ kept,
    )

ttl_stops : (p : Packet) (a : Action) → do_decrement_ttl p ≡ stop a → is_send a ≡ false
unfolding do_decrement_ttl decrement_ipv4 decrement_ipv6 is_send
ttl_stops p a h = ground (arith, h)

-- The test for the time to live, as it stands in the code.
ttl_test-len :
    (b : Bool) (p p' : Packet)
    → (if b then do_decrement_ttl p else go_on p) ≡ go_on p'
    → p'.len ≡ p.len
ttl_test-len b p p' h = ground (arith, h, do_decrement_ttl-len p p')

ttl_test_stops :
    (b : Bool) (p : Packet) (a : Action)
    → (if b then do_decrement_ttl p else go_on p) ≡ stop a
    → is_send a ≡ false
ttl_test_stops b p a h = ground (arith, h, ttl_stops p a)

pub forward_ipv4_sends :
    (r : Router) (source owner to : List ℕ) (p q : Packet)
    → forward_ipv4 r source owner p ≡ send_packet to q
    → (owner ≡ to) × Tested 590 r source owner p q
unfolding forward_ipv4 is_send Delivered after_ttl_ipv4
forward_ipv4_sends r source owner to p q h =
    let sent = send_packet to q in
    let (not_back, h1) = test_failed (bytes_eq owner source) dropped _ sent refl refl h in
    let (up, h2) =
      test_failed (not (r.reachable owner)) (unreachable_ipv4 ether_size 3 0 p) _ sent refl refl
        h1 in
    let (forwards, h3) =
      test_failed (r.forwarding_off && in_transit r source owner)
        (unreachable_ipv4 ether_size 3 9 p) _ sent refl refl h2 in
    let b = r.decrement_ttl && in_transit r source owner in
    let (no_loop, direct, fits, there, as_long) =
      forward_end r source owner to p q (if b then do_decrement_ttl p else go_on p)
        (λ p' e. ttl_test-len b p p' e) (λ a e. ttl_test_stops b p a e) h3 in
    (
      there,
      record {
        not_back = not_back;
        owner_up = ground (arith, up);
        forwards = forwards;
        no_loop = no_loop;
        direct = direct;
        fits = fits;
        same_len = as_long;
      },
    )
