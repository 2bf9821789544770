-- ===== src/Route/Forward/Way.antt =====
-- The first node of the way to another node in route_ipv4, and the tests that name it.
use tinc_quic.Common.{ℕ, ◌≤◌, ◌≡◌, refl, sym, ap, ◌∙◌, ◌≢◌, ◌⊎◌, inl, inr, arith, true, false}
use tinc_quic.Common.{Option, none, some, List, bytes_eq, bytes_eq_sound, bytes_eq_self}
use tinc_quic.Common.{Bool-cases, Option-cases}
use mathlib.Core.Path.{subst}
use tinc_quic.Route.{Router, Packet}
use tinc_quic.Route.Forward.{in_transit, is_node, next_via, too_large}

-- The first node of the way to `to`: the one that it goes through, or, where that is this node, the
-- next hop.
pub Way : Router → List ℕ → List ℕ → Type 0
Way r to v = (r.via to ≡ some v × v ≢ r.myself) ⊎ (r.via to ≡ some r.myself × r.nexthop to ≡ some v)

pub bytes_eq-differ : (xs ys : List ℕ) → bytes_eq xs ys ≡ false → xs ≢ ys
bytes_eq-differ xs ys h same = absurd (cc (h, same, bytes_eq_self ys))

-- The cases of next_via.
no_way : (r : Router) (to : List ℕ) → r.via to ≡ none → next_via r to ≡ none
unfolding next_via
no_way r to e = rw (e) refl

way_from_here :
    (r : Router) (to w : List ℕ)
    → r.via to ≡ some w
    → bytes_eq w r.myself ≡ true
    → next_via r to ≡ r.nexthop to
unfolding next_via
way_from_here r to w e here = rw (e, here) refl

way_by_other :
    (r : Router) (to w : List ℕ)
    → r.via to ≡ some w
    → bytes_eq w r.myself ≡ false
    → next_via r to ≡ some w
unfolding next_via
way_by_other r to w e away = rw (e, away) refl

pub next_via-Way : (r : Router) (to v : List ℕ) → Way r to v → next_via r to ≡ some v
unfolding Way
next_via-Way r to v (inl (e, other)) = elim (Bool-cases (bytes_eq v r.myself)) [
  | inl here ↦ absurd (other (bytes_eq_sound v r.myself here))
  | inr away ↦ way_by_other r to v e away
]
next_via-Way r to v (inr (e, next)) = way_from_here r to r.myself e (bytes_eq_self r.myself) ∙ next

pub Way-next_via : (r : Router) (to v : List ℕ) → next_via r to ≡ some v → Way r to v
unfolding Way
Way-next_via r to v h = elim (Option-cases (r.via to)) [
  | inl e ↦ absurd (cc (h, no_way r to e))
  | inr (w, e) ↦ elim (Bool-cases (bytes_eq w r.myself)) [
    | inl here ↦
        inr (e ∙ ap some (bytes_eq_sound w r.myself here), sym (way_from_here r to w e here) ∙ h)
    | inr away ↦
        let by_w : next_via r to ≡ some w = way_by_other r to w e away in
        let same : w ≡ v = cc (h, by_w) in
        inl (e ∙ ap some same, subst (λ x. x ≢ r.myself) same (bytes_eq-differ w r.myself away))
  ]
]

pub in_transit-ends :
    (r : Router) (source to : List ℕ)
    → in_transit r source to ≡ false
    → (source ≡ r.myself) ⊎ (to ≡ r.myself)
unfolding in_transit
in_transit-ends r source to h = elim (Bool-cases (bytes_eq source r.myself)) [
  | inl e ↦ inl (bytes_eq_sound source r.myself e)
  | inr e ↦ inr (bytes_eq_sound to r.myself (ground (arith, h, e)))
]

pub too_large-fits :
    (r : Router) (v : List ℕ) (p : Packet)
    → too_large r 590 v p ≡ false
    → (p.len ≤ r.node_mtu v) ⊎ ((p.len ≤ 590) ⊎ (v ≡ r.myself))
unfolding too_large
too_large-fits r v p h = elim (Bool-cases (bytes_eq v r.myself)) [
  | inl e ↦ inr (inr (bytes_eq_sound v r.myself e))
  | inr e ↦ ground (arith, h, e)
]

pub is_node-some : (via : Option (List ℕ)) (v : List ℕ) → is_node via v ≡ true → via ≡ some v
is_node-some none v h = absurd cc
is_node-some (some w) v h = ap some (bytes_eq_sound w v h)
