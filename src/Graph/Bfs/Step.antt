-- ===== src/Graph/Bfs/Step.antt =====
-- What examining one edge does, in a graph without OPTION_INDIRECT.
use tinc_quic.Common.{ℕ, ◌+◌, ◌%◌, ◌≡◌, refl, ◌≢◌, ◌⊎◌, arith, true, false, ◌&&◌, not, Option}
use tinc_quic.Common.{none, some, [], ◌∷◌, ◌++◌, ◌==◌}
use tinc_quic.Graph.{Edge, has_reverse, update, update_node_udp, Node}
use tinc_quic.Graph.Bfs.{Search, improve, examine, no_better, goes_indirect, one_further}
use tinc_quic.Graph.Bfs.{not_lighter}

abbrev pub Seen : Search → ℕ → Type 0
Seen s v = (s.nodes v).status.visited ≡ true

unfoldable pub hops_of : Option ℕ → ℕ
hops_of none = 0
hops_of (some d) = d

abbrev pub hops : Search → ℕ → ℕ
hops s v = hops_of (s.nodes v).distance

-- Nothing that was visited is indirect, and its distance is set.
pub record IsDirect (s : Search) : Type 0 where
  pub direct : (v : ℕ) → Seen s v → (s.nodes v).status.indirect ≡ false
  pub measured : (v : ℕ) → Seen s v → (s.nodes v).distance ≡ some (hops s v)

-- An edge that the search follows.
abbrev pub Followed : ℕ → Edge → Type 0
Followed myself e = (has_reverse e ≡ true) × (e.to ≢ myself)

pub improve-visited :
    (myself : ℕ) (n to : Node) (e : Edge) → (improve myself n to e).status.visited ≡ true
unfolding improve update_node_udp
improve-visited myself n to e = ground arith

pub improve-indirect :
    (myself : ℕ) (n to : Node) (e : Edge)
    → (improve myself n to e).status.indirect ≡ goes_indirect n e
unfolding improve update_node_udp
improve-indirect myself n to e = ground arith

pub improve-distance :
    (myself : ℕ) (n to : Node) (e : Edge) (d : ℕ)
    → n.distance ≡ some d
    → (improve myself n to e).distance ≡ some (d + 1)
unfolding improve update_node_udp
improve-distance myself n to e d at = ground (arith, at)

pub improve-prevedge :
    (myself : ℕ) (n to : Node) (e : Edge) → (improve myself n to e).prevedge ≡ some e
unfolding improve update_node_udp
improve-prevedge myself n to e = ground arith

pub improve-via :
    (myself : ℕ) (n to : Node) (e : Edge)
    → goes_indirect n e ≡ false
    → (improve myself n to e).via ≡ some e.to
unfolding improve update_node_udp
improve-via myself n to e direct = ground (arith, direct)

unfoldable pub taken : ℕ → ℕ → Search → Edge → Search
taken myself n s e = record {
  nodes = update s.nodes e.to (improve myself (s.nodes n) (s.nodes e.to) e);
  todo = s.todo ++ (e.to ∷ []);
}

pub taken-todo :
    (myself n : ℕ) (s : Search) (e : Edge) → (taken myself n s e).todo ≡ s.todo ++ (e.to ∷ [])
unfolding taken
taken-todo myself n s e = refl

module _ (myself n : ℕ) (s : Search) (e : Edge) (ok : IsDirect s) (at : Seen s n) where
  pub examine_nothing : (has_reverse e && not (e.to == myself)) ≡ false → examine myself n s e ≡ s
  unfolding examine
  examine_nothing h = ground (arith, h)

  -- An edge that is followed is taken to an unseen node, or to one that is as far behind `n` and has
  -- a heavier edge before it; else its end has been seen.
  pub examine_cases :
      Followed myself e
      → e.options % 2 ≡ 0
      → ((examine myself n s e ≡ s) × Seen s e.to)
        ⊎ ((examine myself n s e ≡ taken myself n s e)
            × (((s.nodes e.to).status.visited ≡ false)
                ⊎ (Seen s e.to
                    × (hops s e.to ≡ hops s n + 1)
                    × (not_lighter e (s.nodes e.to) ≡ false))))
  unfolding examine taken no_better one_further goes_indirect hops_of
  examine_cases (both, other) plain = ground (
    arith,
    both,
    other,
    plain,
    ok.direct n at,
    ok.measured n at,
    ok.direct e.to,
    ok.measured e.to,
  )
