-- ===== src/Graph/Bfs/Shortest.antt =====
-- sssp_bfs finds the reachable nodes and their distances.
use tinc_quic.Common.{ℕ, suc, ◌+◌, ◌*◌, ◌≤◌, ◌≡◌, refl, sym, ap, ◌↔◌, inl, inr, arith, true}
use tinc_quic.Common.{some, [], length, Among}
use mathlib.Core.Path.{subst}
use tinc_quic.Graph.{Graph, Node}
use tinc_quic.Graph.Bfs.{Search, bfs_start, sssp_bfs, finished}
use tinc_quic.Graph.Bfs.Correct.{Inv, PlainGraph, Walk, Inv-bfs_start, start, step}
use tinc_quic.Graph.Bfs.Ends.{work, IsGraph, sum-bound, chances, chances-bound}
use tinc_quic.Graph.Bfs.Step.{Seen, hops}
use tinc_quic.Graph.Bfs.Total.{bfs_loop-Inv}

-- Rounds that are always enough.
abbrev pub rounds : Graph → ℕ
rounds g = g.count * suc (length g.edges) + 1

work-bfs_start : (g : Graph) (nodes : ℕ → Node) → work g (bfs_start g nodes) ≤ rounds g
unfolding work bfs_start
work-bfs_start g nodes = omega (
  arith,
  sum-bound g.count (suc (length g.edges)) (λ v. chances g.edges ((bfs_start g nodes).nodes v))
      (λ k. chances-bound g.edges ((bfs_start g nodes).nodes k)),
)

module _ (g : Graph) (known : IsGraph g) (plain : PlainGraph g) (nodes : ℕ → Node) (fuel : ℕ)
    (enough : rounds g ≤ fuel) where
  search :
      (found : ℕ → Node) × (sssp_bfs fuel g nodes ≡ finished found)
      × Inv g (record { nodes = found; todo = [] })
  unfolding sssp_bfs
  search =
      bfs_loop-Inv g known plain fuel (bfs_start g nodes) (Inv-bfs_start g nodes)
        (omega (arith, work-bfs_start g nodes, enough))

-- With an empty list, what was seen is closed under the edges, and distances grow by one at most.
complete :
    (g : Graph) (s : Search) (k v : ℕ)
    → s.todo ≡ []
    → Inv g s
    → Walk g k v
    → Seen s v × (hops s v ≤ k)
complete g s k v done inv (start zero_steps here) = (
  subst (Seen s) (sym here) (inv.mine.0),
  omega (arith, zero_steps, inv.mine.1, ap (λ x. hops s x) here),
)
complete g s l v done inv (step {k} {u = u} walk link longer) =
    let (seen_u, near_u) = complete g s k u done inv walk in
    elim (inv.closed u v seen_u link) [
      | inl waits ↦ absurd (subst (Among u) done waits)
      | inr (seen_v, near_v) ↦ (seen_v, omega (arith, near_v, near_u, longer))
    ]

-- In a sound graph without OPTION_INDIRECT, sssp_bfs returns within `rounds` rounds, and has then
-- visited exactly the nodes to which a walk of followed edges leads from the node itself.
pub sssp_bfs_reaches :
    (g : Graph) (known : IsGraph g) (plain : PlainGraph g) (nodes : ℕ → Node) (fuel v : ℕ)
    → rounds g ≤ fuel
    → (found : ℕ → Node) × (sssp_bfs fuel g nodes ≡ finished found)
      × (((found v).status.visited ≡ true) ↔ ((k : ℕ) × Walk g k v))
sssp_bfs_reaches g known plain nodes fuel v enough =
    let (found, ends, inv) = search g known plain nodes fuel enough in
    let s : Search = record { nodes = found; todo = [] } in
    (found, ends, (λ h. (hops s v, inv.sound v h), λ (k, walk). (complete g s k v refl inv walk).0))

-- In such a graph, and for every walk of followed edges to a node, sssp_bfs returns with a distance
-- of the node that is the length of some walk to it, and is not longer than the given walk.
pub sssp_bfs_shortest :
    (g : Graph) (known : IsGraph g) (plain : PlainGraph g) (nodes : ℕ → Node) (fuel k v : ℕ)
    → rounds g ≤ fuel
    → Walk g k v
    → (found : ℕ → Node) × (d : ℕ) × (sssp_bfs fuel g nodes ≡ finished found)
      × ((found v).distance ≡ some d)
      × Walk g d v
      × (d ≤ k)
sssp_bfs_shortest g known plain nodes fuel k v enough walk =
    let (found, ends, inv) = search g known plain nodes fuel enough in
    let s : Search = record { nodes = found; todo = [] } in
    let (seen_v, near) = complete g s k v refl inv walk in
    (found, hops s v, ends, inv.direct.measured v seen_v, inv.sound v seen_v, near)
