-- ===== src/Graph/Tests.antt =====
-- A run on a path of three nodes, and the theorems at it.
use tinc_quic.Common.{ℕ, ◌≤◌, ◌≡◌, refl, ap, ◌↔◌, inl, inr, arith, true, none, some, List, []}
use tinc_quic.Common.{◌∷◌, ◌==◌, if◌then◌else◌, All}
use tinc_quic.Common.Int.{pos, ◌-ℤ◌}
use tinc_quic.Graph.{unspec, known, Edge, Graph, Node}
use tinc_quic.Graph.Bfs.{finished, sssp_bfs}
use tinc_quic.Graph.Bfs.Correct.{Walk, start, step, PlainGraph}
use tinc_quic.Graph.Bfs.Ends.{IsGraph}
use tinc_quic.Graph.Bfs.Scan.{Plain}
use tinc_quic.Graph.Bfs.Shortest.{sssp_bfs_shortest}
use tinc_quic.Graph.Kruskal.{MstState, mst_kruskal, kruskal_start}
use tinc_quic.Graph.Kruskal.Growth.{Prim, Weighed}
use tinc_quic.Graph.Kruskal.Loop.{Ends, mst_kruskal-Prim}
use tinc_quic.Graph.Reachability.{Event, no_status, graph_run}
use tinc_quic.Graph.Reachability.Agrees.{graph_run-reachable}
use tinc_quic.Quic.Datagram.{mtu}
use tinc_quic.Subnet.Lookup.{init_subnets, subnet_cache_flush}

abbrev edge : ℕ → ℕ → ℕ → ℕ → Edge
edge from to weight reverse = record {
  from = from;
  to = to;
  address = known to;
  options = 0;
  weight = pos weight;
  connection = some to;
  reverse = some reverse;
}

-- In the order of their weights.
abbrev all_edges : List Edge
all_edges = edge 0 1 5 1 ∷ edge 1 0 5 0 ∷ edge 1 2 7 3 ∷ edge 2 1 7 2 ∷ []

abbrev edges_of : ℕ → List Edge
edges_of u =
    if u == 0
    then edge 0 1 5 1 ∷ []
    else if u == 1
    then edge 1 0 5 0 ∷ edge 1 2 7 3 ∷ []
    else if u == 2
    then edge 2 1 7 2 ∷ []
    else []

abbrev path : Graph
path = record { count = 3; myself = 0; edges = all_edges; edge_tree = edges_of }

abbrev new_node : Node
new_node = record {
  options = 0;
  address = unspec;
  status = no_status;
  last_state_change = 0;
  last_req_key = 0;
  distance = none;
  nexthop = none;
  prevedge = none;
  via = none;
  maxrecentlen = 0;
  minmtu = 0;
  maxmtu = mtu;
  mtuprobes = 0;
}

abbrev nodes : ℕ → Node
nodes k = new_node

path-IsGraph : IsGraph path
path-IsGraph = record {
  known_edges = λ u e among. ground (arith, among);
  known_ends = λ u e among. ground (arith, among, ap (λ (x : Edge). x.to));
  known_self = omega arith;
}

path-PlainGraph : PlainGraph path
unfolding PlainGraph Plain
path-PlainGraph u e among = ground (arith, among)

path-Ends : All (Ends 3) all_edges
path-Ends = omega arith

path-Weighed : Weighed all_edges
unfolding ◌-ℤ◌
path-Weighed = ((refl, (refl, (refl, tt))), ((refl, (refl, tt)), ((refl, tt), (tt, tt))))

Walk-to_2 : Walk path 2 2
Walk-to_2 =
    step (step (start refl refl) (edge 0 1 5 1, inl refl, (refl, λ h. omega (arith, h)), refl) refl)
      (edge 1 2 7 3, inr (inl refl), (refl, λ h. omega (arith, h)), refl) refl

sssp_bfs_shortest_example :
    (found : ℕ → Node) × (d : ℕ) × (sssp_bfs 20 path nodes ≡ finished found)
    × ((found 2).distance ≡ some d)
    × Walk path d 2
    × (d ≤ 2)
sssp_bfs_shortest_example =
    sssp_bfs_shortest path path-IsGraph path-PlainGraph nodes 20 2 2 (omega arith) Walk-to_2

mst_kruskal-Prim_example :
    (t : MstState) × (mst_kruskal 20 (λ k. true) all_edges ≡ some t)
    × Prim all_edges (kruskal_start (λ k. true) all_edges) t
mst_kruskal-Prim_example =
    mst_kruskal-Prim 3 20 (λ k. true) all_edges path-Ends path-Weighed (omega arith)

graph_run-reachable_example :
    (checked : ℕ → Node) × (tree : MstState) × (events : List Event) × (graph_run 20 true 7 path
        init_subnets nodes
      ≡ some (subnet_cache_flush init_subnets, checked, tree, events))
    × (((checked 2).status.reachable ≡ true) ↔ ((k : ℕ) × Walk path k 2))
    × Prim all_edges (kruskal_start (λ k. (checked k).status.reachable) all_edges) tree
graph_run-reachable_example =
    graph_run-reachable path path-IsGraph path-PlainGraph nodes true init_subnets 7 20 2 path-Ends
      path-Weighed (omega arith) (omega arith) (omega arith)
