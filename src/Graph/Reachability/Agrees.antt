-- ===== src/Graph/Reachability/Agrees.antt =====
-- What a run of `graph` leaves behind.
use tinc_quic.Common.{ℕ, ◌≤◌, ◌<◌, ◌≡◌, sym, ◌∙◌, ◌↔◌, arith, Bool, true, some, List, All}
use tinc_quic.Graph.{Graph, Node, update_node_udp}
use tinc_quic.Graph.Bfs.Correct.{PlainGraph, Walk}
use tinc_quic.Graph.Bfs.Ends.{IsGraph}
use tinc_quic.Graph.Bfs.Shortest.{sssp_bfs_reaches}
use tinc_quic.Graph.Kruskal.{MstState, kruskal_start}
use tinc_quic.Graph.Kruskal.Growth.{Prim, Weighed}
use tinc_quic.Graph.Kruskal.Loop.{Ends, mst_kruskal-Prim}
use tinc_quic.Graph.Reachability.{check_node, check_reachability, graph_run, change, Event}
use tinc_quic.Subnet.Lookup.{SubnetState, subnet_cache_flush}
use tinc_quic.Graph.Bfs.Shortest
use tinc_quic.Graph.Kruskal.Loop

check_node-reachable :
    (myself now k : ℕ) (n : Node) → (check_node myself now k n).status.reachable ≡ n.status.visited
unfolding check_node change update_node_udp
check_node-reachable myself now k n = ground arith

check_reachability-reachable :
    (device_standby : Bool) (now : ℕ) (g : Graph) (nodes : ℕ → Node) (v : ℕ)
    → v < g.count
    → ((check_reachability device_standby now g nodes).0 v).status.reachable
      ≡ (nodes v).status.visited
unfolding check_reachability
check_reachability-reachable device_standby now g nodes v inside =
    ground (arith, inside, check_node-reachable g.myself now v (nodes v))

-- In a sound graph without OPTION_INDIRECT whose edges stand in the order of their weights, with
-- ends among its nodes, and with rounds enough for both searches, a run of `graph` ends. It has then
-- flushed the subnet caches and marked a node as reachable exactly if a walk of followed edges leads
-- to it from the node itself. Its tree grows as by Prim's algorithm from the starting point: each
-- time by an edge with a reverse of which exactly one end is in the tree, and none of those is
-- lighter, until there is none.
pub graph_run-reachable :
    (g : Graph) (known : IsGraph g) (plain : PlainGraph g) (nodes : ℕ → Node)
    (device_standby : Bool) (subnets : SubnetState) (now fuel v : ℕ)
    → All (Ends g.count) g.edges
    → Weighed g.edges
    → Shortest.rounds g ≤ fuel
    → Loop.rounds g.count g.edges ≤ fuel
    → v < g.count
    → (checked : ℕ → Node) × (tree : MstState) × (events : List Event) × (graph_run fuel
          device_standby now g subnets nodes
        ≡ some (subnet_cache_flush subnets, checked, tree, events))
      × (((checked v).status.reachable ≡ true) ↔ ((k : ℕ) × Walk g k v))
      × Prim g.edges (kruskal_start (λ k. (checked k).status.reachable) g.edges) tree
unfolding graph_run
graph_run-reachable g known plain nodes device_standby subnets now fuel v ends weighed bfs_rounds
      mst_rounds inside =
    let (found, done, visits) = sssp_bfs_reaches g known plain nodes fuel v bfs_rounds in
    let checked = (check_reachability device_standby now g found).0 in
    let events = (check_reachability device_standby now g found).1 in
    let (tree, grown, prim) =
      mst_kruskal-Prim g.count fuel (λ k. (checked k).status.reachable) g.edges ends weighed
        mst_rounds in
    let agrees = check_reachability-reachable device_standby now g found v inside in
    (
      checked,
      tree,
      events,
      rw (done, graph_run, grown),
      (λ h. visits.0 (sym agrees ∙ h), λ w. agrees ∙ visits.1 w),
      prim,
    )
