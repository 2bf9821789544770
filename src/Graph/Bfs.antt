-- ===== src/Graph/Bfs.antt =====
-- sssp_bfs of src/graph.c.
pub mod Step
pub mod Extend
pub mod Scan
pub mod Correct
pub mod Ends
pub mod Total
pub mod Shortest
use tinc_quic.Common.{ℕ, zero, suc, ◌+◌, ◌-◌, ◌*◌, ◌/◌, ◌%◌, ◌^◌, ◌≤◌, ◌<◌, bit_and, bit_or}
use tinc_quic.Common.{◌≡◌, refl, sym, ap, ◌∙◌, ◌≢◌, ◌↔◌, ◌⊎◌, inl, inr, arith, Bool, true}
use tinc_quic.Common.{false, ◌&&◌, ◌||◌, not, Option, none, some, List, [], ◌∷◌, ◌++◌, map, ltb}
use tinc_quic.Common.{leb, ◌==◌, if◌then◌else◌, ◌>>=◌}
use tinc_quic.Common.Int.{is_negative, ◌-ℤ◌}
use tinc_quic.Graph.{Address, Edge, Graph, Node, has_reverse, known, update, update_node_udp}
use tinc_quic.Graph.{unspec, unknown}

-- The list holds the nodes to do behind the one that is examined.
pub record Search : Type 0 where
  pub nodes : ℕ → Node
  pub todo : List ℕ

-- `e->options & OPTION_INDIRECT`, or the node itself is indirect
unfoldable pub goes_indirect : Node → Edge → Bool
goes_indirect n e = n.status.indirect || e.options % 2 == 1

-- `to->distance == n->distance + 1`
unfoldable pub one_further : Node → Node → Bool
one_further n to = elim to.distance [
  | none ↦ false
  | some there ↦ elim n.distance [ none ↦ there == 0 | some here ↦ there == here + 1 ]
]

-- `e->weight >= to->prevedge->weight`; only a node with an edge before it is asked.
unfoldable pub not_lighter : Edge → Node → Bool
not_lighter e to = elim to.prevedge [
  | none ↦ true
  | some p ↦ not (is_negative (e.weight -ℤ p.weight))
]

unfoldable pub no_better : Node → Node → Edge → Bool
no_better n to e =
    to.status.visited
    && ((not to.status.indirect || goes_indirect n e)
        && (not (one_further n to) || not_lighter e to))

unfoldable pub next_hop : ℕ → Node → Node → Edge → Option ℕ
next_hop myself n to e =
    if not to.status.visited || (one_further n to && not_lighter e to)
    then elim n.nexthop [ none ↦ none | some hop ↦ if hop == myself then some e.to else some hop ]
    else to.nexthop

abbrev pub is_unspec : Address → Bool
is_unspec unspec = true
is_unspec unknown = false
is_unspec (known a) = false

abbrev pub is_unknown : Address → Bool
is_unknown unspec = false
is_unknown unknown = true
is_unknown (known a) = false

-- The fields of `e->to` that are set.
unfoldable pub improve : ℕ → Node → Node → Edge → Node
improve myself n to e =
    let indirect = goes_indirect n e in
    let better : Node = record to {
      nexthop = next_hop myself n to e;
      status = record to.status { visited = true; indirect = indirect };
      prevedge = some e;
      via = if indirect then n.via else some e.to;
      options = e.options;
      distance = elim n.distance [ none ↦ some 0 | some d ↦ some (d + 1) ];
    } in
    if not to.status.reachable || (is_unspec to.address && not (is_unknown e.address))
    then update_node_udp better (some e.address)
    else better

-- The body of the loop over the edges of node `n`.
unfoldable pub examine : ℕ → ℕ → Search → Edge → Search
examine myself n s e =
    if not (has_reverse e) || e.to == myself
    then s
    else if no_better (s.nodes n) (s.nodes e.to) e
    then s
    else record {
      nodes = update s.nodes e.to (improve myself (s.nodes n) (s.nodes e.to) e);
      todo = s.todo ++ (e.to ∷ []);
    }

pub data Outcome : Type 0 where
  finished : (ℕ → Node) → Outcome
  aborted : Outcome
  out_of_fuel : Outcome

pub scan_edges : ℕ → ℕ → List Edge → Search → Search
scan_edges myself n [] s = s
scan_edges myself n (e ∷ edges) s = scan_edges myself n edges (examine myself n s e)

-- The loop over the list. `n` leaves it when its edges are examined, and nothing reads it in
-- between, so here it leaves it first.
pub bfs_loop : Graph → ℕ → Search → Outcome
bfs_loop g zero s = elim s.todo [ [] ↦ finished s.nodes | n ∷ rest ↦ out_of_fuel ]
bfs_loop g (suc fuel) s = elim s.todo [
  | [] ↦ finished s.nodes
  | n ∷ rest ↦ elim (s.nodes n).distance [
    | none ↦ aborted
    | some d ↦
        bfs_loop g fuel
          (scan_edges g.myself n (g.edge_tree n) (record { nodes = s.nodes; todo = rest }))
  ]
]

unfoldable pub clear_node : Node → Node
clear_node n = record n {
  status = record n.status { visited = false; indirect = true };
  distance = none;
}

unfoldable pub start_node : ℕ → Node → Node
start_node myself n = record n {
  status = record n.status { visited = true; indirect = false };
  nexthop = some myself;
  prevedge = none;
  via = some myself;
  distance = some 0;
}

unfoldable pub bfs_start : Graph → (ℕ → Node) → Search
bfs_start g nodes =
    let cleared = λ (k : ℕ). clear_node (nodes k) in
    record {
      nodes = update cleared g.myself (start_node g.myself (cleared g.myself));
      todo = g.myself ∷ [];
    }

unfoldable pub sssp_bfs : ℕ → Graph → (ℕ → Node) → Outcome
sssp_bfs fuel g nodes = bfs_loop g fuel (bfs_start g nodes)
