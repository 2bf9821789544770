-- ===== src/Graph/Kruskal.antt =====
-- mst_kruskal of src/graph.c. Despite its name it grows one tree: it is Prim's algorithm.
pub mod Growth
pub mod Count
pub mod Loop
use tinc_quic.Common.{ℕ, zero, suc, ◌+◌, ◌-◌, ◌*◌, ◌/◌, ◌%◌, ◌^◌, ◌≤◌, ◌<◌, bit_and, bit_or}
use tinc_quic.Common.{◌≡◌, refl, sym, ap, ◌∙◌, ◌≢◌, ◌↔◌, ◌⊎◌, inl, inr, arith, Bool, true}
use tinc_quic.Common.{false, ◌&&◌, ◌||◌, not, Option, none, some, List, [], ◌∷◌, ◌++◌, map, ltb}
use tinc_quic.Common.{leb, ◌==◌, if◌then◌else◌, ◌>>=◌, get_elem?}
use tinc_quic.Graph.{Edge, update, has_reverse}

-- `status.visited` of the nodes and `status.mst` of the connections
pub record MstState : Type 0 where
  pub visited : ℕ → Bool
  pub mst : ℕ → Bool

abbrev pub same : Bool → Bool → Bool
same true b = b
same false b = not b

-- `e->reverse` is there, and one end has been visited.
unfoldable pub crossing : MstState → Edge → Bool
crossing s e = has_reverse e && not (same (s.visited e.from) (s.visited e.to))

unfoldable pub mark_connection : Option ℕ → (ℕ → Bool) → ℕ → Bool
mark_connection none mst = mst
mark_connection (some c) mst = update mst c true

-- `e->reverse->connection`
unfoldable pub reverse_connection : List Edge → Edge → Option ℕ
reverse_connection edges e = do r ← e.reverse; back ← get_elem? edges r; back.connection

unfoldable pub add_safe_edge : List Edge → Edge → MstState → MstState
add_safe_edge edges e s = record {
  visited = update (update s.visited e.from true) e.to true;
  mst = mark_connection (reverse_connection edges e) (mark_connection e.connection s.mst);
}

-- The loop over the tree of edges, `rest` of them to go; `none` is out of fuel.
pub kruskal_loop : ℕ → List Edge → List Edge → Bool → MstState → Option MstState
kruskal_loop fuel edges [] skipped s = some s
kruskal_loop zero edges (e ∷ rest) skipped s = none
kruskal_loop (suc fuel) edges (e ∷ rest) skipped s =
    let safe = crossing s e in
    kruskal_loop fuel edges (if safe && skipped then edges else rest) (if safe then false else true)
      (if safe then add_safe_edge edges e s else s)

-- The first edge from a reachable node gives the starting point.
pub starting_point : (ℕ → Bool) → List Edge → (ℕ → Bool) → ℕ → Bool
starting_point reachable [] visited = visited
starting_point reachable (e ∷ edges) visited =
    if reachable e.from then update visited e.from true else starting_point reachable edges visited

unfoldable pub kruskal_start : (ℕ → Bool) → List Edge → MstState
kruskal_start reachable edges = record {
  visited = starting_point reachable edges (λ k. false);
  mst = λ c. false;
}

unfoldable pub mst_kruskal : ℕ → (ℕ → Bool) → List Edge → Option MstState
mst_kruskal fuel reachable edges =
    kruskal_loop fuel edges edges false (kruskal_start reachable edges)
