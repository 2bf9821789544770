-- ===== src/Edges.antt =====
-- src/edge.c: the trees of edges. An edge is its address, a number, and the fields of all edges are
-- functions of it; the node of a tree that holds an edge has the number of the edge. A VPN node is a
-- number with a name.
pub mod Order
pub mod Invariant
pub mod Entered
pub mod Add
pub mod Added
pub mod Delete
pub mod Lookup
pub mod Requests
pub mod Deleted
pub mod Tests
use tinc_quic.Common.{ℕ, zero, suc, ◌+◌, ◌-◌, ◌*◌, ◌/◌, ◌%◌, ◌^◌, ◌≤◌, ◌<◌, bit_and, bit_or}
use tinc_quic.Common.{◌≡◌, refl, sym, ap, ◌∙◌, ◌≢◌, ◌↔◌, ◌⊎◌, inl, inr, arith, Bool, true}
use tinc_quic.Common.{false, ◌&&◌, ◌||◌, not, Option, none, some, List, [], ◌∷◌, ◌++◌, map, ltb}
use tinc_quic.Common.{leb, ◌==◌, if◌then◌else◌, ◌>>=◌}
use tinc_quic.Common.Int.{ℤ, pos, int_difference, bytes_compare}
use tinc_quic.Graph.{update}
use tinc_quic.Splay.{SplayTree, splay_search_node}
use tinc_quic.Splay.Update.{splay_delete, splay_insert}
use tinc_quic.Subnet.Compare.{first_of}

-- The fields of an edge that the trees compare.
pub record EdgeKey : Type 0 where
  pub key_from : ℕ
  pub key_to : ℕ
  pub key_weight : ℤ

pub record Edges : Type 0 where
  pub from : ℕ → ℕ
  pub to : ℕ → ℕ
  pub weight : ℕ → ℤ
  pub reverse : ℕ → Option ℕ
  pub edge_tree : ℕ → SplayTree
  pub edge_weight_tree : SplayTree

abbrev pub edge_key : Edges → ℕ → EdgeKey
edge_key s e = record { key_from = s.from e; key_to = s.to e; key_weight = s.weight e }

-- `e->reverse = found`, and `e->reverse->reverse = e` if there is one.
abbrev pub join_reverse : ℕ → Option ℕ → (ℕ → Option ℕ) → ℕ → Option ℕ
join_reverse e none reverse = update reverse e none
join_reverse e (some r) reverse = update (update reverse e (some r)) r (some e)

-- `e->reverse->reverse = NULL`, if there is one.
abbrev pub part_reverse : Option ℕ → (ℕ → Option ℕ) → ℕ → Option ℕ
part_reverse none reverse = reverse
part_reverse (some r) reverse = update reverse r none

abbrev pub itself : ℕ → ℕ
itself e = e

module _ (name : ℕ → List ℕ) where
  unfoldable pub edge_compare : EdgeKey → EdgeKey → ℤ
  edge_compare a b = bytes_compare (name a.key_to) (name b.key_to)

  unfoldable pub edge_weight_compare : EdgeKey → EdgeKey → ℤ
  edge_weight_compare a b = first_of (int_difference a.key_weight b.key_weight) (
      first_of (bytes_compare (name a.key_from) (name b.key_from))
        (bytes_compare (name a.key_to) (name b.key_to)))

  -- edge_weight_tree compares the edges that its nodes point to.
  abbrev pub weight_order : Edges → ℕ → ℕ → ℤ
  weight_order s a b = edge_weight_compare (edge_key s a) (edge_key s b)

  unfoldable pub lookup_edge : ℕ → ℕ → Edges → Option ℕ × Edges
  lookup_edge from to s =
      let v : EdgeKey = record { key_from = from; key_to = to; key_weight = pos 0 } in
      let (found, tree) = splay_search_node edge_compare (edge_key s) v (s.edge_tree from) in
      (found, record s { edge_tree = update s.edge_tree from tree })

  -- edge_add behind the insertion into the tree of the node the edge comes from.
  unfoldable pub enter_edge : ℕ → Edges → Edges
  enter_edge e s =
      let (found, s') = lookup_edge (s.to e) (s.from e) s in
      record s' {
        reverse = join_reverse e found s.reverse;
        edge_weight_tree = (splay_insert (weight_order s) itself e s.edge_weight_tree).1;
      }

  unfoldable pub edge_add : ℕ → Edges → Edges
  edge_add e s =
      let (inserted, tree) = splay_insert edge_compare (edge_key s) e (s.edge_tree (s.from e)) in
      let s' : Edges = record s { edge_tree = update s.edge_tree (s.from e) tree } in
      if inserted then enter_edge e s' else s'

  unfoldable pub edge_del : ℕ → Edges → Edges
  edge_del e s = record s {
    reverse = part_reverse (s.reverse e) s.reverse;
    edge_weight_tree = splay_delete (weight_order s) itself e s.edge_weight_tree;
    edge_tree =
        update s.edge_tree (s.from e)
          (splay_delete edge_compare (edge_key s) (edge_key s e) (s.edge_tree (s.from e)));
  }
