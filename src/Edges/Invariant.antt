-- ===== src/Edges/Invariant.antt =====
-- The invariant of the trees of edges.
use tinc_quic.Common.{ℕ, ◌≡◌, sym, ◌≢◌, Bool, true, some, List}
use Prim.Native.Nat.{eq}
use mathlib.Core.Path.{subst}
use tinc_quic.Common.Int.{bytes_compare}
use tinc_quic.Edges.{Edges, edge_compare, edge_key, weight_order, itself}
use tinc_quic.Edges.Order.{edge_compare-IsOrder}
use tinc_quic.Splay.{sign}
use tinc_quic.Splay.Members.{member}
use tinc_quic.Splay.Search.{IsTree}
use tinc_quic.Splay.Unique.{member_unique}

-- Names tell nodes apart.
abbrev pub Distinct : (ℕ → List ℕ) → Type 0
Distinct name = (m n : ℕ) → name m ≡ name n → m ≡ n

-- The edge is in the tree of the node it comes from.
abbrev pub present : Edges → ℕ → Bool
present s e = member e (s.edge_tree (s.from e)).thread

-- `r` leads back.
abbrev pub Back : Edges → ℕ → ℕ → Type 0
Back s e r = (present s r ≡ true) × (s.from r ≡ s.to e) × (s.to r ≡ s.from e)

-- There is no such edge yet.
abbrev pub NoEdge : ℕ → Edges → Type 0
NoEdge e s = (x : ℕ) → present s x ≡ true → s.from x ≡ s.from e → s.to x ≢ s.to e

module _ (name : ℕ → List ℕ) where
  -- The trees are in order, each edge is in the tree of its node and in edge_weight_tree, and
  -- `reverse` is the edge that leads back, if there is one.
  pub record IsEdges (s : Edges) : Type 0 where
    pub trees : (n : ℕ) → IsTree (edge_compare name) (edge_key s) (s.edge_tree n)
    pub weights : IsTree (weight_order name s) itself s.edge_weight_tree
    pub own : (n e : ℕ) → member e (s.edge_tree n).thread ≡ true → s.from e ≡ n
    pub both : (e : ℕ) → member e s.edge_weight_tree.thread ≡ present s e
    pub opposite : (e r : ℕ) → present s e ≡ true → s.reverse e ≡ some r → Back s e r
    pub paired : (e r : ℕ) → present s e ≡ true → Back s e r → s.reverse e ≡ some r

  -- There is one edge from a node to another.
  pub one_edge :
      (s : Edges) (a b : ℕ)
      → ((n : ℕ) → IsTree (edge_compare name) (edge_key s) (s.edge_tree n))
      → present s a ≡ true
      → present s b ≡ true
      → s.from a ≡ s.from b
      → s.to a ≡ s.to b
      → a ≡ b
  unfolding edge_compare
  one_edge s a b trees ha hb same_from same_to =
      let hb' : member b (s.edge_tree (s.from a)).thread ≡ true =
        subst (λ n. member b (s.edge_tree n).thread ≡ true) (sym same_from) hb in
      let equal : sign (edge_compare name (edge_key s a) (edge_key s b)) ≡ eq =
        subst (λ n. sign (bytes_compare (name (s.to a)) (name n)) ≡ eq) same_to
          ((edge_compare-IsOrder name).self (edge_key s a)) in
      member_unique (edge_compare name) (edge_key s) (edge_compare-IsOrder name)
        (s.edge_tree (s.from a)).thread a b ((trees (s.from a)).ordered) ha hb' equal
