-- ===== src/Edges/Lookup.antt =====
-- What lookup_edge finds.
use tinc_quic.Common.{ℕ, ◌≡◌, sym, ap, ◌∙◌, ◌↔◌, inl, inr, true, some, List, Option-cases}
use Prim.Native.Nat.{eq}
use mathlib.Core.Path.{subst}
use tinc_quic.Common.Int.{pos, bytes_compare}
use tinc_quic.Edges.{lookup_edge, edge_compare, Edges, EdgeKey, edge_key}
use tinc_quic.Edges.Add.{resplayed_thread, replaced-IsTree, compare_to}
use tinc_quic.Edges.Added.{reshaped-IsEdges}
use tinc_quic.Edges.Invariant.{Distinct, IsEdges, present, one_edge}
use tinc_quic.Edges.Order.{edge_compare-IsOrder}
use tinc_quic.Graph.{update}
use tinc_quic.Splay.{splay_search_node, sign}
use tinc_quic.Splay.Members.{member}
use tinc_quic.Splay.Search.{search_node-find, find}
use tinc_quic.Splay.Unique.{find-some-member, find-none-member}

module _ (name : ℕ → List ℕ) (distinct : Distinct name) where
  -- For nodes with different names and sound trees of edges, lookup_edge finds the edge from one node
  -- to the other, if there is one, and changes only the shape of a tree.
  pub lookup_edge-IsEdges :
      (from to : ℕ) (s : Edges)
      → IsEdges name s
      → IsEdges name (lookup_edge name from to s).1
        × ((x : ℕ) → present (lookup_edge name from to s).1 x ≡ present s x)
        × ((r : ℕ)
            → ((lookup_edge name from to s).0 ≡ some r)
              ↔ ((present s r ≡ true) × (s.from r ≡ from) × (s.to r ≡ to)))
  unfolding lookup_edge edge_compare
  lookup_edge-IsEdges from to s ok =
      let v : EdgeKey = record { key_from = from; key_to = to; key_weight = pos 0 } in
      let (found, sorted, same) =
        search_node-find (edge_compare name) (edge_key s) (edge_compare-IsOrder name) v
          (s.edge_tree from) (ok.trees from) in
      let tree = (splay_search_node (edge_compare name) (edge_key s) v (s.edge_tree from)).1 in
      let kept : (n x : ℕ)
          → member x (update s.edge_tree from tree n).thread ≡ member x (s.edge_tree n).thread =
        λ n x. resplayed_thread s.edge_tree from tree n x same in
      (
        reshaped-IsEdges name s (update s.edge_tree from tree) ok
            (replaced-IsTree name s s.edge_tree from tree (ok.trees) sorted) kept,
        λ x. kept (s.from x) x,
        λ r. (
          λ h.
              let (there, equal) =
                find-some-member (edge_compare name) (edge_key s) v _ r (sym found ∙ h) in
              let home = ok.own from r there in
              (
                subst (λ n. member r (s.edge_tree n).thread ≡ true) (sym home) there,
                home,
                sym (compare_to name distinct v (edge_key s r) equal),
              ),
          λ (there, a, b).
              let here : member r (s.edge_tree from).thread ≡ true =
                subst (λ n. member r (s.edge_tree n).thread ≡ true) a there in
              let equal : sign (bytes_compare (name to) (name (s.to r))) ≡ eq =
                subst (λ n. sign (bytes_compare (name to) (name n)) ≡ eq) (sym b)
                  ((edge_compare-IsOrder name).self v) in
              found
              ∙ elim (Option-cases
                  (find (edge_compare name) (edge_key s) v (s.edge_tree from).thread)) [
                    | inl missing ↦
                        absurd (
                          find-none-member (edge_compare name) (edge_key s) v _ r missing here
                            equal)
                    | inr (q, f) ↦
                        let (q_there, q_equal) =
                          find-some-member (edge_compare name) (edge_key s) v _ q f in
                        let q_home = ok.own from q q_there in
                        let one =
                          one_edge name s q r (ok.trees)
                            (subst (λ n. member q (s.edge_tree n).thread ≡ true) (sym q_home)
                              q_there)
                            there (q_home ∙ sym a)
                            (sym (compare_to name distinct v (edge_key s q) q_equal) ∙ sym b) in
                        f ∙ ap some one
                  ],
        ),
      )
