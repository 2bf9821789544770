-- ===== src/Edges/Added.antt =====
-- What edge_add does on both of its branches.
use tinc_quic.Common.{ℕ, ◌≡◌, refl, sym, ◌∙◌, inl, inr, true, false, ◌||◌, none, some, List}
use tinc_quic.Common.{◌==◌, Bool-cases, Option-cases}
use mathlib.Core.Path.{subst}
use tinc_quic.Edges.{Edges, edge_add, enter_edge, edge_compare, lookup_edge, edge_key}
use tinc_quic.Edges.Add.{own_trees, not_found-NoEdge, entered, inserted_own, resplayed_thread}
use tinc_quic.Edges.Add.{replaced-IsTree, compare_to}
use tinc_quic.Edges.Entered.{Entered-IsEdges, now_present}
use tinc_quic.Edges.Invariant.{Distinct, IsEdges, present, NoEdge}
use tinc_quic.Edges.Order.{edge_compare-IsOrder, WeightsFit}
use tinc_quic.Graph.{update}
use tinc_quic.Splay.{SplayTree}
use tinc_quic.Splay.Insert.{splay_insert-sorted}
use tinc_quic.Splay.Members.{member}
use tinc_quic.Splay.Search.{IsTree, find}
use tinc_quic.Splay.Unique.{insert_sorted-found, find-some-member}
use tinc_quic.Splay.Update.{splay_insert}

-- What edge_add leaves: an edge from the same node to the same node was there, and nothing but the
-- shapes of the trees has changed, or there was none, and the edges are those and the new one.
pub data AddResult (e : ℕ) (s s' : Edges) : Type 0 where
  known_edge :
      (x : ℕ)
      → present s x ≡ true
      → s.from x ≡ s.from e
      → s.to x ≡ s.to e
      → s'.reverse ≡ s.reverse
      → ((y : ℕ) → present s' y ≡ present s y)
      → AddResult e s s'
  new_edge : NoEdge e s → ((y : ℕ) → present s' y ≡ ((e == y) || present s y)) → AddResult e s s'

module _ (name : ℕ → List ℕ) where
  -- Trees of the same nodes in another shape.
  pub reshaped-IsEdges :
      (s : Edges) (trees : ℕ → SplayTree)
      → IsEdges name s
      → ((n : ℕ) → IsTree (edge_compare name) (edge_key s) (trees n))
      → ((n x : ℕ) → member x (trees n).thread ≡ member x (s.edge_tree n).thread)
      → IsEdges name (record s { edge_tree = trees })
  reshaped-IsEdges s trees ok sorted same = record {
    trees = sorted;
    weights = ok.weights;
    own = λ n x h. ok.own n x (sym (same n x) ∙ h);
    both = λ x. ok.both x ∙ sym (same (s.from x) x);
    opposite = λ x y h leads.
        let (there, a, b) = ok.opposite x y (sym (same (s.from x) x) ∙ h) leads in
        (same (s.from y) y ∙ there, a, b);
    paired = λ x y h (there, a, b).
        ok.paired x y (sym (same (s.from x) x) ∙ h) (sym (same (s.from y) y) ∙ there, a, b);
  }

  add_new :
      (e : ℕ) (s : Edges)
      → (splay_insert (edge_compare name) (edge_key s) e (s.edge_tree (s.from e))).0 ≡ true
      → edge_add name e s
        ≡ enter_edge name e (record s {
          edge_tree =
              update s.edge_tree
                (s.from e)
                (splay_insert (edge_compare name) (edge_key s) e (s.edge_tree (s.from e))).1;
        })
  unfolding edge_add
  add_new e s h = rw (h, edge_add) refl

  add_known :
      (e : ℕ) (s : Edges)
      → (splay_insert (edge_compare name) (edge_key s) e (s.edge_tree (s.from e))).0 ≡ false
      → edge_add name e s ≡ record s {
        edge_tree =
            update s.edge_tree
              (s.from e)
              (splay_insert (edge_compare name) (edge_key s) e (s.edge_tree (s.from e))).1;
      }
  unfolding edge_add
  add_known e s h = rw (h, edge_add) refl

  module _ (distinct : Distinct name) where
    new-AddResult :
        (e : ℕ) (s : Edges)
        → WeightsFit s
        → IsEdges name s
        → find (edge_compare name) (edge_key s) (edge_key s e) (s.edge_tree (s.from e)).thread
          ≡ none
        → IsEdges name (enter_edge name e (record s { edge_tree = own_trees name distinct e s }))
          × AddResult e s (enter_edge name e (record s { edge_tree = own_trees name distinct e s }))
    unfolding enter_edge lookup_edge
    new-AddResult e s fit ok missing =
        let none_such = not_found-NoEdge name distinct e s missing in
        let d = entered name distinct e s fit ok none_such missing in
        (
          Entered-IsEdges name s ok e _ _ _ d,
          new_edge none_such (λ y. now_present name s ok e _ _ _ s.reverse y d),
        )

    known-AddResult :
        (e : ℕ) (s : Edges) (x : ℕ)
        → IsEdges name s
        → find (edge_compare name) (edge_key s) (edge_key s e) (s.edge_tree (s.from e)).thread
          ≡ some x
        → IsEdges name (record s { edge_tree = own_trees name distinct e s })
          × AddResult e s (record s { edge_tree = own_trees name distinct e s })
    known-AddResult e s x ok there =
        let old : SplayTree = s.edge_tree (s.from e) in
        let (threads, sorted, _) =
          splay_insert-sorted (edge_compare name) (edge_key s) (edge_compare-IsOrder name) e old
            (ok.trees (s.from e)) in
        let same =
          threads
          ∙ insert_sorted-found (edge_compare name) (edge_key s) (edge_compare-IsOrder name) e
              old.thread x ((ok.trees (s.from e)).ordered) there in
        let kept : (n y : ℕ)
            → member y (own_trees name distinct e s n).thread ≡ member y (s.edge_tree n).thread =
          λ n y.
            resplayed_thread s.edge_tree (s.from e) (inserted_own name distinct e s).1 n y same in
        let (in_tree, equal) =
          find-some-member (edge_compare name) (edge_key s) (edge_key s e) old.thread x there in
        let x_from = ok.own (s.from e) x in_tree in
        (
          reshaped-IsEdges s (own_trees name distinct e s) ok
              (replaced-IsTree name s s.edge_tree (s.from e) (inserted_own name distinct e s).1
                (ok.trees) sorted)
              kept,
          known_edge x (subst (λ n. member x (s.edge_tree n).thread ≡ true) (sym x_from) in_tree)
              x_from (sym (compare_to name distinct (edge_key s e) (edge_key s x) equal)) refl
              (λ y. kept (s.from y) y),
        )

    -- For nodes with different names, weights whose differences fit an int, and trees of edges that
    -- are sound, edge_add leaves sound trees: if there is an edge from the same node to the same
    -- node, it leaves the edges as they are, and if not, it adds the edge to both trees and joins it
    -- with the one that leads back.
    pub edge_add-IsEdges :
        (e : ℕ) (s : Edges)
        → WeightsFit s
        → IsEdges name s
        → IsEdges name (edge_add name e s) × AddResult e s (edge_add name e s)
    edge_add-IsEdges e s fit ok =
        let (_, _, succeeds) =
          splay_insert-sorted (edge_compare name) (edge_key s) (edge_compare-IsOrder name) e
            (s.edge_tree (s.from e)) (ok.trees (s.from e)) in
        elim (Bool-cases (inserted_own name distinct e s).0) [
          | inl yes_new ↦ rw (add_new e s yes_new) (new-AddResult e s fit ok (succeeds.0 yes_new))
          | inr not_new ↦
              elim (Option-cases (
                find (edge_compare name) (edge_key s) (edge_key s e)
                  (s.edge_tree (s.from e)).thread)) [
                    | inl missing ↦ absurd (cc (not_new, succeeds.1 missing))
                    | inr (x, there) ↦ rw (add_known e s not_new) (known-AddResult e s x ok there)
                  ]
        ]
