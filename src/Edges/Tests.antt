-- ===== src/Edges/Tests.antt =====
-- Two nodes with an edge from the first to the second, and edges that are added to it.
use tinc_quic.Common.{ℕ, zero, suc, ◌+◌, ◌≡◌, refl, sym, ap, ◌∙◌, arith, true, false, none}
use tinc_quic.Common.{some, List, [], ◌∷◌, ◌==◌, if◌then◌else◌, Bool, Option, ◌^◌, ◌-◌}
use tinc_quic.Common.Int.{pos, bytes_compare, ◌-ℤ◌, int_difference, to_int, negsuc}
use tinc_quic.Edges.{Edges, edge_add, edge_del, enter_edge, edge_compare, lookup_edge, edge_key}
use tinc_quic.Edges.{edge_weight_compare}
use tinc_quic.Edges.Added.{AddResult, edge_add-IsEdges}
use tinc_quic.Edges.Delete.{edge_del-IsEdges}
use tinc_quic.Edges.Deleted.{Respects, Deletable, del_edge_h-Respects}
use tinc_quic.Edges.Invariant.{Distinct, IsEdges, present}
use tinc_quic.Edges.Order.{WeightsFit}
use tinc_quic.Edges.Requests.{Network, del_edge_h}
use tinc_quic.Splay.{SplayTree, branch, empty, splay_top_down, turn_left, turn_right}
use tinc_quic.Splay.{merge_trees, attach_left, attach_right, splay_search_node}
use tinc_quic.Splay.{splay_search_closest_node}
use tinc_quic.Splay.Members.{member}
use tinc_quic.Splay.Search.{IsTree}
use tinc_quic.Splay.TopDown.{inorder_then}
use tinc_quic.Splay.Update.{splay_insert, splay_insert_top}

abbrev letter_names : ℕ → List ℕ
letter_names n = (97 + n) ∷ []

abbrev first_letter : List ℕ → ℕ
first_letter [] = 0
first_letter (x ∷ letters) = x

letters-Distinct : Distinct letter_names
letters-Distinct m n h = omega (arith, ap first_letter h)

-- Edge 0 leads from node 0 to node 1, edge 1 back, and edge 2 from node 0 to node 1 again.
abbrev ends_from : ℕ → ℕ
ends_from zero = 0
ends_from (suc zero) = 1
ends_from (suc (suc n)) = 0

abbrev ends_to : ℕ → ℕ
ends_to zero = 1
ends_to (suc zero) = 0
ends_to (suc (suc n)) = 1

abbrev no_nodes : SplayTree
no_nodes = record { root = empty; thread = []; count = 0; generation = 0 }

abbrev one_node : SplayTree
one_node = record { root = branch empty 0 empty; thread = 0 ∷ []; count = 1; generation = 1 }

abbrev first_trees : ℕ → SplayTree
first_trees zero = one_node
first_trees (suc n) = no_nodes

abbrev one_way : Edges
one_way = record {
  from = ends_from;
  to = ends_to;
  weight = λ e. pos 10;
  reverse = λ e. none;
  edge_tree = first_trees;
  edge_weight_tree = one_node;
}

first-trees : (n : ℕ) → IsTree (edge_compare letter_names) (edge_key one_way) (first_trees n)
unfolding inorder_then
first-trees zero = record { threaded = refl; ordered = (tt, tt); counted = refl }
first-trees (suc n) = record { threaded = refl; ordered = tt; counted = refl }

first-own : (n e : ℕ) → member e (first_trees n).thread ≡ true → ends_from e ≡ n
unfolding member
first-own zero zero h = refl
first-own zero (suc e) h = absurd (ground (arith, h))
first-own (suc n) e h = absurd cc

first-both : (e : ℕ) → member e (0 ∷ []) ≡ member e (first_trees (ends_from e)).thread
unfolding member
first-both zero = refl
first-both (suc zero) = ground arith
first-both (suc (suc e)) = refl

lone : (e : ℕ) → present one_way e ≡ true → e ≡ 0
unfolding member
lone zero h = refl
lone (suc zero) h = absurd cc
lone (suc (suc e)) h = absurd (ground (arith, h))

one_way-IsEdges : IsEdges letter_names one_way
unfolding inorder_then
one_way-IsEdges = record {
  trees = first-trees;
  weights = record { threaded = refl; ordered = (tt, tt); counted = refl };
  own = first-own;
  both = first-both;
  opposite = λ e r h leads. absurd cc;
  paired = λ e r h (k, a, b).
      let turned : 0 ≡ 1 = sym (ap ends_from (lone r k)) ∙ a ∙ ap ends_to (lone e h) in
      absurd (omega (arith, turned));
}

one_way-WeightsFit : WeightsFit one_way
unfolding ◌-ℤ◌
one_way-WeightsFit a b = omega arith

-- With weights that are further apart, the comparison is turned round.
edge_weight_compare_overflows :
    edge_weight_compare letter_names
      (record { key_from = 0; key_to = 1; key_weight = pos (2 ^ 31 - 1) })
      (record { key_from = 0; key_to = 1; key_weight = negsuc 0 })
    ≡ negsuc (2 ^ 31 - 1)
unfolding edge_weight_compare int_difference ◌-ℤ◌ to_int
edge_weight_compare_overflows = refl

edge_add_run :
    ((edge_add letter_names 1 one_way).reverse 0 ≡ some 1)
    × ((edge_add letter_names 2 one_way).edge_weight_tree.thread ≡ 0 ∷ [])
unfolding edge_add enter_edge lookup_edge splay_insert bytes_compare splay_insert_top splay_top_down
    turn_left turn_right merge_trees attach_left attach_right edge_compare splay_search_node
    splay_search_closest_node
edge_add_run = (refl, refl)

edge_add-IsEdges_example :
    IsEdges letter_names (edge_add letter_names 1 one_way)
    × AddResult 1 one_way (edge_add letter_names 1 one_way)
edge_add-IsEdges_example =
    edge_add-IsEdges letter_names letters-Distinct 1 one_way one_way-WeightsFit one_way-IsEdges

edge_del-IsEdges_example :
    IsEdges letter_names (edge_del letter_names 0 one_way)
    × ((x : ℕ)
        → present (edge_del letter_names 0 one_way) x
          ≡ (if 0 == x then false else present one_way x))
unfolding member
edge_del-IsEdges_example =
    edge_del-IsEdges letter_names one_way one_way-IsEdges 0 one_way-WeightsFit refl

-- The nodes a and b, of which b is our own, and the edge from a to b.
abbrev letter_node : List ℕ → Option ℕ
letter_node [] = none
letter_node (c ∷ letters) = if c == 97 then some 0 else if c == 98 then some 1 else none

abbrev one_way_network : Network
one_way_network = record {
  edges = one_way;
  node_of = letter_node;
  reachable = λ n. true;
  past = [];
  contradicting_del_edge = 0;
  sent = [];
}

abbrev as_before : Edges → (ℕ → Bool) → ℕ → Bool
as_before edges reachable = reachable

abbrev del_request : Bool × Network
del_request =
    del_edge_h letter_names 1 (some 0) false as_before 7 (49 ∷ 51 ∷ []) (some (97 ∷ [], 98 ∷ []))
      one_way_network

del_edge_h-Respects_example :
    Respects letter_names
      (Deletable one_way_network 1 (97 ∷ []) (98 ∷ []))
      one_way
      del_request.1.edges
    × (del_request.0 ≡ false → del_request.1 ≡ one_way_network)
del_edge_h-Respects_example =
    del_edge_h-Respects letter_names letters-Distinct 1 (some 0) false as_before 7 (49 ∷ 51 ∷ [])
      (97 ∷ []) (98 ∷ []) one_way_network one_way-WeightsFit one_way-IsEdges refl (λ edges r h. h)
