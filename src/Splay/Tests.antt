-- ===== src/Splay/Tests.antt =====
-- Trees of numbers: node n holds 10 * n.
use tinc_quic.Common.{ℕ, ◌*◌, ◌≡◌, refl, inl, inr, arith, [], ◌∷◌}
use tinc_quic.Common.Int.{sub_ℕ}
use tinc_quic.Splay.{SplayTree, splay_search_node, branch, splay_search_closest_node}
use tinc_quic.Splay.{splay_top_down, empty, turn_left, turn_right, merge_trees, attach_left}
use tinc_quic.Splay.{attach_right}
use tinc_quic.Splay.Delete.{delete_sorted, splay_delete-sorted}
use tinc_quic.Splay.Insert.{Inserted, splay_insert-sorted}
use tinc_quic.Splay.Order.{IsOrder}
use tinc_quic.Splay.Search.{IsTree, find, search_node-find}
use tinc_quic.Splay.TopDown.{inorder_then}
use tinc_quic.Splay.Unlink.{unlink_node-without}
use tinc_quic.Splay.Update.{splay_delete, splay_insert, splay_unlink_node, thread_without}
use tinc_quic.Splay.Update.{splay_insert_before, splay_insert_after, thread_before}
use tinc_quic.Splay.Update.{thread_after}

abbrev tens : ℕ → ℕ
tens n = 10 * n

sub_ℕ-IsOrder : IsOrder sub_ℕ
sub_ℕ-IsOrder = record {
  self = λ a. ground arith;
  flip_lt = λ a b h. ground (arith, h);
  flip_gt = λ a b h. ground (arith, h);
  flip_eq = λ a b h. ground (arith, h);
  lt_lt = λ a b c h k. ground (arith, h, k);
  eq_lt = λ a b c h k. ground (arith, h, k);
  lt_eq = λ a b c h k. ground (arith, h, k);
}

abbrev four_nodes : SplayTree
four_nodes = record {
  root = branch (branch empty 1 (branch empty 2 empty)) 4 (branch empty 7 empty);
  thread = 1 ∷ 2 ∷ 4 ∷ 7 ∷ [];
  count = 4;
  generation = 9;
}

four_nodes-IsTree : IsTree sub_ℕ tens four_nodes
unfolding inorder_then
four_nodes-IsTree = record {
  threaded = refl;
  ordered = ((refl, (refl, (refl, tt))), ((refl, (refl, tt)), ((refl, tt), (tt, tt))));
  counted = refl;
}

-- The node 2 comes to the root.
splay_search_node_run :
    (splay_search_node sub_ℕ tens 20 four_nodes).1.root
    ≡ branch (branch empty 1 empty) 2 (branch empty 4 (branch empty 7 empty))
unfolding splay_search_node splay_search_closest_node splay_top_down turn_left turn_right
    merge_trees attach_left attach_right
splay_search_node_run = refl

splay_insert_run : (splay_insert sub_ℕ tens 3 four_nodes).1.thread ≡ 1 ∷ 2 ∷ 3 ∷ 4 ∷ 7 ∷ []
unfolding splay_insert splay_top_down turn_left turn_right merge_trees attach_left attach_right
    splay_insert_before splay_insert_after thread_before thread_after
splay_insert_run = refl

search_node-find_example :
    ((splay_search_node sub_ℕ tens 20 four_nodes).0 ≡ find sub_ℕ tens 20 four_nodes.thread)
    × IsTree sub_ℕ tens (splay_search_node sub_ℕ tens 20 four_nodes).1
    × ((splay_search_node sub_ℕ tens 20 four_nodes).1.thread ≡ four_nodes.thread)
search_node-find_example = search_node-find sub_ℕ tens sub_ℕ-IsOrder 20 four_nodes four_nodes-IsTree

splay_insert-sorted_example :
    Inserted sub_ℕ tens sub_ℕ-IsOrder 3 four_nodes (splay_insert sub_ℕ tens 3 four_nodes)
splay_insert-sorted_example =
    splay_insert-sorted sub_ℕ tens sub_ℕ-IsOrder 3 four_nodes four_nodes-IsTree

unlink_node-without_example :
    ((splay_unlink_node 2 four_nodes).thread ≡ thread_without 2 four_nodes.thread)
    × IsTree sub_ℕ tens (splay_unlink_node 2 four_nodes)
unlink_node-without_example =
    unlink_node-without sub_ℕ tens sub_ℕ-IsOrder 2 four_nodes four_nodes-IsTree (inr (inl refl))

splay_delete-sorted_example :
    ((splay_delete sub_ℕ tens 40 four_nodes).thread ≡ delete_sorted sub_ℕ tens 40 four_nodes.thread)
    × IsTree sub_ℕ tens (splay_delete sub_ℕ tens 40 four_nodes)
splay_delete-sorted_example =
    splay_delete-sorted sub_ℕ tens sub_ℕ-IsOrder 40 four_nodes four_nodes-IsTree
