-- ===== src/Edges/Add.antt =====
-- edge_add keeps the invariant of the trees of edges.
use tinc_quic.Common.{ℕ, ◌≡◌, refl, sym, ap, ◌∙◌, inl, inr, arith, Bool, true, ◌||◌, none, List}
use tinc_quic.Common.{◌==◌, if◌then◌else◌, Bool-cases, ==_iff, Option-cases}
use Prim.Native.Nat.{eq}
use mathlib.Core.Path.{subst}
use tinc_quic.Common.Int.{pos, bytes_compare}
use tinc_quic.Edges.{Edges, edge_compare, edge_weight_compare, EdgeKey, edge_key, weight_order}
use tinc_quic.Edges.{itself}
use tinc_quic.Edges.Entered.{Entered}
use tinc_quic.Edges.Invariant.{Distinct, IsEdges, NoEdge}
use tinc_quic.Edges.Order.{bytes_same, edge_compare-IsOrder, WeightsFit, weight_order-IsOrder}
use tinc_quic.Graph.{update}
use tinc_quic.Splay.{SplayTree, sign, splay_search_node}
use tinc_quic.Splay.Insert.{splay_insert-sorted}
use tinc_quic.Splay.Members.{member, member-insert_sorted}
use tinc_quic.Splay.Search.{IsTree, find, search_node-find}
use tinc_quic.Splay.Unique.{find-none-member, find-some-member}
use tinc_quic.Splay.Update.{splay_insert}

pub replaced_thread :
    (trees : ℕ → SplayTree) (k : ℕ) (t : SplayTree) (n x : ℕ)
    → member x (update trees k t n).thread
      ≡ (if n == k then member x t.thread else member x (trees n).thread)
replaced_thread trees k t n x = elim (Bool-cases (n == k)) [
  | inl e ↦ rw (e) refl
  | inr e ↦ rw (e) refl
]

pub resplayed_thread :
    (trees : ℕ → SplayTree) (k : ℕ) (t : SplayTree) (n x : ℕ)
    → t.thread ≡ (trees k).thread
    → member x (update trees k t n).thread ≡ member x (trees n).thread
resplayed_thread trees k t n x same = elim (Bool-cases (n == k)) [
  | inl e ↦ rw (e) (ap (member x) (same ∙ ap (λ m. (trees m).thread) (sym ((==_iff n k).0 e))))
  | inr e ↦ rw (e) refl
]

module _ (name : ℕ → List ℕ) where
  abbrev pub TreesOk : Edges → (ℕ → SplayTree) → Type 0
  TreesOk s trees = (n : ℕ) → IsTree (edge_compare name) (edge_key s) (trees n)

  pub replaced-IsTree :
      (s : Edges) (trees : ℕ → SplayTree) (k : ℕ) (t : SplayTree)
      → TreesOk s trees
      → IsTree (edge_compare name) (edge_key s) t
      → TreesOk s (update trees k t)
  replaced-IsTree s trees k t ok new n = elim (Bool-cases (n == k)) [
    | inl e ↦ rw (e) new
    | inr e ↦ rw (e) (ok n)
  ]

module _ (name : ℕ → List ℕ) (distinct : Distinct name) where
  -- Equal keys are of one destination.
  pub compare_to : (a b : EdgeKey) → sign (edge_compare name a b) ≡ eq → a.key_to ≡ b.key_to
  unfolding edge_compare
  compare_to a b h = distinct a.key_to b.key_to (bytes_same _ _ h)

  weight_compare_ends :
      (a b : EdgeKey)
      → sign (edge_weight_compare name a b) ≡ eq
      → (a.key_from ≡ b.key_from) × (a.key_to ≡ b.key_to)
  unfolding edge_weight_compare
  weight_compare_ends a b h = (
    distinct a.key_from b.key_from (bytes_same _ _ (ground (arith, h))),
    distinct a.key_to b.key_to (bytes_same _ _ (ground (arith, h))),
  )

  abbrev pub inserted_own : ℕ → Edges → Bool × SplayTree
  inserted_own e s = splay_insert (edge_compare name) (edge_key s) e (s.edge_tree (s.from e))

  abbrev pub own_trees : ℕ → Edges → ℕ → SplayTree
  own_trees e s = update s.edge_tree (s.from e) (inserted_own e s).1

  pub not_found-NoEdge :
      (e : ℕ) (s : Edges)
      → find (edge_compare name) (edge_key s) (edge_key s e) (s.edge_tree (s.from e)).thread ≡ none
      → NoEdge e s
  unfolding edge_compare
  not_found-NoEdge e s missing x h same_from same_to =
      find-none-member (edge_compare name) (edge_key s) (edge_key s e) _ x missing
        (subst (λ n. member x (s.edge_tree n).thread ≡ true) same_from h)
        (subst (λ n. sign (bytes_compare (name (s.to e)) (name n)) ≡ eq) (sym same_to)
          ((edge_compare-IsOrder name).self (edge_key s e)))

  NoEdge-weights :
      (e : ℕ) (s : Edges)
      → IsEdges name s
      → NoEdge e s
      → find (weight_order name s) itself e s.edge_weight_tree.thread ≡ none
  NoEdge-weights e s ok none_such =
      elim (Option-cases (find (weight_order name s) itself e s.edge_weight_tree.thread)) [
        | inl missing ↦ missing
        | inr (x, f) ↦
            let (there, same) = find-some-member (weight_order name s) itself e _ x f in
            let (a, b) = weight_compare_ends (edge_key s e) (edge_key s x) same in
            absurd (none_such x (sym (ok.both x) ∙ there) (sym a) (sym b))
      ]

  abbrev pub back_key : ℕ → Edges → EdgeKey
  back_key e s = record { key_from = s.to e; key_to = s.from e; key_weight = pos 0 }

  -- The trees and the edge that leads back, when the edge is new.
  pub entered :
      (e : ℕ) (s : Edges)
      → WeightsFit s
      → IsEdges name s
      → NoEdge e s
      → find (edge_compare name) (edge_key s) (edge_key s e) (s.edge_tree (s.from e)).thread ≡ none
      → Entered name s e
          (splay_search_node
            (edge_compare name)
            (edge_key s)
            (back_key e s)
            (own_trees e s (s.to e))).0
          (update
            (own_trees e s)
            (s.to e)
            (splay_search_node
              (edge_compare name)
              (edge_key s)
              (back_key e s)
              (own_trees e s (s.to e))).1)
          (splay_insert (weight_order name s) itself e s.edge_weight_tree).1
  unfolding edge_compare
  entered e s fit ok none_such missing =
      let (threads, new, _) =
        splay_insert-sorted (edge_compare name) (edge_key s) (edge_compare-IsOrder name) e
          (s.edge_tree (s.from e)) (ok.trees (s.from e)) in
      let (heavy_threads, heavy, _) =
        splay_insert-sorted (weight_order name s) itself (weight_order-IsOrder name s fit) e
          s.edge_weight_tree (ok.weights) in
      let trees_ok =
        replaced-IsTree name s s.edge_tree (s.from e) (inserted_own e s).1 (ok.trees) new in
      let searched_tree : SplayTree = own_trees e s (s.to e) in
      let (found, resplayed, kept) =
        search_node-find (edge_compare name) (edge_key s) (edge_compare-IsOrder name) (back_key e s)
          searched_tree (trees_ok (s.to e)) in
      let result =
        splay_search_node (edge_compare name) (edge_key s) (back_key e s) searched_tree in
      let thread_kept : (n x : ℕ)
          → member x (update (own_trees e s) (s.to e) (result.1) n).thread
            ≡ member x (own_trees e s n).thread =
        λ n x. resplayed_thread (own_trees e s) (s.to e) (result.1) n x kept in
      let was_missing = NoEdge-weights e s ok none_such in
      record {
        new_trees = replaced-IsTree name s (own_trees e s) (s.to e) (result.1) trees_ok resplayed;
        new_weights = heavy;
        in_trees = λ n x.
            let placed =
              ap (member x) threads
              ∙ member-insert_sorted (edge_compare name) (edge_key s) x e _ missing in
            thread_kept n x
            ∙ replaced_thread s.edge_tree (s.from e) (inserted_own e s).1 n x
            ∙ elim (Bool-cases (n == s.from e)) [
              | inl f ↦ rw (f) (
                  placed
                  ∙ ap (λ k. (e == x) || member x (s.edge_tree k).thread)
                      (sym ((==_iff n (s.from e)).0 f)))
              | inr f ↦ rw (f) refl
            ];
        in_weights = λ x.
            ap (member x) heavy_threads
            ∙ member-insert_sorted (weight_order name s) itself x e _ was_missing;
        found_back = λ r f.
            let (there, same) =
              find-some-member (edge_compare name) (edge_key s) (back_key e s) _ r
                (sym found ∙ f) in
            (thread_kept (s.to e) r ∙ there, sym (compare_to (back_key e s) (edge_key s r) same));
        nothing_back = λ f x h same_to.
            find-none-member (edge_compare name) (edge_key s) (back_key e s) _ x (sym found ∙ f)
              (sym (thread_kept (s.to e) x) ∙ h)
              (subst (λ n. sign (bytes_compare (name (s.from e)) (name n)) ≡ eq) (sym same_to)
                ((edge_compare-IsOrder name).self (back_key e s)));
      }
