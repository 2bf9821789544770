-- ===== src/Splay/Search.antt =====
-- What splay_search and splay_insert do, on the ordered list of the nodes.
use tinc_quic.Common.{ℕ, zero, suc, ◌≡◌, refl, sym, ap, ◌∙◌, ◌≢◌, ◌⊎◌, inl, inr, true, false}
use tinc_quic.Common.{Option, none, some, List, [], ◌∷◌, ◌++◌, if◌then◌else◌, All, length}
use Prim.Native.Nat.Ordering.{lt, eq, gt}
use mathlib.Core.Path.{subst}
use tinc_quic.Common.Int.{ℤ, is_zero, pos, negsuc}
use tinc_quic.Splay.{SplayTree, Splayed, sign, against, splay_top_down, branch}
use tinc_quic.Splay.{splay_search_node, Tree, splay_search_closest_node, empty}
use tinc_quic.Splay.Order.{IsOrder, inorder, Ordered, Ordered-Aligned, inorder_then-append}
use tinc_quic.Splay.Order.{TreeAll-inorder}
use tinc_quic.Splay.TopDown.{Ahead, Behind, top_down-Result, LeftAll, Result, inorder_then}
use tinc_quic.Splay.TopDown.{Closest, RightAll, before_then, after_all}

module _ {D : Type 0} (compare : D → D → ℤ) (payload : ℕ → D) where
  -- The tree and its threads are one list, in order.
  pub record IsTree (tree : SplayTree) : Type 0 where
    pub threaded : tree.thread ≡ inorder tree.root
    pub ordered : Ordered compare payload tree.thread
    pub counted : tree.count ≡ length tree.thread

  -- The first node that is equal to what is looked for.
  unfoldable pub find : D → List ℕ → Option ℕ
  find sought [] = none
  find sought (x ∷ nodes) =
      let rest = find sought nodes in
      if is_zero (against compare payload sought x) then some x else rest

  -- A node at its place, if there is no equal one.
  unfoldable pub insert_sorted : ℕ → List ℕ → List ℕ
  insert_sorted n [] = n ∷ []
  insert_sorted n (x ∷ nodes) = elim (sign (against compare payload (payload n) x)) [
    | lt ↦ n ∷ x ∷ nodes
    | eq ↦ x ∷ nodes
    | gt ↦ x ∷ insert_sorted n nodes
  ]

  pub is_zero-sign : (c : ℤ) → (sign c ≡ eq → is_zero c ≡ true) × (sign c ≢ eq → is_zero c ≡ false)
  is_zero-sign (pos zero) = (λ h. refl, λ h. absurd (h refl))
  is_zero-sign (pos (suc n)) = (λ h. absurd cc, λ h. refl)
  is_zero-sign (negsuc n) = (λ h. absurd cc, λ h. refl)

  find-Ahead :
      (sought : D) (nodes : List ℕ)
      → All (Ahead compare payload sought) nodes
      → find sought nodes ≡ none
  unfolding find
  find-Ahead sought [] h = refl
  find-Ahead sought (x ∷ nodes) (hx, h) =
      rw ((is_zero-sign (against compare payload sought x)).1 (λ e. cc (e, hx)))
        (find-Ahead sought nodes h)

  -- In a list that is cut at `x`, as a search cuts it.
  pub find_cut :
      (sought : D) (ps ss : List ℕ) (x : ℕ)
      → All (Behind compare payload sought) ps
      → All (Ahead compare payload sought) ss
      → find sought (ps ++ (x ∷ ss))
        ≡ (if is_zero (against compare payload sought x) then some x else none)
  unfolding find
  find_cut sought [] ss x hp hs = rw (find-Ahead sought ss hs) refl
  find_cut sought (p ∷ ps) ss x (hp, hps) hs =
      rw ((is_zero-sign (against compare payload sought p)).1 (λ e. cc (e, hp)))
        (find_cut sought ps ss x hps hs)

  -- A search, as lists.
  pub record Cut (sought : D) (nodes : List ℕ) (s : Splayed) : Type 0 where
    pub split : nodes ≡ inorder s.top_left ++ (s.top ∷ inorder s.top_right)
    pub whole : nodes ≡ inorder (branch s.top_left s.top s.top_right)
    pub result : s.result ≡ against compare payload sought s.top
    pub behind : All (Behind compare payload sought) (inorder s.top_left)
    pub ahead : All (Ahead compare payload sought) (inorder s.top_right)

  Result-cases :
      (sought : D) (nodes : List ℕ) (t : Tree) (o : Option Splayed)
      → Result compare payload sought nodes t o
      → ((o ≡ none) × (t ≡ empty))
        ⊎ ((s : Splayed) × (o ≡ some s) × Closest compare payload sought nodes s)
  unfolding Result
  Result-cases sought nodes t none r = inl (refl, r)
  Result-cases sought nodes t (some s) r = inr (s, refl, r)

  Closest-Cut :
      (sought : D) (nodes : List ℕ) (s : Splayed)
      → Closest compare payload sought nodes s
      → Cut sought nodes s
  unfolding inorder_then
  Closest-Cut sought nodes s c = record {
    split = sym c.same_nodes ∙ inorder_then-append s.top_left (s.top ∷ inorder s.top_right);
    whole = sym c.same_nodes;
    result = c.compared;
    behind = TreeAll-inorder (Behind compare payload sought) s.top_left [] c.left_behind tt;
    ahead = TreeAll-inorder (Ahead compare payload sought) s.top_right [] c.right_before tt;
  }

  module _ (order : IsOrder compare) where
    -- splay_top_down on an ordered tree
    pub searched :
        (sought : D) (tree : SplayTree)
        → IsTree tree
        → ((splay_top_down compare payload sought [] [] tree.root ≡ none) × (tree.thread ≡ []))
          ⊎ ((s : Splayed) × (splay_top_down compare payload sought [] [] tree.root ≡ some s)
              × Cut sought tree.thread s)
    unfolding LeftAll RightAll before_then after_all inorder_then
    searched sought tree ok =
        let ordered = subst (Ordered compare payload) ok.threaded ok.ordered in
        let (aligned, _, _) = Ordered-Aligned compare payload order sought tree.root [] ordered in
        let found = top_down-Result compare payload sought [] [] tree.root aligned tt tt in
        elim (Result-cases sought (inorder tree.root) tree.root _ found) [
          | inl (nothing, bare) ↦ inl (nothing, ok.threaded ∙ ap inorder bare)
          | inr (s, e, c) ↦ inr (
            s,
            e,
            subst (λ nodes. Cut sought nodes s) (sym ok.threaded) (Closest-Cut sought _ s c),
          )
        ]

    closest_node :
        (sought : D) (tree : SplayTree) (s : Splayed)
        → splay_top_down compare payload sought [] [] tree.root ≡ some s
        → splay_search_closest_node compare payload sought tree
          ≡ (some (s.top, s.result), record tree { root = branch s.top_left s.top s.top_right })
    unfolding splay_search_closest_node
    closest_node sought tree s e = rw (e, splay_search_closest_node) refl

    -- A splayed tree is the same list.
    pub splayed-IsTree :
        (sought : D) (tree : SplayTree) (s : Splayed)
        → IsTree tree
        → Cut sought tree.thread s
        → IsTree (record tree { root = branch s.top_left s.top s.top_right })
    splayed-IsTree sought tree s ok cut = record {
      threaded = cut.whole;
      ordered = ok.ordered;
      counted = ok.counted;
    }

    -- For a comparison that orders, and a tree whose nodes are in order, splay_search_node finds the
    -- first equal node of the list, if there is one, and leaves a tree of the same list whose nodes are
    -- in order.
    pub search_node-find :
        (sought : D) (tree : SplayTree)
        → IsTree tree
        → ((splay_search_node compare payload sought tree).0 ≡ find sought tree.thread)
          × IsTree (splay_search_node compare payload sought tree).1
          × ((splay_search_node compare payload sought tree).1.thread ≡ tree.thread)
    unfolding splay_search_node find splay_search_closest_node
    search_node-find sought tree ok = elim (searched sought tree ok) [
      | inl (nothing, bare) ↦
          rw (nothing, splay_search_closest_node) (sym (ap (find sought) bare), ok, refl)
      | inr (s, e, cut) ↦
          rw (closest_node sought tree s e, cut.result)
            (
              sym (
                  ap (find sought) cut.split
                  ∙ find_cut sought (inorder s.top_left) (inorder s.top_right) s.top cut.behind
                      cut.ahead),
              splayed-IsTree sought tree s ok cut,
              refl,
            )
    ]
