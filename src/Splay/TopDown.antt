-- ===== src/Splay/TopDown.antt =====
-- splay_top_down keeps the order of the nodes and ends at the closest one.
use tinc_quic.Common.{ℕ, ◌≡◌, refl, sym, ap, ◌∙◌, ◌⊎◌, inl, inr, Option, none, some, List, []}
use tinc_quic.Common.{◌∷◌}
use Prim.Native.Nat.{Ordering}
use Prim.Native.Nat.Ordering.{lt, eq, gt}
use mathlib.Core.Path.{subst}
use tinc_quic.Common.Int.{ℤ}
use tinc_quic.Splay.{LeftPart, RightPart, Splayed, Tree, attach_left, attach_right, merge_trees}
use tinc_quic.Splay.{branch, splayed_or, empty, against, sign, splay_top_down, turn_left}
use tinc_quic.Splay.{turn_right}

-- The nodes of a tree in order, before other nodes.
unfoldable pub inorder_then : Tree → List ℕ → List ℕ
inorder_then empty rest = rest
inorder_then (branch l x r) rest = inorder_then l (x ∷ inorder_then r rest)

-- The nodes of a left part, before other nodes, and of a right part.
unfoldable pub before_then : LeftPart → List ℕ → List ℕ
before_then [] rest = rest
before_then ((l, x) ∷ left) rest = before_then left (inorder_then l (x ∷ rest))

unfoldable pub after_all : RightPart → List ℕ
after_all [] = []
after_all ((x, r) ∷ right) = x ∷ inorder_then r (after_all right)

attach_left-inorder :
    (left : LeftPart) (t : Tree) (rest : List ℕ)
    → inorder_then (attach_left left t) rest ≡ before_then left (inorder_then t rest)
unfolding attach_left before_then inorder_then
attach_left-inorder [] t rest = refl
attach_left-inorder ((l, x) ∷ left) t rest = attach_left-inorder left (branch l x t) rest

attach_right-inorder :
    (right : RightPart) (t : Tree)
    → inorder_then (attach_right right t) [] ≡ inorder_then t (after_all right)
unfolding attach_right after_all inorder_then
attach_right-inorder [] t = refl
attach_right-inorder ((x, r) ∷ right) t = attach_right-inorder right (branch t x r)

abbrev pub splayed_tree : Splayed → Tree
splayed_tree s = branch s.top_left s.top s.top_right

merge_trees-inorder :
    (left : LeftPart) (right : RightPart) (l : Tree) (x : ℕ) (r : Tree) (c : ℤ)
    → inorder_then (splayed_tree (merge_trees left right l x r c)) []
      ≡ before_then left (inorder_then l (x ∷ inorder_then r (after_all right)))
unfolding merge_trees inorder_then
merge_trees-inorder left right l x r c =
    attach_left-inorder left l (x ∷ inorder_then (attach_right right r) [])
    ∙ ap (λ rest. before_then left (inorder_then l (x ∷ rest))) (attach_right-inorder right r)

pub Ordering-cases : (o : Ordering) → (o ≡ lt) ⊎ ((o ≡ eq) ⊎ (o ≡ gt))
Ordering-cases lt = inl refl
Ordering-cases eq = inr (inl refl)
Ordering-cases gt = inr (inr refl)

abbrev pub TreeAll : (ℕ → Type 0) → Tree → Type 0
TreeAll P empty = Unit
TreeAll P (branch l x r) = TreeAll P l × P x × TreeAll P r

unfoldable pub LeftAll : (ℕ → Type 0) → LeftPart → Type 0
LeftAll P [] = Unit
LeftAll P ((l, x) ∷ left) = TreeAll P l × P x × LeftAll P left

unfoldable pub RightAll : (ℕ → Type 0) → RightPart → Type 0
RightAll P [] = Unit
RightAll P ((x, r) ∷ right) = P x × TreeAll P r × RightAll P right

attach_left-TreeAll :
    (P : ℕ → Type 0) (left : LeftPart) (t : Tree)
    → LeftAll P left
    → TreeAll P t
    → TreeAll P (attach_left left t)
unfolding LeftAll attach_left
attach_left-TreeAll P [] t h k = k
attach_left-TreeAll P ((l, x) ∷ left) t (hl, hx, h) k =
    attach_left-TreeAll P left (branch l x t) h (hl, hx, k)

attach_right-TreeAll :
    (P : ℕ → Type 0) (right : RightPart) (t : Tree)
    → RightAll P right
    → TreeAll P t
    → TreeAll P (attach_right right t)
unfolding RightAll attach_right
attach_right-TreeAll P [] t h k = k
attach_right-TreeAll P ((x, r) ∷ right) t (hx, hr, h) k =
    attach_right-TreeAll P right (branch t x r) h (k, hx, hr)

module _ {D : Type 0} (compare : D → D → ℤ) (payload : ℕ → D) (sought : D) where
  -- What is looked for stands behind a node, or before it.
  abbrev pub Behind : ℕ → Type 0
  Behind x = sign (against compare payload sought x) ≡ gt

  abbrev pub Ahead : ℕ → Type 0
  Ahead x = sign (against compare payload sought x) ≡ lt

  abbrev pub At : ℕ → Type 0
  At x = sign (against compare payload sought x) ≡ eq

  -- The nodes of the tree stand in such an order that the search for `sought` is right.
  abbrev pub Aligned : Tree → Type 0
  Aligned empty = Unit
  Aligned (branch l x r) =
      Aligned l
      × Aligned r
      × ((At x ⊎ Behind x) → TreeAll Behind l)
      × ((At x ⊎ Ahead x) → TreeAll Ahead r)

  -- The result of a search in a tree with these nodes.
  pub record Closest (nodes : List ℕ) (s : Splayed) : Type 0 where
    pub same_nodes : inorder_then (splayed_tree s) [] ≡ nodes
    pub compared : s.result ≡ against compare payload sought s.top
    pub left_behind : TreeAll Behind s.top_left
    pub right_before : TreeAll Ahead s.top_right

  merge_trees-Closest :
      (left : LeftPart) (right : RightPart) (l : Tree) (x : ℕ) (r : Tree)
      → LeftAll Behind left
      → RightAll Ahead right
      → TreeAll Behind l
      → TreeAll Ahead r
      → Closest
          (before_then left (inorder_then l (x ∷ inorder_then r (after_all right))))
          (merge_trees left right l x r (against compare payload sought x))
  unfolding merge_trees
  merge_trees-Closest left right l x r hl hr kl kr = record {
    same_nodes = merge_trees-inorder left right l x r (against compare payload sought x);
    compared = refl;
    left_behind = attach_left-TreeAll Behind left l hl kl;
    right_before = attach_right-TreeAll Ahead right r hr kr;
  }

  -- The loop's result from a tree, which is `none` for an empty one only.
  unfoldable pub Result : List ℕ → Tree → Option Splayed → Type 0
  Result nodes t none = t ≡ empty
  Result nodes t (some s) = Closest nodes s

  splayed_or-Closest :
      (nodes : List ℕ) (t : Tree) (zig : Splayed) (deeper : Option Splayed)
      → (t ≡ empty → Closest nodes zig)
      → Result nodes t deeper
      → Closest nodes (splayed_or zig deeper)
  unfolding Result
  splayed_or-Closest nodes t zig none h k = h k
  splayed_or-Closest nodes t zig (some s) h k = k

  mutual
    unfolding splay_top_down turn_left turn_right Result LeftAll RightAll before_then after_all
        inorder_then

    pub top_down-Result :
        (left : LeftPart) (right : RightPart) (t : Tree)
        → Aligned t
        → LeftAll Behind left
        → RightAll Ahead right
        → Result
            (before_then left (inorder_then t (after_all right)))
            t
            (splay_top_down compare payload sought left right t)
    top_down-Result left right empty aligned hl hr = refl
    top_down-Result left right (branch l x r) aligned hl hr =
        elim (Ordering-cases (sign (against compare payload sought x))) [
          | inl e ↦ rw (e, Result) (turn_left-Closest left right l x r e aligned hl hr)
          | inr (inl e) ↦
              rw (e, Result)
                (merge_trees-Closest left right l x r hl hr (aligned.2 (inl e)) (aligned.3 (inl e)))
          | inr (inr e) ↦ rw (e, Result) (turn_right-Closest left right l x r e aligned hl hr)
        ]

    turn_left-Closest :
        (left : LeftPart) (right : RightPart) (l : Tree) (x : ℕ) (r : Tree)
        → Ahead x
        → Aligned (branch l x r)
        → LeftAll Behind left
        → RightAll Ahead right
        → Closest
            (before_then left (inorder_then (branch l x r) (after_all right)))
            (turn_left compare payload sought left right l x r)
    turn_left-Closest left right empty x r hx aligned hl hr =
        merge_trees-Closest left right empty x r hl hr tt (aligned.3 (inr hx))
    turn_left-Closest left right (branch cl y cr) x r hx (child, below, _, behind) hl hr =
        let right_x : RightAll Ahead ((x, r) ∷ right) = (hx, behind (inr hx), hr) in
        elim (Ordering-cases (sign (against compare payload sought y))) [
          | inl e ↦
              rw (e, turn_left)
                (splayed_or-Closest _ cl _ _
                  (λ none_left.
                    merge_trees-Closest left ((x, r) ∷ right) cl y cr hl right_x
                      (subst (TreeAll Behind) (sym none_left) tt) (child.3 (inr e)))
                  (top_down-Result left ((y, branch cr x r) ∷ right) cl (child.0) hl
                    (e, (child.3 (inr e), hx, behind (inr hx)), hr)))
          | inr (inl e) ↦
              rw (e, turn_left)
                (merge_trees-Closest left ((x, r) ∷ right) cl y cr hl right_x (child.2 (inl e))
                  (child.3 (inl e)))
          | inr (inr e) ↦
              rw (e, turn_left)
                (splayed_or-Closest _ cr _ _
                  (λ none_right.
                    merge_trees-Closest left ((x, r) ∷ right) cl y cr hl right_x (child.2 (inr e))
                      (subst (TreeAll Ahead) (sym none_right) tt))
                  (top_down-Result ((cl, y) ∷ left) ((x, r) ∷ right) cr (child.1)
                    (child.2 (inr e), e, hl) right_x))
        ]

    turn_right-Closest :
        (left : LeftPart) (right : RightPart) (l : Tree) (x : ℕ) (r : Tree)
        → Behind x
        → Aligned (branch l x r)
        → LeftAll Behind left
        → RightAll Ahead right
        → Closest
            (before_then left (inorder_then (branch l x r) (after_all right)))
            (turn_right compare payload sought left right l x r)
    turn_right-Closest left right l x empty hx aligned hl hr =
        merge_trees-Closest left right l x empty hl hr (aligned.2 (inr hx)) tt
    turn_right-Closest left right l x (branch cl y cr) hx (below, child, before, _) hl hr =
        let left_x : LeftAll Behind ((l, x) ∷ left) = (before (inr hx), hx, hl) in
        elim (Ordering-cases (sign (against compare payload sought y))) [
          | inl e ↦
              rw (e, turn_right)
                (splayed_or-Closest _ cl _ _
                  (λ none_left.
                    merge_trees-Closest ((l, x) ∷ left) right cl y cr left_x hr
                      (subst (TreeAll Behind) (sym none_left) tt) (child.3 (inr e)))
                  (top_down-Result ((l, x) ∷ left) ((y, cr) ∷ right) cl (child.0) left_x
                    (e, child.3 (inr e), hr)))
          | inr (inl e) ↦
              rw (e, turn_right)
                (merge_trees-Closest ((l, x) ∷ left) right cl y cr left_x hr (child.2 (inl e))
                  (child.3 (inl e)))
          | inr (inr e) ↦
              rw (e, turn_right)
                (splayed_or-Closest _ cr _ _
                  (λ none_right.
                    merge_trees-Closest ((l, x) ∷ left) right cl y cr left_x hr (child.2 (inr e))
                      (subst (TreeAll Ahead) (sym none_right) tt))
                  (top_down-Result ((branch l x cl, y) ∷ left) right cr (child.1)
                    ((before (inr hx), hx, child.2 (inr e)), e, hl) hr))
        ]
