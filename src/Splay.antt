-- ===== src/Splay.antt =====
-- src/splay_tree.c. A node is its address, a number, and `payload` gives what it holds. The pointers
-- `left`, `right` and `parent` are the shape of a tree; the threads `prev` and `next` with `head` and
-- `tail` are a list of nodes of their own.
pub mod Update
pub mod TopDown
pub mod Order
pub mod Search
pub mod Insert
pub mod BottomUp
pub mod Unlink
pub mod Delete
pub mod Members
pub mod Unique
pub mod Tests
use tinc_quic.Common.{ℕ, zero, suc, ◌+◌, ◌-◌, ◌*◌, ◌/◌, ◌%◌, ◌^◌, ◌≤◌, ◌<◌, bit_and, bit_or}
use tinc_quic.Common.{◌≡◌, refl, sym, ap, ◌∙◌, ◌≢◌, ◌↔◌, ◌⊎◌, inl, inr, arith, Bool, true}
use tinc_quic.Common.{false, ◌&&◌, ◌||◌, not, Option, none, some, List, [], ◌∷◌, ◌++◌, map, ltb}
use tinc_quic.Common.{leb, ◌==◌, if◌then◌else◌, ◌>>=◌}
use Prim.Native.Nat.{Ordering}
use Prim.Native.Nat.Ordering.{lt, eq, gt}
use tinc_quic.Common.Int.{ℤ, pos, negsuc, is_zero}

pub data Tree : Type 0 where
  empty : Tree
  branch : Tree → ℕ → Tree → Tree

pub record SplayTree : Type 0 where
  pub root : Tree
  pub thread : List ℕ
  pub count : ℕ
  pub generation : ℕ

-- What C asks about the result of a comparison.
abbrev pub sign : ℤ → Ordering
sign (pos zero) = eq
sign (pos (suc n)) = gt
sign (negsuc n) = lt

-- The tree under `left.right`: nodes with their left subtrees, the one at `leftbottom` first.
abbrev pub LeftPart : Type 0
LeftPart = List (Tree × ℕ)

-- The tree under `right.left`, from `rightbottom` up.
abbrev pub RightPart : Type 0
RightPart = List (ℕ × Tree)

-- `leftbottom->right = t`, and the whole left tree.
unfoldable pub attach_left : LeftPart → Tree → Tree
attach_left [] t = t
attach_left ((l, x) ∷ left) t = attach_left left (branch l x t)

unfoldable pub attach_right : RightPart → Tree → Tree
attach_right [] t = t
attach_right ((x, r) ∷ right) t = attach_right right (branch t x r)

-- The tree with its root and `*result`.
pub record Splayed : Type 0 where
  pub top_left : Tree
  pub top : ℕ
  pub top_right : Tree
  pub result : ℤ

-- `Merge trees`
unfoldable pub merge_trees : LeftPart → RightPart → Tree → ℕ → Tree → ℤ → Splayed
merge_trees left right l x r c = record {
  top_left = attach_left left l;
  top = x;
  top_right = attach_right right r;
  result = c;
}

-- `result ? NULL : node`
abbrev pub exactly : Option (ℕ × ℤ) → Option ℕ
exactly none = none
exactly (some (x, c)) = if is_zero c then some x else none

abbrev pub closer : ℕ × ℤ → Option (ℕ × ℤ) → Option (ℕ × ℤ)
closer here none = some here
closer here (some found) = some found

abbrev pub splayed_or : Splayed → Option Splayed → Splayed
splayed_or other none = other
splayed_or other (some found) = found

module _ {D : Type 0} (compare : D → D → ℤ) (payload : ℕ → D) where
  -- The comparison of what is looked for with a node.
  abbrev pub against : D → ℕ → ℤ
  against sought x = compare sought (payload x)

  -- The loop; `none` is an empty tree. A grandchild that is there becomes the next root.
  unfoldable mutual
    pub splay_top_down : D → LeftPart → RightPart → Tree → Option Splayed
    splay_top_down sought left right empty = none
    splay_top_down sought left right (branch l x r) = elim (sign (against sought x)) [
      | lt ↦ some (turn_left sought left right l x r)
      | eq ↦ some (merge_trees left right l x r (against sought x))
      | gt ↦ some (turn_right sought left right l x r)
    ]

    pub turn_left : D → LeftPart → RightPart → Tree → ℕ → Tree → Splayed
    turn_left sought left right empty x r = merge_trees left right empty x r (against sought x)
    turn_left sought left right (branch cl y cr) x r =
        let zig = merge_trees left ((x, r) ∷ right) cl y cr (against sought y) in
        elim (sign (against sought y)) [
          | lt ↦ splayed_or zig (splay_top_down sought left ((y, branch cr x r) ∷ right) cl)
          | eq ↦ zig
          | gt ↦ splayed_or zig (splay_top_down sought ((cl, y) ∷ left) ((x, r) ∷ right) cr)
        ]

    pub turn_right : D → LeftPart → RightPart → Tree → ℕ → Tree → Splayed
    turn_right sought left right l x empty = merge_trees left right l x empty (against sought x)
    turn_right sought left right l x (branch cl y cr) =
        let zig = merge_trees ((l, x) ∷ left) right cl y cr (against sought y) in
        elim (sign (against sought y)) [
          | lt ↦ splayed_or zig (splay_top_down sought ((l, x) ∷ left) ((y, cr) ∷ right) cl)
          | eq ↦ zig
          | gt ↦ splayed_or zig (splay_top_down sought ((branch l x cl, y) ∷ left) right cr)
        ]

  -- The closest node, with the comparison; no node and 0 for an empty tree.
  unfoldable pub splay_search_closest_node : D → SplayTree → Option (ℕ × ℤ) × SplayTree
  splay_search_closest_node sought tree = elim (splay_top_down sought [] [] tree.root) [
    | none ↦ (none, tree)
    | some s ↦ (some (s.top, s.result), record tree { root = branch s.top_left s.top s.top_right })
  ]

  unfoldable pub splay_search_node : D → SplayTree → Option ℕ × SplayTree
  splay_search_node sought tree =
      let (closest, splayed) = splay_search_closest_node sought tree in (exactly closest, splayed)

  -- The search that leaves the tree alone.
  unfoldable pub splay_search_closest_node_nosplay : D → Tree → Option (ℕ × ℤ)
  splay_search_closest_node_nosplay sought empty = none
  splay_search_closest_node_nosplay sought (branch l x r) =
      let here : ℕ × ℤ = (x, against sought x) in
      elim (sign (against sought x)) [
        | lt ↦ closer here (splay_search_closest_node_nosplay sought l)
        | eq ↦ some here
        | gt ↦ closer here (splay_search_closest_node_nosplay sought r)
      ]
