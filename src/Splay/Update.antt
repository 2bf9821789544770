-- ===== src/Splay/Update.antt =====
-- Insertion into and deletion from the trees of src/splay_tree.c.
use tinc_quic.Common.{ℕ, ◌+◌, ◌-◌, Bool, true, false, not, Option, none, some, List, [], ◌∷◌}
use tinc_quic.Common.{◌==◌, if◌then◌else◌}
use Prim.Native.Nat.Ordering.{lt, eq, gt}
use tinc_quic.Common.Int.{ℤ}
use tinc_quic.Splay.{SplayTree, Tree, branch, sign, splay_search_node, splay_top_down, empty}

-- The step from a parent down to a node, with what hangs on the parent's other side.
pub data Frame : Type 0 where
  left_of : ℕ → Tree → Frame
  right_of : Tree → ℕ → Frame

-- What the pointers `parent` lead to from a node, its parent first.
abbrev pub Ancestors : Type 0
Ancestors = List Frame

-- The tree around a subtree.
unfoldable pub plug : Ancestors → Tree → Tree
plug [] t = t
plug (left_of x r ∷ path) t = plug path (branch t x r)
plug (right_of l x ∷ path) t = plug path (branch l x t)

-- The loop of splay_bottom_up for node `n`.
unfoldable pub splay_bottom_up : Ancestors → Tree → ℕ → Tree → Tree
splay_bottom_up [] l n r = branch l n r
splay_bottom_up (left_of p pr ∷ []) l n r = branch l n (branch r p pr)
splay_bottom_up (right_of pl p ∷ []) l n r = branch (branch pl p l) n r
splay_bottom_up (left_of p pr ∷ left_of g gr ∷ path) l n r =
    splay_bottom_up path l n (branch r p (branch pr g gr))
splay_bottom_up (right_of pl p ∷ right_of gl g ∷ path) l n r =
    splay_bottom_up path (branch (branch gl g pl) p l) n r
splay_bottom_up (right_of pl p ∷ left_of g gr ∷ path) l n r =
    splay_bottom_up path (branch pl p l) n (branch r g gr)
splay_bottom_up (left_of p pr ∷ right_of gl g ∷ path) l n r =
    splay_bottom_up path (branch gl g l) n (branch r p pr)

-- A node in a tree: its path, and what hangs below it.
pub record Position : Type 0 where
  pub path : Ancestors
  pub below_left : Tree
  pub below_right : Tree

abbrev pub first_found {ℓ} : {A : Type ℓ} → Option A → Option A → Option A
first_found none other = other
first_found (some found) other = some found

unfoldable pub locate : ℕ → Ancestors → Tree → Option Position
locate n path empty = none
locate n path (branch l x r) =
    let here : Position = record { path = path; below_left = l; below_right = r } in
    let deeper = first_found (locate n (left_of x r ∷ path) l) (locate n (right_of l x ∷ path) r) in
    if x == n then some here else deeper

-- Threads: a node before or behind another, and a node that is taken out.
unfoldable pub thread_before : ℕ → ℕ → List ℕ → List ℕ
thread_before before n [] = []
thread_before before n (x ∷ thread) =
    let rest = thread_before before n thread in if x == before then n ∷ x ∷ thread else x ∷ rest

unfoldable pub thread_after : ℕ → ℕ → List ℕ → List ℕ
thread_after after n [] = []
thread_after after n (x ∷ thread) =
    let rest = thread_after after n thread in if x == after then x ∷ n ∷ thread else x ∷ rest

unfoldable pub thread_without : ℕ → List ℕ → List ℕ
thread_without n [] = []
thread_without n (x ∷ thread) =
    let rest = thread_without n thread in if x == n then thread else x ∷ rest

-- Whether `n->prev` and `n->next` are there.
unfoldable pub has_prev : ℕ → List ℕ → Bool
has_prev n [] = false
has_prev n (x ∷ thread) = not (x == n)

unfoldable pub has_next : ℕ → List ℕ → Bool
has_next n [] = false
has_next n (x ∷ []) = false
has_next n (x ∷ y ∷ thread) = let rest = has_next n (y ∷ thread) in if x == n then true else rest

unfoldable pub splay_insert_top : ℕ → SplayTree → SplayTree
splay_insert_top n tree = record {
  root = branch empty n empty;
  thread = n ∷ [];
  count = tree.count + 1;
  generation = tree.generation + 1;
}

-- `before` is the root when splay_insert comes here: splay_bottom_up finds no parent.
unfoldable pub splay_insert_before : ℕ → Tree → ℕ → Tree → SplayTree → SplayTree
splay_insert_before n l before r tree = record {
  root = branch l n (branch empty before r);
  thread = thread_before before n tree.thread;
  count = tree.count + 1;
  generation = tree.generation + 1;
}

unfoldable pub splay_insert_after : ℕ → Tree → ℕ → Tree → SplayTree → SplayTree
splay_insert_after n l after r tree = record {
  root = branch (branch l after empty) n r;
  thread = thread_after after n tree.thread;
  count = tree.count + 1;
  generation = tree.generation + 1;
}

-- `node->prev->right = r`: the node before the root is the rightmost one of its left subtree.
unfoldable pub hang_right : Tree → Tree → Tree
hang_right empty r = r
hang_right (branch l x empty) r = branch l x r
hang_right (branch l x (branch rl y rr)) r = branch l x (hang_right (branch rl y rr) r)

-- The root without its node.
unfoldable pub unlinked_root : ℕ → List ℕ → Tree → Tree
unlinked_root n thread empty = empty
unlinked_root n thread (branch l x r) =
    if has_prev n thread then hang_right l r else if has_next n thread then r else empty

unfoldable pub splay_unlink_node : ℕ → SplayTree → SplayTree
splay_unlink_node n tree = elim (locate n [] tree.root) [
  | none ↦ tree
  | some at ↦ record {
    root = unlinked_root n tree.thread (splay_bottom_up at.path at.below_left n at.below_right);
    thread = thread_without n tree.thread;
    count = tree.count - 1;
    generation = tree.generation + 1;
  }
]

-- The free node `n`, which `payload` holds the data of, goes beside the closest node.
abbrev pub insert_beside : ℕ → Tree → ℕ → Tree → ℤ → SplayTree → Bool × SplayTree
insert_beside n l closest r c tree = elim (sign c) [
  | lt ↦ (true, splay_insert_before n l closest r tree)
  | eq ↦ (false, tree)
  | gt ↦ (true, splay_insert_after n l closest r tree)
]

module _ {D : Type 0} (compare : D → D → ℤ) (payload : ℕ → D) where
  -- `false` is a returned NULL. The tree is splayed all the same.
  unfoldable pub splay_insert : ℕ → SplayTree → Bool × SplayTree
  splay_insert n tree = elim (splay_top_down compare payload (payload n) [] [] tree.root) [
    | none ↦ (true, splay_insert_top n tree)
    | some s ↦
        insert_beside n s.top_left s.top s.top_right s.result
          (record tree { root = branch s.top_left s.top s.top_right })
  ]

  -- The same for a node that the caller has.
  unfoldable pub splay_insert_node : ℕ → SplayTree → Bool × SplayTree
  splay_insert_node n tree = elim (splay_top_down compare payload (payload n) [] [] tree.root) [
    | none ↦ (true, splay_insert_top n tree)
    | some s ↦
        insert_beside n s.top_left s.top s.top_right s.result
          (record tree { root = branch s.top_left s.top s.top_right })
  ]

  unfoldable pub splay_delete : D → SplayTree → SplayTree
  splay_delete sought tree =
      let (found, splayed) = splay_search_node compare payload sought tree in
      elim found [ none ↦ splayed | some n ↦ splay_unlink_node n splayed ]
