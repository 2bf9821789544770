-- ===== src/Splay/BottomUp.antt =====
-- splay_bottom_up keeps the order of the nodes, and brings a node to the root.
use tinc_quic.Common.{ℕ, ◌≡◌, refl, sym, ap, ◌∙◌, ◌⊎◌, inl, inr, true, false, Option, none}
use tinc_quic.Common.{some, List, [], ◌∷◌, ◌==◌, Bool-cases, ==_iff}
use tinc_quic.Splay.{Tree, branch, empty}
use tinc_quic.Splay.Order.{inorder}
use tinc_quic.Splay.TopDown.{inorder_then, TreeAll}
use tinc_quic.Splay.Update.{Position, locate, plug, splay_bottom_up, Ancestors, left_of}
use tinc_quic.Splay.Update.{right_of, first_found}

-- The order of a whole tree depends on that of a subtree only through its nodes.
plug_nodes :
    (path : Ancestors) (t u : Tree) (rest : List ℕ)
    → ((ys : List ℕ) → inorder_then t ys ≡ inorder_then u ys)
    → inorder_then (plug path t) rest ≡ inorder_then (plug path u) rest
unfolding plug inorder_then
plug_nodes [] t u rest same = same rest
plug_nodes (left_of x r ∷ path) t u rest same =
    plug_nodes path (branch t x r) (branch u x r) rest (λ ys. same (x ∷ inorder_then r ys))
plug_nodes (right_of l x ∷ path) t u rest same =
    plug_nodes path (branch l x t) (branch l x u) rest
      (λ ys. ap (λ zs. inorder_then l (x ∷ zs)) (same ys))

pub bottom_up-inorder :
    (path : Ancestors) (l : Tree) (n : ℕ) (r : Tree)
    → inorder (splay_bottom_up path l n r) ≡ inorder (plug path (branch l n r))
unfolding splay_bottom_up plug inorder_then
bottom_up-inorder [] l n r = refl
bottom_up-inorder (left_of p pr ∷ []) l n r = refl
bottom_up-inorder (right_of pl p ∷ []) l n r = refl
bottom_up-inorder (left_of p pr ∷ left_of g gr ∷ path) l n r =
    bottom_up-inorder path l n (branch r p (branch pr g gr))
    ∙ plug_nodes path _ (branch (branch (branch l n r) p pr) g gr) [] (λ ys. refl)
bottom_up-inorder (right_of pl p ∷ right_of gl g ∷ path) l n r =
    bottom_up-inorder path (branch (branch gl g pl) p l) n r
    ∙ plug_nodes path _ (branch gl g (branch pl p (branch l n r))) [] (λ ys. refl)
bottom_up-inorder (right_of pl p ∷ left_of g gr ∷ path) l n r =
    bottom_up-inorder path (branch pl p l) n (branch r g gr)
    ∙ plug_nodes path _ (branch (branch pl p (branch l n r)) g gr) [] (λ ys. refl)
bottom_up-inorder (left_of p pr ∷ right_of gl g ∷ path) l n r =
    bottom_up-inorder path (branch gl g l) n (branch r p pr)
    ∙ plug_nodes path _ (branch gl g (branch (branch l n r) p pr)) [] (λ ys. refl)

-- The node comes to the root.
pub bottom_up_root :
    (path : Ancestors) (l : Tree) (n : ℕ) (r : Tree)
    → (l' : Tree) × (r' : Tree) × (splay_bottom_up path l n r ≡ branch l' n r')
unfolding splay_bottom_up
bottom_up_root [] l n r = (l, r, refl)
bottom_up_root (left_of p pr ∷ []) l n r = (l, branch r p pr, refl)
bottom_up_root (right_of pl p ∷ []) l n r = (branch pl p l, r, refl)
bottom_up_root (left_of p pr ∷ left_of g gr ∷ path) l n r = bottom_up_root path _ n _
bottom_up_root (right_of pl p ∷ right_of gl g ∷ path) l n r = bottom_up_root path _ n _
bottom_up_root (right_of pl p ∷ left_of g gr ∷ path) l n r = bottom_up_root path _ n _
bottom_up_root (left_of p pr ∷ right_of gl g ∷ path) l n r = bottom_up_root path _ n _

abbrev node_at : ℕ → Position → Tree
node_at n at = plug at.path (branch at.below_left n at.below_right)

first_found-some :
    (a b : Option Position) (at : Position)
    → first_found a b ≡ some at
    → (a ≡ some at) ⊎ (b ≡ some at)
first_found-some none b at h = inr h
first_found-some (some p) b at h = inl h

first_found-none : (a b : Option Position) → first_found a b ≡ none → (a ≡ none) × (b ≡ none)
first_found-none none b h = (refl, h)
first_found-none (some p) b h = absurd cc

locate_here :
    (n : ℕ) (path : Ancestors) (l : Tree) (x : ℕ) (r : Tree)
    → (x == n) ≡ true
    → locate n path (branch l x r) ≡ some (record { path = path; below_left = l; below_right = r })
unfolding locate
locate_here n path l x r e = rw (e, locate) refl

locate_deeper :
    (n : ℕ) (path : Ancestors) (l : Tree) (x : ℕ) (r : Tree)
    → (x == n) ≡ false
    → locate n path (branch l x r)
      ≡ first_found (locate n (left_of x r ∷ path) l) (locate n (right_of l x ∷ path) r)
unfolding locate
locate_deeper n path l x r e = rw (e, locate) refl

-- A position that is found is one of the tree.
pub locate_sound :
    (n : ℕ) (path : Ancestors) (t : Tree) (at : Position)
    → locate n path t ≡ some at
    → node_at n at ≡ plug path t
unfolding locate plug
locate_sound n path empty at h = absurd cc
locate_sound n path (branch l x r) at h = elim (Bool-cases (x == n)) [
  | inl e ↦
      let here : at ≡ record { path = path; below_left = l; below_right = r } =
        cc (locate_here n path l x r e, h) in
      ap (node_at n) here ∙ ap (λ k. plug path (branch l k r)) (sym ((==_iff x n).0 e))
  | inr e ↦ elim (first_found-some _ _ at (sym (locate_deeper n path l x r e) ∙ h)) [
    | inl found ↦ locate_sound n (left_of x r ∷ path) l at found
    | inr found ↦ locate_sound n (right_of l x ∷ path) r at found
  ]
]

-- A node of the tree is found.
pub locate_complete :
    (n : ℕ) (path : Ancestors) (t : Tree)
    → locate n path t ≡ none
    → TreeAll (λ x. (x == n) ≡ false) t
locate_complete n path empty h = tt
locate_complete n path (branch l x r) h = elim (Bool-cases (x == n)) [
  | inl e ↦ absurd (cc (locate_here n path l x r e, h))
  | inr e ↦
      let (in_left, in_right) = first_found-none _ _ (sym (locate_deeper n path l x r e) ∙ h) in
      (
        locate_complete n (left_of x r ∷ path) l in_left,
        e,
        locate_complete n (right_of l x ∷ path) r in_right,
      )
]
