-- ===== src/Splay/Unlink.antt =====
-- splay_unlink_node takes a node out of the ordered list.
use tinc_quic.Common.{ℕ, ◌+◌, ◌-◌, ◌≡◌, refl, sym, ap, ◌∙◌, ◌⊎◌, inl, inr, arith, true, false}
use tinc_quic.Common.{List, [], ◌∷◌, ◌++◌, ◌==◌, ==_iff, Option-cases, All, Among, length}
use tinc_quic.Common.{length-append}
use mathlib.Core.Path.{subst}
use tinc_quic.Common.Int.{ℤ}
use tinc_quic.Splay.{Tree, branch, empty, SplayTree}
use tinc_quic.Splay.BottomUp.{locate_complete, bottom_up_root, locate_sound, bottom_up-inorder}
use tinc_quic.Splay.Insert.{others}
use tinc_quic.Splay.Order.{inorder, IsOrder, Ordered, inorder_then-append, Ordered-append}
use tinc_quic.Splay.Order.{TreeAll-inorder, append-Ordered, All-imp}
use tinc_quic.Splay.Search.{IsTree}
use tinc_quic.Splay.TopDown.{inorder_then}
use tinc_quic.Splay.Update.{hang_right, locate, plug, has_prev, thread_without, unlinked_root}
use tinc_quic.Splay.Update.{has_next, splay_unlink_node}

hang_right-inorder : (l r : Tree) → inorder (hang_right l r) ≡ inorder_then l (inorder r)
unfolding hang_right inorder_then
hang_right-inorder empty r = refl
hang_right-inorder (branch l x empty) r = refl
hang_right-inorder (branch l x (branch rl y rr)) r =
    ap (λ ys. inorder_then l (x ∷ ys)) (hang_right-inorder (branch rl y rr) r)

thread_without_cut :
    (n : ℕ) (ps ss : List ℕ)
    → All (λ p. (p == n) ≡ false) ps
    → thread_without n (ps ++ (n ∷ ss)) ≡ ps ++ ss
unfolding thread_without
thread_without_cut n [] ss h = rw ((==_iff n n).1 refl) refl
thread_without_cut n (p ∷ ps) ss (hp, h) = rw (hp) (ap (λ r. p ∷ r) (thread_without_cut n ps ss h))

-- The neighbours of `n` in the threads.
neighbours :
    (n : ℕ) (ps ss : List ℕ)
    → All (λ p. (p == n) ≡ false) ps
    → (has_prev n (ps ++ (n ∷ ss)) ≡ true)
      ⊎ ((ps ≡ [])
          × (has_prev n (ps ++ (n ∷ ss)) ≡ false)
          × ((has_next n (ps ++ (n ∷ ss)) ≡ true)
              ⊎ ((has_next n (ps ++ (n ∷ ss)) ≡ false) × (ss ≡ []))))
unfolding has_prev has_next
neighbours n [] [] h = inr (refl, rw ((==_iff n n).1 refl) refl, inr (refl, refl))
neighbours n [] (s ∷ ss) h =
    inr (refl, rw ((==_iff n n).1 refl) refl, inl (rw ((==_iff n n).1 refl) refl))
neighbours n (p ∷ ps) ss (hp, h) = inl (rw (hp) refl)

unlinked_nodes :
    (n : ℕ) (thread : List ℕ) (l r : Tree)
    → thread ≡ inorder l ++ (n ∷ inorder r)
    → All (λ p. (p == n) ≡ false) (inorder l)
    → inorder (unlinked_root n thread (branch l n r)) ≡ inorder l ++ inorder r
unfolding unlinked_root inorder_then
unlinked_nodes n thread l r e first_ones = elim (neighbours n (inorder l) (inorder r) first_ones) [
  | inl prev ↦
      rw (ap (has_prev n) e ∙ prev) (hang_right-inorder l r ∙ inorder_then-append l (inorder r))
  | inr (first, none_before, inl next) ↦
      rw (ap (has_prev n) e ∙ none_before, ap (has_next n) e ∙ next)
        (ap (λ ps. ps ++ inorder r) (sym first))
  | inr (first, none_before, inr (none_behind, last)) ↦
      rw (ap (has_prev n) e ∙ none_before, ap (has_next n) e ∙ none_behind, first, last) refl
]

module _ {D : Type 0} (compare : D → D → ℤ) (payload : ℕ → D) (order : IsOrder compare) where
  without-Ordered :
      (n : ℕ) (ps ss : List ℕ)
      → Ordered compare payload (ps ++ (n ∷ ss))
      → Ordered compare payload (ps ++ ss)
  without-Ordered n ps ss h =
      let (ops, (_, oss), across) = Ordered-append compare payload ps (n ∷ ss) h in
      append-Ordered compare payload ps ss ops oss (All-imp _ _ ps (λ p k. k.1) across)

  -- The tree without its node at the root.
  unlinked-IsTree :
      (n : ℕ) (tree : SplayTree) (root l r : Tree)
      → IsTree compare payload tree
      → inorder tree.root ≡ inorder root
      → root ≡ branch l n r
      → IsTree compare payload (record {
        root = unlinked_root n tree.thread root;
        thread = thread_without n tree.thread;
        count = tree.count - 1;
        generation = tree.generation + 1;
      })
  unfolding inorder_then
  unlinked-IsTree n tree root l r ok same e =
      let cut : tree.thread ≡ inorder l ++ (n ∷ inorder r) =
        ok.threaded ∙ same ∙ ap inorder e ∙ inorder_then-append l (n ∷ inorder r) in
      let ordered = subst (Ordered compare payload) cut ok.ordered in
      let apart = others compare payload order (inorder l) (inorder r) n ordered in
      let left_over : thread_without n tree.thread ≡ inorder l ++ inorder r =
        ap (thread_without n) cut ∙ thread_without_cut n (inorder l) (inorder r) apart in
      record {
        threaded =
            left_over
            ∙ sym (
                ap (λ t. inorder (unlinked_root n tree.thread t)) e
                ∙ unlinked_nodes n tree.thread l r cut apart);
        ordered =
            subst (Ordered compare payload) (sym left_over)
              (without-Ordered n (inorder l) (inorder r) ordered);
        counted = omega (
          arith,
          ok.counted,
          ap length cut,
          ap length left_over,
          length-append (inorder l) (n ∷ inorder r),
          length-append (inorder l) (inorder r),
        );
      }

  Among-All : (P : ℕ → Type 0) (n : ℕ) (nodes : List ℕ) → Among n nodes → All P nodes → P n
  Among-All P n [] h k = absurd h
  Among-All P n (x ∷ nodes) (inl e) (hx, k) = subst P (sym e) hx
  Among-All P n (x ∷ nodes) (inr h) (hx, k) = Among-All P n nodes h k

  -- For a comparison that orders, a tree whose nodes are in order, and any of its nodes,
  -- splay_unlink_node takes that node out of the list and leaves a tree whose nodes are in order.
  pub unlink_node-without :
      (n : ℕ) (tree : SplayTree)
      → IsTree compare payload tree
      → Among n tree.thread
      → ((splay_unlink_node n tree).thread ≡ thread_without n tree.thread)
        × IsTree compare payload (splay_unlink_node n tree)
  unfolding splay_unlink_node plug
  unlink_node-without n tree ok among = elim (Option-cases (locate n [] tree.root)) [
    | inl nowhere ↦
        let apart =
          TreeAll-inorder (λ x. (x == n) ≡ false) tree.root []
            (locate_complete n [] tree.root nowhere) tt in
        let self = Among-All _ n _ (subst (Among n) ok.threaded among) apart in
        absurd (cc (self, (==_iff n n).1 refl))
    | inr (at, e) ↦
        let (l, r, root) = bottom_up_root at.path at.below_left n at.below_right in
        let same =
          ap inorder (sym (locate_sound n [] tree.root at e))
          ∙ sym (bottom_up-inorder at.path at.below_left n at.below_right) in
        rw (e, splay_unlink_node) (refl, unlinked-IsTree n tree _ l r ok same root)
  ]
