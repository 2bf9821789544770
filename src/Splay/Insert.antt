-- ===== src/Splay/Insert.antt =====
-- splay_insert puts a node at its place in the ordered list.
use tinc_quic.Common.{ℕ, suc, ◌+◌, ◌≡◌, refl, sym, ap, ◌∙◌, ◌↔◌, inl, inr, arith, Bool, true}
use tinc_quic.Common.{false, none, some, List, [], ◌∷◌, ◌++◌, ◌==◌, if◌then◌else◌, All, ==_iff}
use tinc_quic.Common.{length, length-append}
use mathlib.Core.Path.{subst}
use tinc_quic.Common.Int.{ℤ, is_zero}
use tinc_quic.Splay.{SplayTree, sign, against, Splayed, branch}
use tinc_quic.Splay.Order.{IsOrder, Ordered, All-imp, apart, Ordered-append, inorder}
use tinc_quic.Splay.Order.{inorder_then-append}
use tinc_quic.Splay.Search.{insert_sorted, IsTree, find, Cut, find_cut, splayed-IsTree}
use tinc_quic.Splay.Search.{is_zero-sign, searched}
use tinc_quic.Splay.TopDown.{Behind, Ordering-cases, Ahead, At, inorder_then}
use tinc_quic.Splay.Update.{thread_after, thread_before, splay_insert_before}
use tinc_quic.Splay.Update.{splay_insert_after, insert_beside, splay_insert, splay_insert_top}
use tinc_quic.Splay.Update.{splay_insert_node}

thread_before_cut :
    (ps ss : List ℕ) (x n : ℕ)
    → All (λ p. (p == x) ≡ false) ps
    → thread_before x n (ps ++ (x ∷ ss)) ≡ ps ++ (n ∷ x ∷ ss)
unfolding thread_before
thread_before_cut [] ss x n h = rw ((==_iff x x).1 refl) refl
thread_before_cut (p ∷ ps) ss x n (hp, h) =
    rw (hp) (ap (λ r. p ∷ r) (thread_before_cut ps ss x n h))

thread_after_cut :
    (ps ss : List ℕ) (x n : ℕ)
    → All (λ p. (p == x) ≡ false) ps
    → thread_after x n (ps ++ (x ∷ ss)) ≡ ps ++ (x ∷ n ∷ ss)
unfolding thread_after
thread_after_cut [] ss x n h = rw ((==_iff x x).1 refl) refl
thread_after_cut (p ∷ ps) ss x n (hp, h) = rw (hp) (ap (λ r. p ∷ r) (thread_after_cut ps ss x n h))

module _ {D : Type 0} (compare : D → D → ℤ) (payload : ℕ → D) where
  pub insert_lt :
      (n x : ℕ) (nodes : List ℕ)
      → Ahead compare payload (payload n) x
      → insert_sorted compare payload n (x ∷ nodes) ≡ n ∷ x ∷ nodes
  unfolding insert_sorted
  insert_lt n x nodes e = rw (e, insert_sorted) refl

  pub insert_eq :
      (n x : ℕ) (nodes : List ℕ)
      → At compare payload (payload n) x
      → insert_sorted compare payload n (x ∷ nodes) ≡ x ∷ nodes
  unfolding insert_sorted
  insert_eq n x nodes e = rw (e, insert_sorted) refl

  pub insert_gt :
      (n x : ℕ) (nodes : List ℕ)
      → Behind compare payload (payload n) x
      → insert_sorted compare payload n (x ∷ nodes) ≡ x ∷ insert_sorted compare payload n nodes
  unfolding insert_sorted
  insert_gt n x nodes e = rw (e, insert_sorted) refl

  pub insert_bare : (n : ℕ) → insert_sorted compare payload n [] ≡ n ∷ []
  unfolding insert_sorted
  insert_bare n = refl

  insert_sorted-At :
      (n x : ℕ) (ps ss : List ℕ)
      → All (Behind compare payload (payload n)) ps
      → (Ahead compare payload (payload n) x
          → insert_sorted compare payload n (ps ++ (x ∷ ss)) ≡ ps ++ (n ∷ x ∷ ss))
        × (At compare payload (payload n) x
            → insert_sorted compare payload n (ps ++ (x ∷ ss)) ≡ ps ++ (x ∷ ss))
        × (Behind compare payload (payload n) x
            → All (Ahead compare payload (payload n)) ss
            → insert_sorted compare payload n (ps ++ (x ∷ ss)) ≡ ps ++ (x ∷ n ∷ ss))
  insert_sorted-At n x [] [] h = (
    λ e. insert_lt n x [] e,
    λ e. insert_eq n x [] e,
    λ e a. insert_gt n x [] e ∙ ap (λ r. x ∷ r) (insert_bare n),
  )
  insert_sorted-At n x [] (y ∷ ss) h = (
    λ e. insert_lt n x (y ∷ ss) e,
    λ e. insert_eq n x (y ∷ ss) e,
    λ e a. insert_gt n x (y ∷ ss) e ∙ ap (λ r. x ∷ r) (insert_lt n y ss (a.0)),
  )
  insert_sorted-At n x (p ∷ ps) ss (hp, h) =
      let (before, at, behind) = insert_sorted-At n x ps ss h in
      let pass = insert_gt n p (ps ++ (x ∷ ss)) hp in
      (
        λ e. pass ∙ ap (λ r. p ∷ r) (before e),
        λ e. pass ∙ ap (λ r. p ∷ r) (at e),
        λ e a. pass ∙ ap (λ r. p ∷ r) (behind e a),
      )

  module _ (order : IsOrder compare) where
    insert_sorted-All :
        (P : ℕ → Type 0) (n : ℕ) (nodes : List ℕ)
        → P n
        → All P nodes
        → All P (insert_sorted compare payload n nodes)
    insert_sorted-All P n [] hn h = subst (All P) (sym (insert_bare n)) (hn, tt)
    insert_sorted-All P n (x ∷ nodes) hn (hx, h) =
        elim (Ordering-cases (sign (against compare payload (payload n) x))) [
          | inl e ↦ rw (insert_lt n x nodes e) (hn, (hx, h))
          | inr (inl e) ↦ rw (insert_eq n x nodes e) (hx, h)
          | inr (inr e) ↦ rw (insert_gt n x nodes e) (hx, insert_sorted-All P n nodes hn h)
        ]

    pub insert_sorted-Ordered :
        (n : ℕ) (nodes : List ℕ)
        → Ordered compare payload nodes
        → Ordered compare payload (insert_sorted compare payload n nodes)
    insert_sorted-Ordered n [] h = rw (insert_bare n) (tt, tt)
    insert_sorted-Ordered n (x ∷ nodes) (hx, h) =
        elim (Ordering-cases (sign (against compare payload (payload n) x))) [
          | inl e ↦ rw (insert_lt n x nodes e) (
            (e, All-imp _ _ nodes (λ y k. order.lt_lt (payload n) (payload x) (payload y) e k) hx),
            (hx, h),
          )
          | inr (inl e) ↦ rw (insert_eq n x nodes e) (hx, h)
          | inr (inr e) ↦ rw (insert_gt n x nodes e) (
            insert_sorted-All _ n nodes (order.flip_gt (payload n) (payload x) e) hx,
            insert_sorted-Ordered n nodes h,
          )
        ]

    -- No node of an ordered list before `x` is `x`.
    pub others :
        (ps ss : List ℕ) (x : ℕ)
        → Ordered compare payload (ps ++ (x ∷ ss))
        → All (λ p. (p == x) ≡ false) ps
    others ps ss x h =
        All-imp _ _ ps (λ p k. apart compare payload order p x (k.0))
          ((Ordered-append compare payload ps (x ∷ ss) h).2)

    -- The node that was inserted, or the splayed tree, and its list.
    abbrev pub Inserted : ℕ → SplayTree → Bool × SplayTree → Type 0
    Inserted n tree result =
        (result.1.thread ≡ insert_sorted compare payload n tree.thread)
        × IsTree compare payload (result.1)
        × ((result.0 ≡ true) ↔ (find compare payload (payload n) tree.thread ≡ none))

    fresh :
        (n : ℕ) (tree tree' : SplayTree) (nodes : List ℕ)
        → IsTree compare payload tree
        → tree'.thread ≡ nodes
        → inorder tree'.root ≡ nodes
        → nodes ≡ insert_sorted compare payload n tree.thread
        → tree'.count ≡ tree.count + 1
        → length nodes ≡ suc (length tree.thread)
        → find compare payload (payload n) tree.thread ≡ none
        → Inserted n tree (true, tree')
    fresh n tree tree' nodes ok threads shape sorted more longer missing = (
      threads ∙ sorted,
      record {
        threaded = threads ∙ sym shape;
        ordered =
            subst (Ordered compare payload) (sym (threads ∙ sorted))
              (insert_sorted-Ordered n tree.thread ok.ordered);
        counted = omega (arith, more, longer, ok.counted, ap length threads);
      },
      (λ h. missing, λ h. refl),
    )

    not-At :
        (n x : ℕ)
        → (At compare payload (payload n) x → ⊥)
        → (if is_zero (against compare payload (payload n) x) then some x else none) ≡ none
    not-At n x h =
        rw ((is_zero-sign compare payload (against compare payload (payload n) x)).1 h) refl

    found-At :
        (n x : ℕ)
        → At compare payload (payload n) x
        → (if is_zero (against compare payload (payload n) x) then some x else none) ≡ some x
    found-At n x h =
        rw ((is_zero-sign compare payload (against compare payload (payload n) x)).0 h) refl

    known :
        (n : ℕ) (tree : SplayTree) (s : Splayed)
        → IsTree compare payload tree
        → Cut compare payload (payload n) tree.thread s
        → tree.thread ≡ insert_sorted compare payload n tree.thread
        → find compare payload (payload n) tree.thread ≡ some s.top
        → Inserted n tree (false, record tree { root = branch s.top_left s.top s.top_right })
    known n tree s ok cut same there = (
      same,
      splayed-IsTree compare payload order (payload n) tree s ok cut,
      ((λ h. absurd cc), (λ h. absurd (cc (h, there)))),
    )

    inserted_at :
        (n : ℕ) (tree : SplayTree) (s : Splayed)
        → IsTree compare payload tree
        → Cut compare payload (payload n) tree.thread s
        → Inserted n tree (
            insert_beside n s.top_left s.top s.top_right s.result
              (record tree { root = branch s.top_left s.top s.top_right }))
    unfolding splay_insert_before splay_insert_after inorder_then
    inserted_at n tree s ok cut =
        let ps = inorder s.top_left in
        let ss = inorder s.top_right in
        let apart = others ps ss s.top (subst (Ordered compare payload) cut.split ok.ordered) in
        let (before, at, behind) = insert_sorted-At n s.top ps ss cut.behind in
        let found =
          ap (find compare payload (payload n)) cut.split
          ∙ find_cut compare payload (payload n) ps ss s.top cut.behind cut.ahead in
        let placed = ap (insert_sorted compare payload n) cut.split in
        let long = ap length cut.split ∙ length-append ps (s.top ∷ ss) in
        elim (Ordering-cases (sign s.result)) [
          | inl e ↦
              let here : Ahead compare payload (payload n) s.top = ap sign (sym cut.result) ∙ e in
              rw (e, insert_beside)
                (fresh n tree _ (ps ++ (n ∷ s.top ∷ ss)) ok
                  (ap (thread_before s.top n) cut.split ∙ thread_before_cut ps ss s.top n apart)
                  (inorder_then-append s.top_left (n ∷ s.top ∷ ss)) (sym (placed ∙ before here))
                  refl (omega (arith, long, length-append ps (n ∷ s.top ∷ ss)))
                  (found ∙ not-At n s.top (λ z. cc (z, here))))
          | inr (inl e) ↦
              let here : At compare payload (payload n) s.top = ap sign (sym cut.result) ∙ e in
              rw (e, insert_beside)
                (known n tree s ok cut (cut.split ∙ sym (placed ∙ at here))
                  (found ∙ found-At n s.top here))
          | inr (inr e) ↦
              let here : Behind compare payload (payload n) s.top = ap sign (sym cut.result) ∙ e in
              rw (e, insert_beside)
                (fresh n tree _ (ps ++ (s.top ∷ n ∷ ss)) ok
                  (ap (thread_after s.top n) cut.split ∙ thread_after_cut ps ss s.top n apart)
                  (inorder_then-append s.top_left (s.top ∷ n ∷ ss))
                  (sym (placed ∙ behind here cut.ahead)) refl
                  (omega (arith, long, length-append ps (s.top ∷ n ∷ ss)))
                  (found ∙ not-At n s.top (λ z. cc (z, here))))
        ]

    -- For a comparison that orders, and a tree whose nodes are in order, splay_insert succeeds exactly
    -- if a search finds no node that is equal to the new one, and puts it at its place: the nodes are
    -- in order again.
    pub splay_insert-sorted :
        (n : ℕ) (tree : SplayTree)
        → IsTree compare payload tree
        → Inserted n tree (splay_insert compare payload n tree)
    unfolding splay_insert splay_insert_top find inorder_then
    splay_insert-sorted n tree ok = elim (searched compare payload order (payload n) tree ok) [
      | inl (nothing, bare) ↦
          rw (nothing, splay_insert)
            (fresh n tree (splay_insert_top n tree) (n ∷ []) ok refl refl
              (sym (ap (insert_sorted compare payload n) bare ∙ insert_bare n)) refl
              (ap (λ xs. suc (length xs)) (sym bare)) (ap (find compare payload (payload n)) bare))
      | inr (s, e, cut) ↦ rw (e, splay_insert) (inserted_at n tree s ok cut)
    ]

    pub insert_node-sorted :
        (n : ℕ) (tree : SplayTree)
        → IsTree compare payload tree
        → Inserted n tree (splay_insert_node compare payload n tree)
    unfolding splay_insert splay_insert_node
    insert_node-sorted n tree ok = splay_insert-sorted n tree ok
