-- ===== src/Splay/Unique.antt =====
-- The nodes of an ordered list are not equal to each other, so a search gives the node it is meant for.
use tinc_quic.Common.{ℕ, ◌≡◌, sym, ap, ◌∙◌, ◌≢◌, inl, inr, true, false, ◌||◌, none, some, List}
use tinc_quic.Common.{[], ◌∷◌, ◌==◌, if◌then◌else◌, Option-cases, Bool-cases, ==_iff}
use tinc_quic.Common.Int.{ℤ, is_zero}
use tinc_quic.Splay.{sign, against, eq}
use tinc_quic.Splay.Delete.{delete_sorted, deleted_found, found_Among, find_here, find_past}
use tinc_quic.Splay.Insert.{insert_eq, insert_gt}
use tinc_quic.Splay.Members.{member, member-thread_without, member-All, Among-member}
use tinc_quic.Splay.Order.{IsOrder, Ordered}
use tinc_quic.Splay.Search.{find, is_zero-sign, insert_sorted}
use tinc_quic.Splay.TopDown.{Ordering-cases}

module _ {D : Type 0} (compare : D → D → ℤ) (payload : ℕ → D) where
  pub find-none-member :
      (sought : D) (nodes : List ℕ) (x : ℕ)
      → find compare payload sought nodes ≡ none
      → member x nodes ≡ true
      → sign (against compare payload sought x) ≢ eq
  unfolding member
  find-none-member sought [] x missing h = absurd cc
  find-none-member sought (y ∷ nodes) x missing h =
      elim (Bool-cases (is_zero (against compare payload sought y))) [
        | inl e ↦ absurd (cc (missing, find_here compare payload sought y nodes e))
        | inr e ↦ elim (Bool-cases (y == x)) [
          | inl f ↦ λ z.
              let zero : is_zero (against compare payload sought x) ≡ true =
                (is_zero-sign compare payload _).0 z in
              absurd (
                cc (
                  e,
                  zero,
                  ap (λ k. is_zero (against compare payload sought k)) ((==_iff y x).0 f),
                ))
          | inr f ↦
              find-none-member sought nodes x
                (sym (find_past compare payload sought y nodes e) ∙ missing)
                (sym (ap (λ b. b || member x nodes) f) ∙ h)
        ]
      ]

  zero-sign : (c : ℤ) → is_zero c ≡ true → sign c ≡ eq
  zero-sign c h = elim (Ordering-cases (sign c)) [
    | inl e ↦ absurd (cc (h, (is_zero-sign compare payload c).1 (λ z. cc (z, e))))
    | inr (inl e) ↦ e
    | inr (inr e) ↦ absurd (cc (h, (is_zero-sign compare payload c).1 (λ z. cc (z, e))))
  ]

  pub find-some-member :
      (sought : D) (nodes : List ℕ) (x : ℕ)
      → find compare payload sought nodes ≡ some x
      → (member x nodes ≡ true) × (sign (against compare payload sought x) ≡ eq)
  find-some-member sought nodes x h =
      let (among, nothing) = found_Among compare payload sought nodes x h in
      (Among-member x nodes among, zero-sign _ nothing)

  module _ (order : IsOrder compare) where
    -- Two nodes that are equal are one.
    pub member_unique :
        (nodes : List ℕ) (x y : ℕ)
        → Ordered compare payload nodes
        → member x nodes ≡ true
        → member y nodes ≡ true
        → sign (compare (payload x) (payload y)) ≡ eq
        → x ≡ y
    unfolding member
    member_unique [] x y o hx hy same = absurd cc
    member_unique (z ∷ nodes) x y (first, o) hx hy same = elim (Bool-cases (z == x)) [
      | inl ex ↦ elim (Bool-cases (z == y)) [
        | inl ey ↦ sym ((==_iff z x).0 ex) ∙ (==_iff z y).0 ey
        | inr ey ↦
            let before = member-All _ nodes y first (sym (ap (λ b. b || member y nodes) ey) ∙ hy) in
            absurd (
              cc (
                before,
                same,
                ap (λ k. sign (compare (payload k) (payload y))) ((==_iff z x).0 ex),
              ))
      ]
      | inr ex ↦
          let there = sym (ap (λ b. b || member x nodes) ex) ∙ hx in
          elim (Bool-cases (z == y)) [
            | inl ey ↦
                let before = order.flip_lt _ _ (member-All _ nodes x first there) in
                absurd (
                  cc (
                    before,
                    same,
                    ap (λ k. sign (compare (payload x) (payload k))) ((==_iff z y).0 ey),
                  ))
            | inr ey ↦
                member_unique nodes x y o there (sym (ap (λ b. b || member y nodes) ey) ∙ hy) same
          ]
    ]

    pub find-member :
        (nodes : List ℕ) (x : ℕ)
        → Ordered compare payload nodes
        → member x nodes ≡ true
        → find compare payload (payload x) nodes ≡ some x
    find-member nodes x o h = elim (Option-cases (find compare payload (payload x) nodes)) [
      | inl missing ↦
          absurd (find-none-member (payload x) nodes x missing h (order.self (payload x)))
      | inr (y, e) ↦
          let (there, same) = find-some-member (payload x) nodes y e in
          e ∙ ap some (sym (member_unique nodes x y o h there same))
    ]

    -- Deleting what a node holds takes that node out.
    pub delete_sorted-member :
        (nodes : List ℕ) (x m : ℕ)
        → Ordered compare payload nodes
        → member x nodes ≡ true
        → member m (delete_sorted compare payload (payload x) nodes)
          ≡ (if x == m then false else member m nodes)
    delete_sorted-member nodes x m o h =
        ap (member m)
          (sym (deleted_found compare payload (payload x) nodes x (find-member nodes x o h)))
        ∙ member-thread_without compare payload order m x nodes o

    -- A node that is equal to one of the list is not inserted.
    pub insert_sorted-found :
        (n : ℕ) (nodes : List ℕ) (y : ℕ)
        → Ordered compare payload nodes
        → find compare payload (payload n) nodes ≡ some y
        → insert_sorted compare payload n nodes ≡ nodes
    unfolding find member
    insert_sorted-found n [] y o h = absurd cc
    insert_sorted-found n (x ∷ nodes) y (first, o) h =
        let (there, same) = find-some-member (payload n) (x ∷ nodes) y h in
        elim (Ordering-cases (sign (against compare payload (payload n) x))) [
          | inl e ↦ elim (Bool-cases (x == y)) [
            | inl f ↦ absurd (
                cc (
                  e,
                  same,
                  ap (λ k. sign (against compare payload (payload n) k)) ((==_iff x y).0 f),
                ))
            | inr f ↦
                let before =
                  member-All _ nodes y first (sym (ap (λ b. b || member y nodes) f) ∙ there) in
                absurd (cc (same, order.lt_lt _ _ _ e before))
          ]
          | inr (inl e) ↦ insert_eq compare payload n x nodes e
          | inr (inr e) ↦
              let past =
                find_past compare payload (payload n) x nodes
                  ((is_zero-sign compare payload _).1 (λ z. cc (z, e))) in
              insert_gt compare payload n x nodes e
              ∙ ap (λ r. x ∷ r) (insert_sorted-found n nodes y o (sym past ∙ h))
        ]
