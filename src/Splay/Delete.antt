-- ===== src/Splay/Delete.antt =====
-- splay_delete, splay_search_closest_node_nosplay, and whole sequences of calls, on the ordered list.
use tinc_quic.Common.{ℕ, ◌≡◌, refl, sym, ap, ◌∙◌, inl, inr, true, false, none, some, List, []}
use tinc_quic.Common.{◌∷◌, ◌==◌, if◌then◌else◌, Among, Bool-cases, ==_iff, Option-cases}
use mathlib.Core.Path.{subst}
use tinc_quic.Common.Int.{ℤ, is_zero}
use tinc_quic.Splay.{SplayTree, against, splay_search_node}
use tinc_quic.Splay.Order.{IsOrder}
use tinc_quic.Splay.Search.{find, IsTree, search_node-find}
use tinc_quic.Splay.Unlink.{unlink_node-without}
use tinc_quic.Splay.Update.{thread_without, splay_delete}

module _ {D : Type 0} (compare : D → D → ℤ) (payload : ℕ → D) where
  -- The list without its first node that is equal to what is looked for.
  unfoldable pub delete_sorted : D → List ℕ → List ℕ
  delete_sorted sought [] = []
  delete_sorted sought (x ∷ nodes) =
      let rest = delete_sorted sought nodes in
      if is_zero (against compare payload sought x) then nodes else x ∷ rest

  pub find_here :
      (sought : D) (x : ℕ) (nodes : List ℕ)
      → is_zero (against compare payload sought x) ≡ true
      → find compare payload sought (x ∷ nodes) ≡ some x
  unfolding find
  find_here sought x nodes e = rw (e, find) refl

  pub find_past :
      (sought : D) (x : ℕ) (nodes : List ℕ)
      → is_zero (against compare payload sought x) ≡ false
      → find compare payload sought (x ∷ nodes) ≡ find compare payload sought nodes
  unfolding find
  find_past sought x nodes e = rw (e, find) refl

  pub found_Among :
      (sought : D) (nodes : List ℕ) (n : ℕ)
      → find compare payload sought nodes ≡ some n
      → Among n nodes × (is_zero (against compare payload sought n) ≡ true)
  unfolding find
  found_Among sought [] n h = absurd cc
  found_Among sought (x ∷ nodes) n h =
      elim (Bool-cases (is_zero (against compare payload sought x))) [
        | inl e ↦
            let here : n ≡ x = cc (sym h, find_here sought x nodes e) in
            (inl here, subst (λ k. is_zero (against compare payload sought k) ≡ true) (sym here) e)
        | inr e ↦
            let (among, zero_there) =
              found_Among sought nodes n (sym (find_past sought x nodes e) ∙ h) in
            (inr among, zero_there)
      ]

  pub deleted_found :
      (sought : D) (nodes : List ℕ) (n : ℕ)
      → find compare payload sought nodes ≡ some n
      → thread_without n nodes ≡ delete_sorted sought nodes
  unfolding find delete_sorted thread_without
  deleted_found sought [] n h = absurd cc
  deleted_found sought (x ∷ nodes) n h =
      elim (Bool-cases (is_zero (against compare payload sought x))) [
        | inl e ↦
            let here : n ≡ x = cc (sym h, find_here sought x nodes e) in
            rw (e, (==_iff x n).1 (sym here)) refl
        | inr e ↦
            let there : find compare payload sought nodes ≡ some n =
              sym (find_past sought x nodes e) ∙ h in
            let equal = (found_Among sought nodes n there).1 in
            elim (Bool-cases (x == n)) [
              | inl same ↦ absurd (
                  cc (
                    e,
                    equal,
                    ap (λ k. is_zero (against compare payload sought k)) ((==_iff x n).0 same),
                  ))
              | inr differ ↦ rw (e, differ) (ap (λ r. x ∷ r) (deleted_found sought nodes n there))
            ]
      ]

  deleted_none :
      (sought : D) (nodes : List ℕ)
      → find compare payload sought nodes ≡ none
      → nodes ≡ delete_sorted sought nodes
  unfolding find delete_sorted
  deleted_none sought [] h = refl
  deleted_none sought (x ∷ nodes) h =
      elim (Bool-cases (is_zero (against compare payload sought x))) [
        | inl e ↦ absurd (cc (h, find_here sought x nodes e))
        | inr e ↦
            rw (e)
              (ap (λ r. x ∷ r) (deleted_none sought nodes (sym (find_past sought x nodes e) ∙ h)))
      ]

  module _ (order : IsOrder compare) where
    -- For a comparison that orders, and a tree whose nodes are in order, splay_delete takes the first
    -- node that is equal to `sought` out of the list, if there is one, and leaves a tree whose nodes
    -- are in order.
    pub splay_delete-sorted :
        (sought : D) (tree : SplayTree)
        → IsTree compare payload tree
        → ((splay_delete compare payload sought tree).thread ≡ delete_sorted sought tree.thread)
          × IsTree compare payload (splay_delete compare payload sought tree)
    unfolding splay_delete
    splay_delete-sorted sought tree ok =
        let (found, ok', same) = search_node-find compare payload order sought tree ok in
        let splayed = (splay_search_node compare payload sought tree).1 in
        elim (Option-cases (find compare payload sought tree.thread)) [
          | inl missing ↦
              rw (found ∙ missing, splay_delete)
                (same ∙ deleted_none sought tree.thread missing, ok')
          | inr (n, e) ↦
              let (among, _) = found_Among sought tree.thread n e in
              let (removed, ok'') =
                unlink_node-without compare payload order n splayed ok'
                  (subst (Among n) (sym same) among) in
              rw (found ∙ e, splay_delete)
                (removed ∙ ap (thread_without n) same ∙ deleted_found sought tree.thread n e, ok'')
        ]
