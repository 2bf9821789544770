-- ===== src/Edges/Delete.antt =====
-- edge_del keeps the invariant of the trees of edges.
use tinc_quic.Common.{ℕ, ◌≡◌, refl, sym, ap, ◌∙◌, inl, inr, arith, true, false, Option, none}
use tinc_quic.Common.{some, List, ◌==◌, if◌then◌else◌, ==_iff, Bool-cases, Option-cases}
use mathlib.Core.Path.{subst}
use tinc_quic.Edges.{Edges, part_reverse, edge_del, edge_compare, edge_key, weight_order}
use tinc_quic.Edges.{itself}
use tinc_quic.Edges.Add.{replaced_thread, replaced-IsTree}
use tinc_quic.Edges.Invariant.{IsEdges, present, Back}
use tinc_quic.Edges.Order.{edge_compare-IsOrder, WeightsFit, weight_order-IsOrder}
use tinc_quic.Graph.{update}
use tinc_quic.Splay.{SplayTree}
use tinc_quic.Splay.Delete.{splay_delete-sorted}
use tinc_quic.Splay.Members.{member}
use tinc_quic.Splay.Unique.{delete_sorted-member}
use tinc_quic.Splay.Update.{splay_delete}

part_reverse-none :
    (found : Option ℕ) (reverse : ℕ → Option ℕ)
    → found ≡ none
    → part_reverse found reverse ≡ reverse
part_reverse-none none reverse h = refl
part_reverse-none (some r) reverse h = absurd cc

part_reverse-some :
    (found : Option ℕ) (reverse : ℕ → Option ℕ) (r : ℕ)
    → found ≡ some r
    → (part_reverse found reverse r ≡ none)
      × ((x : ℕ) → (x == r) ≡ false → part_reverse found reverse x ≡ reverse x)
part_reverse-some none reverse r h = absurd cc
part_reverse-some (some q) reverse r h =
    let same : q ≡ r = cc in
    (
      subst (λ k. update reverse k none r ≡ none) (sym same) (rw ((==_iff r r).1 refl) refl),
      λ x f. subst (λ k. update reverse k none x ≡ reverse x) (sym same) (rw (f) refl),
    )

module _ (name : ℕ → List ℕ) (s : Edges) (ok : IsEdges name s) (e : ℕ) (fit : WeightsFit s)
    (there : present s e ≡ true) where
  abbrev parted : ℕ → Option ℕ
  parted = part_reverse (s.reverse e) s.reverse

  Back-again : (x y : ℕ) → present s x ≡ true → Back s x y → Back s y x
  Back-again x y h (k, a, b) = (h, sym b, sym a)

  -- Only the edge that leads back loses its `reverse`.
  parted-some :
      (x y : ℕ)
      → present s x ≡ true
      → (x == e) ≡ false
      → parted x ≡ some y
      → (s.reverse x ≡ some y) × ((y == e) ≡ false)
  parted-some x y h f leads =
      let not_e : s.reverse x ≡ some y → ((s.reverse e ≡ some x) → ⊥) → (y == e) ≡ false =
        λ old lone. elim (Bool-cases (y == e)) [
          | inl g ↦
              let back = subst (λ k. Back s x k) ((==_iff y e).0 g) (ok.opposite x y h old) in
              absurd (lone (ok.paired e x there (Back-again x e h back)))
          | inr g ↦ g
        ] in
      elim (Option-cases (s.reverse e)) [
        | inl none_back ↦
            let old : s.reverse x ≡ some y =
              sym (ap (λ k. k x) (part_reverse-none (s.reverse e) s.reverse none_back)) ∙ leads in
            (old, not_e old (λ z. absurd (cc (z, none_back))))
        | inr (r, back) ↦
            let (gone, kept) = part_reverse-some (s.reverse e) s.reverse r back in
            elim (Bool-cases (x == r)) [
              | inl g ↦ absurd (cc (leads, gone, (==_iff x r).0 g))
              | inr g ↦
                  let old : s.reverse x ≡ some y = sym (kept x g) ∙ leads in
                  (
                    old,
                    not_e old (λ z.
                        let same : r ≡ x = cc (z, back) in
                        absurd (cc (g, (==_iff x r).1 (sym same)))),
                  )
            ]
      ]

  some-parted : (x y : ℕ) → (y == e) ≡ false → s.reverse x ≡ some y → parted x ≡ some y
  some-parted x y g old = elim (Option-cases (s.reverse e)) [
    | inl none_back ↦ ap (λ k. k x) (part_reverse-none (s.reverse e) s.reverse none_back) ∙ old
    | inr (r, back) ↦
        let (gone, kept) = part_reverse-some (s.reverse e) s.reverse r back in
        elim (Bool-cases (x == r)) [
          | inl f ↦
              let leads =
                ok.paired r e (ok.opposite e r there back).0
                  (Back-again e r there (ok.opposite e r there back)) in
              let same : y ≡ e = cc (old, leads, (==_iff x r).0 f) in
              absurd (cc (g, (==_iff y e).1 same))
          | inr f ↦ kept x f ∙ old
        ]
  ]

  abbrev left_tree : SplayTree
  left_tree = splay_delete (edge_compare name) (edge_key s) (edge_key s e) (s.edge_tree (s.from e))

  in_left :
      (n x : ℕ)
      → member x (update s.edge_tree (s.from e) left_tree n).thread
        ≡ (if e == x then false else member x (s.edge_tree n).thread)
  in_left n x =
      let old : SplayTree = s.edge_tree (s.from e) in
      let (threads, _) =
        splay_delete-sorted (edge_compare name) (edge_key s) (edge_compare-IsOrder name)
          (edge_key s e) old (ok.trees (s.from e)) in
      replaced_thread s.edge_tree (s.from e) left_tree n x ∙ elim (Bool-cases (n == s.from e)) [
        | inl f ↦ rw (f) (
            ap (member x) threads
            ∙ delete_sorted-member (edge_compare name) (edge_key s) (edge_compare-IsOrder name)
                old.thread e x ((ok.trees (s.from e)).ordered) there
            ∙ ap (λ k. if e == x then false else member x (s.edge_tree k).thread)
                (sym ((==_iff n (s.from e)).0 f)))
        | inr f ↦ rw (f) (elim (Bool-cases (e == x)) [
          | inl g ↦ elim (Bool-cases (member x (s.edge_tree n).thread)) [
            | inl h ↦
                let home = ap s.from ((==_iff e x).0 g) ∙ ok.own n x h in
                absurd (cc (f, (==_iff n (s.from e)).1 (sym home)))
            | inr h ↦ rw (g) h
          ]
          | inr g ↦ rw (g) refl
        ])
      ]

  still :
      (n x : ℕ)
      → member x (update s.edge_tree (s.from e) left_tree n).thread ≡ true
      → ((x == e) ≡ false) × (member x (s.edge_tree n).thread ≡ true)
  still n x h = elim (Bool-cases (e == x)) [
    | inl f ↦
        absurd
          (cc (h, in_left n x, ap (λ b. if b then false else member x (s.edge_tree n).thread) f))
    | inr f ↦ (
      ground (arith, f),
      sym (ap (λ b. if b then false else member x (s.edge_tree n).thread) f)
          ∙ sym (in_left n x)
          ∙ h,
    )
  ]

  -- For weights whose differences fit an int, and an edge in trees of edges that are sound, edge_del
  -- takes it out of both trees and from the edge that leads back, and leaves sound trees.
  pub edge_del-IsEdges :
      IsEdges name (edge_del name e s)
      × ((x : ℕ) → present (edge_del name e s) x ≡ (if e == x then false else present s x))
  unfolding edge_del
  edge_del-IsEdges =
      let (_, new) =
        splay_delete-sorted (edge_compare name) (edge_key s) (edge_compare-IsOrder name)
          (edge_key s e) (s.edge_tree (s.from e)) (ok.trees (s.from e)) in
      let (threads, heavy) =
        splay_delete-sorted (weight_order name s) itself (weight_order-IsOrder name s fit) e
          s.edge_weight_tree (ok.weights) in
      (
        record {
          trees = replaced-IsTree name s s.edge_tree (s.from e) left_tree (ok.trees) new;
          weights = heavy;
          own = λ n x h. ok.own n x (still n x h).1;
          both = λ x.
              ap (member x) threads
              ∙ delete_sorted-member (weight_order name s) itself (weight_order-IsOrder name s fit)
                  _ e x (ok.weights.ordered) (ok.both e ∙ there)
              ∙ ap (λ b. if e == x then false else b) (ok.both x)
              ∙ sym (in_left (s.from x) x);
          opposite = λ x y h leads.
              let (f, old) = still (s.from x) x h in
              let (leads_old, g) = parted-some x y old f leads in
              let (y_old, a, b) = ok.opposite x y old leads_old in
              (in_left (s.from y) y ∙ ground (arith, y_old, g), a, b);
          paired = λ x y h (k, a, b).
              let (f, old) = still (s.from x) x h in
              let (g, y_old) = still (s.from y) y k in
              some-parted x y g (ok.paired x y old (y_old, a, b));
        },
        λ x. in_left (s.from x) x,
      )
