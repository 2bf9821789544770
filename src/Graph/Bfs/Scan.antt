-- ===== src/Graph/Bfs/Scan.antt =====
-- The loop over the edges of one node.
use tinc_quic.Common.{ℕ, ◌+◌, ◌%◌, ◌≤◌, ◌≡◌, refl, sym, inl, inr, arith, List, [], ◌∷◌, Among}
use mathlib.Core.Path.{subst}
use tinc_quic.Graph.{Edge}
use tinc_quic.Graph.Bfs.{Search, scan_edges, examine}
use tinc_quic.Graph.Bfs.Extend.{Bounded, Extends, Extends-refl, LinkedBy, examine-Extends}
use tinc_quic.Graph.Bfs.Extend.{Extends-Bounded, Extends-trans, examine-end}
use tinc_quic.Graph.Bfs.Step.{IsDirect, Seen, Followed, hops}

-- No edge of the list is indirect.
unfoldable pub Plain : List Edge → Type 0
Plain es = (e : Edge) → Among e es → e.options % 2 ≡ 0

module _ (myself n : ℕ) (es : List Edge) (plain : Plain es) where
  scan_edges-Extends :
      (rest : List Edge) (s : Search)
      → ((e : Edge) → Among e rest → Among e es)
      → IsDirect s
      → Seen s n
      → Extends myself n es s (scan_edges myself n rest s)
  unfolding scan_edges Plain
  scan_edges-Extends [] s part ok at = Extends-refl myself n es s ok
  scan_edges-Extends (e ∷ rest) s part ok at =
      let among = part e (inl refl) in
      let first = examine-Extends myself n es s e ok at (plain e among) among in
      let s' = examine myself n s e in
      Extends-trans myself n es s s' (scan_edges myself n rest s') at first
        (scan_edges-Extends rest s' (λ x h. part x (inr h)) first.sound ((first.kept n at).0))

  scan_edges-ends :
      (rest : List Edge) (s : Search)
      → ((e : Edge) → Among e rest → Among e es)
      → IsDirect s
      → Seen s n
      → (e : Edge) → Among e rest
      → Followed myself e
      → Seen (scan_edges myself n rest s) e.to
  unfolding scan_edges Plain
  scan_edges-ends [] s part ok at e among follow = absurd among
  scan_edges-ends (x ∷ rest) s part ok at e among follow =
      let s' = examine myself n s x in
      let here = part x (inl refl) in
      let first = examine-Extends myself n es s x ok at (plain x here) here in
      let later =
        scan_edges-Extends rest s' (λ y h. part y (inr h)) first.sound ((first.kept n at).0) in
      elim among [
        | inl same ↦
            subst (λ y. Seen (scan_edges myself n rest s') y.to) (sym same)
              ((later.kept x.to (
                examine-end myself n s x ok at (plain x here)
                  (subst (Followed myself) same follow))).0)
        | inr deep ↦
            scan_edges-ends rest s' (λ y h. part y (inr h)) first.sound ((first.kept n at).0) e deep
              follow
      ]

  -- The whole loop.
  pub scan-Extends :
      (s : Search) → IsDirect s → Seen s n → Extends myself n es s (scan_edges myself n es s)
  scan-Extends s ok at = scan_edges-Extends es s (λ e h. h) ok at

  -- Afterwards the ends of the followed edges have been seen, one hop behind the node at most.
  pub scan-closed :
      (s : Search)
      → IsDirect s
      → Seen s n
      → Bounded myself n s
      → (v : ℕ) → LinkedBy myself n es v
      → Seen (scan_edges myself n es s) v × (hops (scan_edges myself n es s) v ≤ hops s n + 1)
  scan-closed s ok at bounded v (e, among, follow, to) =
      let more = scan-Extends s ok at in
      let s' = scan_edges myself n es s in
      let end = scan_edges-ends es s (λ x h. h) ok at e among follow in
      let near = Extends-Bounded myself n es s s' at more bounded e.to end in
      let seen_v = subst (Seen s') to end in
      (seen_v, subst (λ w. hops s' w ≤ hops s n + 1) to (omega (arith, near, (more.kept n at).1)))
