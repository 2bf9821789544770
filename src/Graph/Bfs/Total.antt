-- ===== src/Graph/Bfs/Total.antt =====
-- The whole search: it returns, and what it returns.
use tinc_quic.Common.{ℕ, zero, suc, ◌≤◌, ◌<◌, ◌≡◌, refl, sym, ap, ◌∙◌, ◌⊎◌, inl, inr, arith}
use tinc_quic.Common.{false, List, [], ◌∷◌, List-cases, Among, length}
use mathlib.Core.Path.{subst}
use tinc_quic.Graph.{Graph, Node, Edge}
use tinc_quic.Graph.Bfs.{bfs_loop, scan_edges, Search, finished, examine, not_lighter}
use tinc_quic.Graph.Bfs.Correct.{PlainGraph, Inv, Inv-next, next, popped}
use tinc_quic.Graph.Bfs.Ends.{IsGraph, work, taken-work}
use tinc_quic.Graph.Bfs.Extend.{examine-Extends, Followed-or_not}
use tinc_quic.Graph.Bfs.Scan.{Plain}
use tinc_quic.Graph.Bfs.Step.{IsDirect, Seen, examine_nothing, examine_cases}

module _ (g : Graph) (known : IsGraph g) (plain : PlainGraph g) where
  examine-work :
      (n : ℕ) (s : Search) (e : Edge)
      → IsDirect s
      → Seen s n
      → Among e (g.edge_tree n)
      → work g (examine g.myself n s e) ≤ work g s
  unfolding PlainGraph Plain
  examine-work n s e ok at among = elim (Followed-or_not g.myself n e) [
    | inr ignored ↦ omega (arith, ap (λ t. work g t) (examine_nothing g.myself n s e ok at ignored))
    | inl follow ↦ elim (examine_cases g.myself n s e ok at follow (plain n e among)) [
      | inl (same, end) ↦ omega (arith, ap (λ t. work g t) same)
      | inr (takes, why) ↦
          let taken_why : ((s.nodes e.to).status.visited ≡ false)
              ⊎ (Seen s e.to × (not_lighter e (s.nodes e.to) ≡ false)) =
            elim why [ inl unseen ↦ inl unseen | inr (old, d, light) ↦ inr (old, light) ] in
          omega (
            arith,
            ap (λ t. work g t) takes,
            taken-work g n s e (known.known_edges n e among) (known.known_ends n e among) taken_why,
          )
    ]
  ]

  scan_edges-work :
      (n : ℕ) (rest : List Edge) (s : Search)
      → ((e : Edge) → Among e rest → Among e (g.edge_tree n))
      → IsDirect s
      → Seen s n
      → work g (scan_edges g.myself n rest s) ≤ work g s
  unfolding scan_edges PlainGraph Plain
  scan_edges-work n [] s part ok at = omega arith
  scan_edges-work n (e ∷ rest) s part ok at =
      let among = part e (inl refl) in
      let s' = examine g.myself n s e in
      let first = examine-Extends g.myself n (g.edge_tree n) s e ok at (plain n e among) among in
      omega (
        arith,
        examine-work n s e ok at among,
        scan_edges-work n rest s' (λ x h. part x (inr h)) first.sound ((first.kept n at).0),
      )

  -- A round of the loop leaves less to do.
  module _ (s : Search) (n : ℕ) (rest : List ℕ) (e : s.todo ≡ n ∷ rest) (inv : Inv g s) where
    round : Search
    round = next g plain s n rest e inv

    round-Inv : Inv g round
    unfolding round
    round-Inv = Inv-next g plain s n rest e inv

    round-work : work g round < work g s
    unfolding round next popped work
    round-work =
        let at = inv.queued n (subst (Among n) (sym e) (inl refl)) in
        let direct_s : IsDirect (record { nodes = s.nodes; todo = rest }) = record {
          direct = inv.direct.direct;
          measured = inv.direct.measured;
        } in
        omega (
          arith,
          scan_edges-work n (g.edge_tree n) (record { nodes = s.nodes; todo = rest }) (λ x h. h)
              direct_s at,
          ap (λ q. length q) e,
        )

    bfs_loop-round : (fuel : ℕ) → bfs_loop g (suc fuel) s ≡ bfs_loop g fuel round
    unfolding bfs_loop round next popped
    bfs_loop-round fuel =
        let at = inv.queued n (subst (Among n) (sym e) (inl refl)) in
        rw (e, bfs_loop, inv.direct.measured n at)

  bfs_loop_empty : (fuel : ℕ) (s : Search) → s.todo ≡ [] → bfs_loop g fuel s ≡ finished s.nodes
  unfolding bfs_loop
  bfs_loop_empty zero s e = rw (e, bfs_loop)
  bfs_loop_empty (suc fuel) s e = rw (e, bfs_loop)

  pub bfs_loop-Inv :
      (fuel : ℕ) (s : Search)
      → Inv g s
      → work g s ≤ fuel
      → (nodes : ℕ → Node) × (bfs_loop g fuel s ≡ finished nodes)
        × Inv g (record { nodes = nodes; todo = [] })
  bfs_loop-Inv zero s inv enough = elim (List-cases s.todo) [
    | inl e ↦ (
      s.nodes,
      bfs_loop_empty zero s e,
      subst (λ q. Inv g (record { nodes = s.nodes; todo = q })) e inv,
    )
    | inr (n, rest, e) ↦ absurd (omega (arith, round-work s n rest e inv, enough))
  ]
  bfs_loop-Inv (suc fuel) s inv enough = elim (List-cases s.todo) [
    | inl e ↦ (
      s.nodes,
      bfs_loop_empty (suc fuel) s e,
      subst (λ q. Inv g (record { nodes = s.nodes; todo = q })) e inv,
    )
    | inr (n, rest, e) ↦
        let (nodes, ends, inv') =
          bfs_loop-Inv fuel (round s n rest e inv) (round-Inv s n rest e inv)
            (omega (arith, round-work s n rest e inv, enough)) in
        (nodes, bfs_loop-round s n rest e inv fuel ∙ ends, inv')
  ]
