-- ===== src/Graph/Bfs/Correct.antt =====
-- In a graph without OPTION_INDIRECT the search visits the nodes that can be reached, at the length
-- of a shortest walk.
use tinc_quic.Common.{ℕ, ◌+◌, ◌≤◌, ◌≡◌, refl, sym, ap, ◌∙◌, ◌⊎◌, inl, inr, arith, List, [], ◌∷◌}
use tinc_quic.Common.{◌++◌, Among, Among-append}
use mathlib.Core.Path.{subst}
use tinc_quic.Graph.{Graph, Node}
use tinc_quic.Graph.Bfs.{Search, bfs_start, clear_node, start_node, scan_edges}
use tinc_quic.Graph.Bfs.Extend.{LinkedBy, Bounded, Extends, Extends-Bounded}
use tinc_quic.Graph.Bfs.Scan.{Plain, scan-Extends, scan-closed}
use tinc_quic.Graph.Bfs.Step.{IsDirect, hops, Seen, hops_of}

-- A walk of `k` followed edges from the node itself.
pub data Walk (g : Graph) : ℕ → ℕ → Type 0 where
  start : {k v : ℕ} → k ≡ 0 → v ≡ g.myself → Walk g k v
  step : {k l u v : ℕ} → Walk g k u → LinkedBy g.myself u (g.edge_tree u) v → l ≡ k + 1 → Walk g l v

unfoldable pub PlainGraph : Graph → Type 0
PlainGraph g = (u : ℕ) → Plain (g.edge_tree u)

-- The list is in the order of the distances.
abbrev pub InOrder : Search → List ℕ → Type 0
InOrder s [] = Unit
InOrder s (v ∷ todo) = ((w : ℕ) → Among w todo → hops s v ≤ hops s w) × InOrder s todo

module _ (g : Graph) where
  pub record Inv (s : Search) : Type 0 where
    pub direct : IsDirect s
    pub mine : Seen s g.myself × (hops s g.myself ≡ 0)
    pub sound : (v : ℕ) → Seen s v → Walk g (hops s v) v
    pub queued : (v : ℕ) → Among v s.todo → Seen s v
    pub closed :
        (u v : ℕ)
        → Seen s u
        → LinkedBy g.myself u (g.edge_tree u) v
        → Among u s.todo ⊎ (Seen s v × (hops s v ≤ hops s u + 1))
    pub order : InOrder s s.todo
    pub near :
        (v : ℕ) (todo : List ℕ) → s.todo ≡ v ∷ todo → (w : ℕ) → Seen s w → hops s w ≤ hops s v + 1

  pub Inv-bfs_start : (nodes : ℕ → Node) → Inv (bfs_start g nodes)
  unfolding bfs_start clear_node start_node hops_of
  Inv-bfs_start nodes = record {
    direct = record { direct = λ v h. ground (arith, h); measured = λ v h. ground (arith, h) };
    mine = ground arith;
    sound = λ v h. start (ground (arith, h)) (ground (arith, h));
    queued = λ v h. ground (arith, h);
    closed = λ u v h link. inl (inl (ground (arith, h)));
    order = (λ w h. absurd h, tt);
    near = λ v todo e w h. ground (arith, h);
  }

  -- A list in order, with nodes behind it that are as far as any of it.
  InOrder-append :
      (s s' : Search) (d : ℕ) (todo added : List ℕ)
      → ((v : ℕ) → Among v todo → (hops s' v ≡ hops s v) × (hops s v ≤ d))
      → ((v : ℕ) → Among v added → hops s' v ≡ d)
      → InOrder s todo
      → InOrder s' (todo ++ added)
  InOrder-append s s' d [] [] same far order = tt
  InOrder-append s s' d [] (v ∷ added) same far order = (
    λ w h. omega (arith, far v (inl refl), far w (inr h)),
    InOrder-append s s' d [] added (λ w h. absurd h) (λ w h. far w (inr h)) tt,
  )
  InOrder-append s s' d (v ∷ todo) added same far order = (
    λ w h. elim ((Among-append w todo added).0 h) [
      | inl early ↦
          let (here, near) = same v (inl refl) in
          let (there, _) = same w (inr early) in omega (arith, order.0 w early, here, there)
      | inr late ↦ let (here, near) = same v (inl refl) in omega (arith, far w late, here, near)
    ],
    InOrder-append s s' d todo added (λ w h. same w (inr h)) far (order.1),
  )

  -- A round of the loop, at node `n`.
  module _ (plain : PlainGraph g) (s : Search) (n : ℕ) (rest : List ℕ) (e : s.todo ≡ n ∷ rest)
      (inv : Inv s) where
    unfoldable pub popped : Search
    popped = record { nodes = s.nodes; todo = rest }

    unfoldable pub next : Search
    next = scan_edges g.myself n (g.edge_tree n) popped

    at : Seen s n
    at = inv.queued n (subst (Among n) (sym e) (inl refl))

    more : Extends g.myself n (g.edge_tree n) popped next
    unfolding next popped PlainGraph
    more =
        scan-Extends g.myself n (g.edge_tree n) (plain n) popped
          (record { direct = inv.direct.direct; measured = inv.direct.measured }) at

    bounded : Bounded g.myself n popped
    unfolding popped
    bounded v h = inv.near n rest e v h

    rest_seen : (v : ℕ) → Among v rest → Seen s v
    rest_seen v h = inv.queued v (subst (Among v) (sym e) (inr h))

    in_order : InOrder s (n ∷ rest)
    in_order = subst (InOrder s) e inv.order

    todo_next : next.todo ≡ rest ++ more.added
    unfolding next popped
    todo_next = more.queue

    -- What waits next is as far as `n` at least.
    ahead : (v : ℕ) → Among v next.todo → hops s n ≤ hops next v
    unfolding popped
    ahead v h = elim ((Among-append v rest more.added).0 (subst (Among v) todo_next h)) [
      | inl early ↦ omega (arith, in_order.0 v early, (more.kept v (rest_seen v early)).1)
      | inr late ↦ omega (arith, (more.waiting v late).1)
    ]

    near_next :
        (v : ℕ) (todo : List ℕ)
        → next.todo ≡ v ∷ todo
        → (w : ℕ) → Seen next w
        → hops next w ≤ hops next v + 1
    unfolding popped
    near_next v todo e' w h =
        let head : Among v next.todo = subst (Among v) (sym e') (inl refl) in
        let all = Extends-Bounded g.myself n (g.edge_tree n) popped next at more bounded w h in
        omega (arith, all, ahead v head, (more.kept n at).1)

    closed_next :
        (u v : ℕ)
        → Seen next u
        → LinkedBy g.myself u (g.edge_tree u) v
        → Among u next.todo ⊎ (Seen next v × (hops next v ≤ hops next u + 1))
    unfolding next popped PlainGraph
    closed_next u v h link = elim (more.queued u h) [
      | inr late ↦
          inl (subst (Among u) (sym todo_next) ((Among-append u rest more.added).1 (inr late)))
      | inl old ↦ elim (inv.closed u v old link) [
        | inr (seen_v, near) ↦
            let (seen_v', same) = more.kept v seen_v in
            inr (seen_v', omega (arith, near, same, (more.kept u old).1))
        | inl waits ↦ elim (subst (Among u) e waits) [
          | inr early ↦
              inl (subst (Among u) (sym todo_next) ((Among-append u rest more.added).1 (inl early)))
          | inl same ↦
              let link_n = subst (λ x. LinkedBy g.myself x (g.edge_tree x) v) same link in
              let direct_s : IsDirect popped = record {
                direct = inv.direct.direct;
                measured = inv.direct.measured;
              } in
              let (seen_v, near) =
                scan-closed g.myself n (g.edge_tree n) (plain n) popped direct_s at bounded v
                  link_n in
              inr (seen_v, omega (arith, near, ap (λ x. hops next x) same, (more.kept n at).1))
        ]
      ]
    ]

    pub Inv-next : Inv next
    unfolding next popped PlainGraph
    Inv-next = record {
      direct = more.sound;
      mine = let (h, same) = more.kept g.myself (inv.mine.0) in (h, same ∙ inv.mine.1);
      sound = λ v h. elim (more.fresh v h) [
        | inl old ↦ subst (λ k. Walk g k v) (sym ((more.kept v old).1)) (inv.sound v old)
        | inr (d, link) ↦ step (inv.sound n at) link d
      ];
      queued = λ v h. elim ((Among-append v rest more.added).0 (subst (Among v) todo_next h)) [
        | inl early ↦ (more.kept v (rest_seen v early)).0
        | inr late ↦ (more.waiting v late).0
      ];
      closed = closed_next;
      order = subst (InOrder next) (sym todo_next) (
          InOrder-append s next (hops s n + 1) rest more.added
            (λ v h. ((more.kept v (rest_seen v h)).1, inv.near n rest e v (rest_seen v h)))
            (λ v h. (more.waiting v h).1) (in_order.1));
      near = near_next;
    }
