-- ===== src/Graph/Bfs/Extend.antt =====
-- What examining the edges of a node does to the search.
use tinc_quic.Common.{ℕ, ◌+◌, ◌%◌, ◌≤◌, ◌≡◌, refl, sym, ap, ◌∙◌, ◌⊎◌, inl, inr, arith, true}
use tinc_quic.Common.{false, ◌&&◌, not, some, List, [], ◌∷◌, ◌++◌, ◌==◌, Among, Among-append}
use mathlib.Core.List.{append-nil, append_assoc}
use mathlib.Core.Path.{subst}
use tinc_quic.Graph.{Edge, Node, has_reverse}
use tinc_quic.Graph.Bfs.{Search, goes_indirect, improve, examine}
use tinc_quic.Graph.Bfs.Step.{IsDirect, Followed, Seen, hops, taken, hops_of, improve-distance}
use tinc_quic.Graph.Bfs.Step.{improve-indirect, improve-visited, taken-todo, examine_cases}
use tinc_quic.Graph.Bfs.Step.{examine_nothing}

module _ (myself n : ℕ) where
  -- `v` is reached by a followed edge of the list.
  abbrev pub LinkedBy : List Edge → ℕ → Type 0
  LinkedBy es v = (e : Edge) × Among e es × Followed myself e × (e.to ≡ v)

  -- The search has gone on: what was seen stays, and what is new is one hop behind `n` and waits.
  pub record Extends (es : List Edge) (s s' : Search) : Type 0 where
    pub sound : IsDirect s'
    pub kept : (v : ℕ) → Seen s v → Seen s' v × (hops s' v ≡ hops s v)
    pub fresh : (v : ℕ) → Seen s' v → Seen s v ⊎ ((hops s' v ≡ hops s n + 1) × LinkedBy es v)
    pub added : List ℕ
    pub queue : s'.todo ≡ s.todo ++ added
    pub waiting : (v : ℕ) → Among v added → Seen s' v × (hops s' v ≡ hops s n + 1)
    pub queued : (v : ℕ) → Seen s' v → Seen s v ⊎ Among v added

  pub Extends-refl : (es : List Edge) (s : Search) → IsDirect s → Extends es s s
  Extends-refl es s ok = record {
    sound = ok;
    kept = λ v h. (h, refl);
    fresh = λ v h. inl h;
    added = [];
    queue = sym (append-nil s.todo);
    waiting = λ v h. absurd h;
    queued = λ v h. inl h;
  }

  module _ (s : Search) (e : Edge) (ok : IsDirect s) (at : Seen s n)
      (plain : e.options % 2 ≡ 0) where
    better : Node
    better = improve myself (s.nodes n) (s.nodes e.to) e

    better-visited : better.status.visited ≡ true
    unfolding better
    better-visited = improve-visited myself (s.nodes n) (s.nodes e.to) e

    better-direct : better.status.indirect ≡ false
    unfolding better goes_indirect
    better-direct =
        improve-indirect myself (s.nodes n) (s.nodes e.to) e ∙ ground (arith, ok.direct n at, plain)

    better-distance : better.distance ≡ some (hops s n + 1)
    unfolding better
    better-distance =
        improve-distance myself (s.nodes n) (s.nodes e.to) e (hops s n) (ok.measured n at)

    taken_sound : IsDirect (taken myself n s e)
    unfolding taken better hops_of
    taken_sound = record {
      direct = λ v h. ground (arith, h, better-direct, ok.direct v);
      measured = λ v h. ground (arith, h, better-distance, ok.measured v);
    }

    taken-kept :
        ((s.nodes e.to).status.visited ≡ false) ⊎ (Seen s e.to × (hops s e.to ≡ hops s n + 1))
        → (v : ℕ) → Seen s v
        → Seen (taken myself n s e) v × (hops (taken myself n s e) v ≡ hops s v)
    unfolding taken better hops_of
    taken-kept why v h = ground (arith, h, better-visited, better-distance, ok.measured v, why)

    taken-seen :
        (v : ℕ)
        → Seen (taken myself n s e) v
        → Seen s v ⊎ ((v ≡ e.to) × (hops (taken myself n s e) v ≡ hops s n + 1))
    unfolding taken better hops_of
    taken-seen v h = ground (arith, h, better-distance)

    taken-end : Seen (taken myself n s e) e.to × (hops (taken myself n s e) e.to ≡ hops s n + 1)
    unfolding taken better hops_of
    taken-end = ground (arith, better-visited, better-distance)

    taken-Extends :
        (es : List Edge)
        → Among e es
        → Followed myself e
        → ((s.nodes e.to).status.visited ≡ false) ⊎ (Seen s e.to × (hops s e.to ≡ hops s n + 1))
        → Extends es s (taken myself n s e)
    taken-Extends es among follow why = record {
      sound = taken_sound;
      kept = taken-kept why;
      fresh = λ v h. elim (taken-seen v h) [
        | inl old ↦ inl old
        | inr (same, d) ↦ inr (d, (e, among, follow, sym same))
      ];
      added = e.to ∷ [];
      queue = taken-todo myself n s e;
      waiting = λ v h. elim h [
        | inl same ↦
            subst (λ w. Seen (taken myself n s e) w × (hops (taken myself n s e) w ≡ hops s n + 1))
              (sym same) taken-end
        | inr none_left ↦ absurd none_left
      ];
      queued = λ v h. elim (taken-seen v h) [ inl old ↦ inl old | inr (same, d) ↦ inr (inl same) ];
    }

  -- Nothing seen is more than one hop behind `n`.
  abbrev pub Bounded : Search → Type 0
  Bounded s = (v : ℕ) → Seen s v → hops s v ≤ hops s n + 1

  pub Followed-or_not :
      (e : Edge) → Followed myself e ⊎ ((has_reverse e && not (e.to == myself)) ≡ false)
  Followed-or_not e = ground arith

  pub examine-Extends :
      (es : List Edge) (s : Search) (e : Edge)
      → IsDirect s
      → Seen s n
      → e.options % 2 ≡ 0
      → Among e es
      → Extends es s (examine myself n s e)
  examine-Extends es s e ok at plain among = elim (Followed-or_not e) [
    | inr ignored ↦
        subst (λ t. Extends es s t) (sym (examine_nothing myself n s e ok at ignored))
          (Extends-refl es s ok)
    | inl follow ↦ elim (examine_cases myself n s e ok at follow plain) [
      | inl (same, end) ↦ subst (λ t. Extends es s t) (sym same) (Extends-refl es s ok)
      | inr (takes, inl unseen) ↦
          subst (λ t. Extends es s t) (sym takes)
            (taken-Extends s e ok at plain es among follow (inl unseen))
      | inr (takes, inr (old, d, lighter)) ↦
          subst (λ t. Extends es s t) (sym takes)
            (taken-Extends s e ok at plain es among follow (inr (old, d)))
    ]
  ]

  -- The end of an edge that is followed has been seen afterwards.
  pub examine-end :
      (s : Search) (e : Edge)
      → IsDirect s
      → Seen s n
      → e.options % 2 ≡ 0
      → Followed myself e
      → Seen (examine myself n s e) e.to
  examine-end s e ok at plain follow = elim (examine_cases myself n s e ok at follow plain) [
    | inl (same, end) ↦ subst (λ t. Seen t e.to) (sym same) end
    | inr (takes, why) ↦ subst (λ t. Seen t e.to) (sym takes) ((taken-end s e ok at plain).0)
  ]

  pub Extends-Bounded :
      (es : List Edge) (s s' : Search) → Seen s n → Extends es s s' → Bounded s → Bounded s'
  Extends-Bounded es s s' at more bounded v h = elim (more.fresh v h) [
    | inl old ↦ omega (arith, bounded v old, (more.kept v old).1, (more.kept n at).1)
    | inr (d, link) ↦ omega (arith, d, (more.kept n at).1)
  ]

  pub Extends-trans :
      (es : List Edge) (s t u : Search)
      → Seen s n
      → Extends es s t
      → Extends es t u
      → Extends es s u
  Extends-trans es s t u at a b = record {
    sound = b.sound;
    kept =
        λ v h. let (h', same) = a.kept v h in let (h'', same') = b.kept v h' in (h'', same' ∙ same);
    fresh = λ v h. elim (b.fresh v h) [
      | inr (d, link) ↦ inr (d ∙ ap (λ k. k + 1) ((a.kept n at).1), link)
      | inl h' ↦ elim (a.fresh v h') [
        | inl h'' ↦ inl h''
        | inr (d, link) ↦ inr ((b.kept v h').1 ∙ d, link)
      ]
    ];
    added = a.added ++ b.added;
    queue = b.queue ∙ ap (λ q. q ++ b.added) a.queue ∙ append_assoc s.todo a.added b.added;
    waiting = λ v h. elim ((Among-append v a.added b.added).0 h) [
      | inl early ↦
          let (h', d) = a.waiting v early in let (h'', same) = b.kept v h' in (h'', same ∙ d)
      | inr late ↦ let (h', d) = b.waiting v late in (h', d ∙ ap (λ k. k + 1) ((a.kept n at).1))
    ];
    queued = λ v h. elim (b.queued v h) [
      | inr late ↦ inr ((Among-append v a.added b.added).1 (inr late))
      | inl h' ↦ elim (a.queued v h') [
        | inl old ↦ inl old
        | inr early ↦ inr ((Among-append v a.added b.added).1 (inl early))
      ]
    ];
  }
