-- ===== src/Graph/Bfs/Ends.antt =====
-- The search ends: every node that is queued again has a lighter edge before it than last time.
use tinc_quic.Common.{ℕ, zero, suc, ◌+◌, ◌*◌, ◌≤◌, ◌<◌, ◌≡◌, refl, sym, ap, ◌∙◌, ◌≢◌, ◌⊎◌, inl}
use tinc_quic.Common.{inr, arith, true, false, none, some, List, [], ◌∷◌, if◌then◌else◌, length}
use tinc_quic.Common.{Among, Option-cases, length-append}
use mathlib.Core.Path.{subst}
use tinc_quic.Common.Int.{ℤ, ◌-ℤ◌, is_negative}
use tinc_quic.Graph.{Edge, Node, Graph, update}
use tinc_quic.Graph.Bfs.{Search, not_lighter, improve}
use tinc_quic.Graph.Bfs.Step.{improve-visited, improve-prevedge, taken, Seen}

-- How many edges are lighter than a weight.
lighter : ℤ → List Edge → ℕ
lighter w [] = 0
lighter w (e ∷ es) = (if is_negative (e.weight -ℤ w) then 1 else 0) + lighter w es

lighter-length : (w : ℤ) (es : List Edge) → lighter w es ≤ length es
unfolding lighter
lighter-length w [] = omega arith
lighter-length w (e ∷ es) = ground (arith, lighter-length w es)

less_trans :
    (a b c : ℤ)
    → is_negative (a -ℤ b) ≡ true
    → is_negative (b -ℤ c) ≡ true
    → is_negative (a -ℤ c) ≡ true
unfolding ◌-ℤ◌
less_trans a b c h k = ground (arith, h, k)

less_irrefl : (a : ℤ) → is_negative (a -ℤ a) ≡ false
unfolding ◌-ℤ◌
less_irrefl a = ground arith

lighter_mono :
    (v w : ℤ) (es : List Edge) → is_negative (v -ℤ w) ≡ true → lighter v es ≤ lighter w es
unfolding lighter
lighter_mono v w [] h = omega arith
lighter_mono v w (e ∷ es) h = ground (arith, lighter_mono v w es h, less_trans e.weight v w, h)

lighter-lt :
    (w : ℤ) (e : Edge) (es : List Edge)
    → is_negative (e.weight -ℤ w) ≡ true
    → Among e es
    → lighter e.weight es < lighter w es
unfolding lighter
lighter-lt w e [] h among = absurd among
lighter-lt w e (x ∷ es) h (inl same) =
    let self =
      ap (λ (y : Edge). is_negative (y.weight -ℤ e.weight)) (sym same) ∙ less_irrefl e.weight in
    let counted = ap (λ (y : Edge). is_negative (y.weight -ℤ w)) (sym same) ∙ h in
    ground (arith, self, counted, lighter_mono e.weight w es h)
lighter-lt w e (x ∷ es) h (inr among) =
    ground (arith, lighter-lt w e es h among, less_trans x.weight e.weight w, h)

-- How often a node may still be queued.
pub chances : List Edge → Node → ℕ
chances es n =
    if n.status.visited
    then elim n.prevedge [ none ↦ 0 | some p ↦ lighter p.weight es ]
    else suc (length es)

pub sum : ℕ → (ℕ → ℕ) → ℕ
sum zero f = 0
sum (suc n) f = sum n f + f n

sum-same : (n i : ℕ) (f h : ℕ → ℕ) → ((k : ℕ) → k ≢ i → h k ≡ f k) → n ≤ i → sum n h ≡ sum n f
unfolding sum
sum-same zero i f h same below = refl
sum-same (suc n) i f h same below =
    omega (arith, sum-same n i f h same (omega arith), same n (λ e. omega (arith, e)))

<-or-≡ : (i n : ℕ) → i < suc n → (i < n) ⊎ (i ≡ n)
<-or-≡ i n h = ground (arith, h)

sum-lt :
    (n i : ℕ) (f h : ℕ → ℕ) → ((k : ℕ) → k ≢ i → h k ≡ f k) → i < n → h i < f i → sum n h < sum n f
unfolding sum
sum-lt zero i f h same below less = absurd (omega arith)
sum-lt (suc n) i f h same below less = elim (<-or-≡ i n below) [
  | inl earlier ↦
      omega (arith, sum-lt n i f h same earlier less, same n (λ e. omega (arith, e, earlier)))
  | inr last ↦
      let smaller = subst (λ k. h k < f k) last less in
      omega (arith, sum-same n i f h same (omega (arith, last)), smaller)
]

pub chances-bound : (es : List Edge) (n : Node) → chances es n ≤ suc (length es)
unfolding chances
chances-bound es n = elim (Option-cases n.prevedge) [
  | inl nothing ↦ ground (arith, nothing)
  | inr (p, at) ↦ ground (arith, at, lighter-length p.weight es)
]

pub sum-bound : (n b : ℕ) (f : ℕ → ℕ) → ((k : ℕ) → f k ≤ b) → sum n f ≤ n * b
unfolding sum
sum-bound zero b f small = omega arith
sum-bound (suc n) b f small = omega (arith, sum-bound n b f small, small n)

-- The edges from a node are edges of the graph, and lead to nodes of the graph.
pub record IsGraph (g : Graph) : Type 0 where
  pub known_edges : (u : ℕ) (e : Edge) → Among e (g.edge_tree u) → Among e g.edges
  pub known_ends : (u : ℕ) (e : Edge) → Among e (g.edge_tree u) → e.to < g.count
  pub known_self : g.myself < g.count

-- What the loop has still to do.
unfoldable pub work : Graph → Search → ℕ
work g s = sum g.count (λ v. chances g.edges (s.nodes v)) + length s.todo

chances-seen :
    (es : List Edge) (n : Node) (p : Edge)
    → n.status.visited ≡ true
    → n.prevedge ≡ some p
    → chances es n ≡ lighter p.weight es
unfolding chances
chances-seen es n p old at = rw (chances, old, at)

chances-unseen :
    (es : List Edge) (n : Node) → n.status.visited ≡ false → chances es n ≡ suc (length es)
unfolding chances
chances-unseen es n new = rw (chances, new)

light_prevedge :
    (e : Edge) (to : Node)
    → not_lighter e to ≡ false
    → (p : Edge) × (to.prevedge ≡ some p) × (is_negative (e.weight -ℤ p.weight) ≡ true)
unfolding not_lighter
light_prevedge e to light = elim (Option-cases to.prevedge) [
  | inl nothing ↦ ground (arith, light, nothing)
  | inr (p, at) ↦ (p, at, ground (arith, light, at))
]

update-same : (f : ℕ → Node) (i : ℕ) (a : Node) → update f i a i ≡ a
update-same f i a = ground arith

update-other : (f : ℕ → Node) (i k : ℕ) (a : Node) → k ≢ i → update f i a k ≡ f k
update-other f i k a ne = ground (arith, ne)

module _ (g : Graph) where
  better-chances :
      (m to : Node) (e : Edge)
      → Among e g.edges
      → (to.status.visited ≡ false) ⊎ ((to.status.visited ≡ true) × (not_lighter e to ≡ false))
      → chances g.edges (improve g.myself m to e) < chances g.edges to
  unfolding chances
  better-chances m to e among why =
      let now =
        chances-seen g.edges (improve g.myself m to e) e (improve-visited g.myself m to e)
          (improve-prevedge g.myself m to e) in
      elim why [
        | inl unseen ↦
            omega (arith, now, chances-unseen g.edges to unseen, lighter-length e.weight g.edges)
        | inr (old, light) ↦
            let (p, at, less) = light_prevedge e to light in
            omega (
              arith,
              now,
              chances-seen g.edges to p old at,
              lighter-lt p.weight e g.edges less among,
            )
      ]

  pub taken-work :
      (n : ℕ) (s : Search) (e : Edge)
      → Among e g.edges
      → e.to < g.count
      → ((s.nodes e.to).status.visited ≡ false)
        ⊎ (Seen s e.to × (not_lighter e (s.nodes e.to) ≡ false))
      → work g (taken g.myself n s e) ≤ work g s
  unfolding work taken
  taken-work n s e among inside why =
      let m = s.nodes n in
      let to = s.nodes e.to in
      let less = better-chances m to e among why in
      let others : (k : ℕ)
          → k ≢ e.to
          → chances g.edges (update s.nodes e.to (improve g.myself m to e) k)
            ≡ chances g.edges (s.nodes k) =
        λ k ne.
          ap (λ x. chances g.edges x) (update-other s.nodes e.to k (improve g.myself m to e) ne) in
      let smaller =
        sum-lt g.count e.to (λ v. chances g.edges (s.nodes v))
          (λ v. chances g.edges (update s.nodes e.to (improve g.myself m to e) v)) others inside
          (omega (
            arith,
            less,
            ap (λ x. chances g.edges x) (update-same s.nodes e.to (improve g.myself m to e)),
          )) in
      omega (arith, smaller, length-append s.todo (e.to ∷ []))
