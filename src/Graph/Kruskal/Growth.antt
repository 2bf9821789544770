-- ===== src/Graph/Kruskal/Growth.antt =====
-- The loop with its restarts adds, at each time, the lightest edge that leads out of the tree, if the
-- edges stand in the order of their weights.
use tinc_quic.Common.{◌≡◌, refl, arith, true, false, Option, none, some, List, [], ◌∷◌, ◌++◌}
use tinc_quic.Common.{if◌then◌else◌, All, Among, Bool-cases, ◌↔◌, ◌≢◌, Option-cases, inl, ap}
use tinc_quic.Common.{inr, sym, ◌∙◌}
use mathlib.Core.Path.{subst}
use tinc_quic.Common.Int.{is_negative, ◌-ℤ◌, ℤ}
use tinc_quic.Graph.{Edge}
use tinc_quic.Graph.Kruskal.{MstState, add_safe_edge, crossing}

-- The first edge of the tree of edges, which is the lightest, that crosses.
unfoldable pub first_crossing : MstState → List Edge → Option Edge
first_crossing s [] = none
first_crossing s (e ∷ edges) = if crossing s e then some e else first_crossing s edges

-- An edge with a reverse of which one end has been visited and the other has not.
abbrev pub Crosses : MstState → Edge → Type 0
Crosses s e = (e.reverse ≢ none) × (s.visited e.from ≢ s.visited e.to)

-- An edge is no heavier than another one.
abbrev pub NotHeavier : Edge → Edge → Type 0
NotHeavier e f = is_negative (f.weight -ℤ e.weight) ≡ false

-- An edge that crosses, and none that crosses is lighter.
abbrev pub Lightest : MstState → List Edge → Edge → Type 0
Lightest s edges e =
    Among e edges × Crosses s e × ((f : Edge) → Among f edges → Crosses s f → NotHeavier e f)

-- The edges stand in the order of their weights.
abbrev pub Weighed : List Edge → Type 0
Weighed [] = Unit
Weighed (e ∷ edges) = All (NotHeavier e) edges × Weighed edges

-- Prim's algorithm: while an edge crosses, the lightest one that does is added.
pub data Prim (edges : List Edge) : MstState → MstState → Type 0 where
  stop : {s t : MstState} → s ≡ t → ((e : Edge) → Among e edges → Crosses s e → ⊥) → Prim edges s t
  grow :
      {s t : MstState} (e : Edge)
      → Lightest s edges e
      → Prim edges (add_safe_edge edges e s) t
      → Prim edges s t

crossing-Crosses : (s : MstState) (e : Edge) → (crossing s e ≡ true) ↔ Crosses s e
unfolding crossing
crossing-Crosses s e = elim (Option-cases e.reverse) [
  | inl f ↦ rw (f) (λ h. absurd cc, λ (h, k). absurd (h refl))
  | inr (r, f) ↦ rw (f) (λ h. (λ z. absurd cc, ground (arith, h)), λ (h, k). ground (arith, k))
]

pub first_crossing-none :
    (s : MstState) (edges : List Edge)
    → first_crossing s edges ≡ none
    → (e : Edge) → Among e edges
    → Crosses s e
    → ⊥
unfolding first_crossing
first_crossing-none s [] h e among c = among
first_crossing-none s (x ∷ edges) h e among c = elim (Bool-cases (crossing s x)) [
  | inl k ↦ absurd (cc (h, ap (λ b. if b then some x else first_crossing s edges) k))
  | inr k ↦ elim among [
    | inl same ↦ absurd (cc (k, (crossing-Crosses s e).1 c, ap (crossing s) same))
    | inr there ↦
        first_crossing-none s edges
          (sym (ap (λ b. if b then some x else first_crossing s edges) k) ∙ h) e there c
  ]
]

difference_self : (a : ℤ) → is_negative (a -ℤ a) ≡ false
unfolding ◌-ℤ◌
difference_self a = ground arith

NotHeavier-Among :
    (e : Edge) (edges : List Edge)
    → All (NotHeavier e) edges
    → (f : Edge) → Among f edges
    → NotHeavier e f
NotHeavier-Among e [] h f among = absurd among
NotHeavier-Among e (x ∷ edges) (hx, h) f (inl same) = subst (NotHeavier e) (sym same) hx
NotHeavier-Among e (x ∷ edges) (hx, h) f (inr among) = NotHeavier-Among e edges h f among

-- In the order of the weights, the first edge that crosses is the lightest.
pub first_crossing-Lightest :
    (s : MstState) (edges : List Edge) (e : Edge)
    → Weighed edges
    → first_crossing s edges ≡ some e
    → Lightest s edges e
unfolding first_crossing
first_crossing-Lightest s [] e w h = absurd cc
first_crossing-Lightest s (x ∷ edges) e (wx, w) h = elim (Bool-cases (crossing s x)) [
  | inl k ↦
      let same : e ≡ x = cc (h, ap (λ b. if b then some x else first_crossing s edges) k) in
      (
        inl same,
        subst (Crosses s) (sym same) ((crossing-Crosses s x).0 k),
        λ f among c.
            subst (λ y. NotHeavier y f) (sym same)
              (elim among [
                | inl here ↦ subst (NotHeavier x) (sym here) (difference_self x.weight)
                | inr there ↦ NotHeavier-Among x edges wx f there
              ]),
      )
  | inr k ↦
      let (there, crosses, lightest) =
        first_crossing-Lightest s edges e w
          (sym (ap (λ b. if b then some x else first_crossing s edges) k) ∙ h) in
      (
        inr there,
        crosses,
        λ f among c. elim among [
          | inl here ↦ absurd (cc (k, (crossing-Crosses s f).1 c, ap (crossing s) here))
          | inr later ↦ lightest f later c
        ],
      )
]

abbrev pub Settled : MstState → Edge → Type 0
Settled s e = (s.visited e.from ≡ true) × (s.visited e.to ≡ true)

abbrev pub Quiet : MstState → Edge → Type 0
Quiet s e = crossing s e ≡ false

pub first_crossing-skip :
    (s : MstState) (before rest : List Edge)
    → All (Quiet s) before
    → first_crossing s (before ++ rest) ≡ first_crossing s rest
unfolding first_crossing
first_crossing-skip s [] rest quiet = refl
first_crossing-skip s (e ∷ before) rest quiet =
    rw (quiet.0) (first_crossing-skip s before rest (quiet.1))

pub first_crossing-here :
    (s : MstState) (e : Edge) (rest : List Edge)
    → crossing s e ≡ true
    → first_crossing s (e ∷ rest) ≡ some e
unfolding first_crossing
first_crossing-here s e rest h = rw (h)

Settled-add :
    (edges : List Edge) (x e : Edge) (s : MstState)
    → Settled s x
    → Settled (add_safe_edge edges e s) x
unfolding add_safe_edge
Settled-add edges x e s h = ground (arith, h)

pub Settled-added :
    (edges : List Edge) (e : Edge) (s : MstState) → Settled (add_safe_edge edges e s) e
unfolding add_safe_edge
Settled-added edges e s = ground arith

Settled-Quiet : (s : MstState) (e : Edge) → Settled s e → Quiet s e
unfolding crossing
Settled-Quiet s e h = ground (arith, h)

pub All-Settled :
    (edges : List Edge) (e : Edge) (s : MstState) (before : List Edge)
    → All (Settled s) before
    → All (Settled (add_safe_edge edges e s)) (before ++ (e ∷ []))
All-Settled edges e s [] h = (Settled-added edges e s, tt)
All-Settled edges e s (x ∷ before) h =
    (Settled-add edges x e s (h.0), All-Settled edges e s before (h.1))

pub All-Quiet : (s : MstState) (before : List Edge) → All (Settled s) before → All (Quiet s) before
All-Quiet s [] h = tt
All-Quiet s (x ∷ before) h = (Settled-Quiet s x (h.0), All-Quiet s before (h.1))

pub All-snoc :
    (s : MstState) (before : List Edge) (e : Edge)
    → All (Quiet s) before
    → Quiet s e
    → All (Quiet s) (before ++ (e ∷ []))
All-snoc s [] e h q = (q, tt)
All-snoc s (x ∷ before) e h q = (h.0, All-snoc s before e (h.1) q)
