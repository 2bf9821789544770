-- ===== src/Graph/Kruskal/Count.antt =====
-- Adding an edge that crosses leaves fewer nodes to visit.
use tinc_quic.Common.{ℕ, zero, suc, ◌+◌, ◌≤◌, ◌<◌, ◌≡◌, ◌⊎◌, inl, inr, arith, true, false, List}
use tinc_quic.Common.{if◌then◌else◌}
use mathlib.Core.Path.{subst}
use tinc_quic.Graph.{Edge}
use tinc_quic.Graph.Kruskal.{MstState, add_safe_edge, crossing}
use tinc_quic.Graph.Kruskal.Growth.{Settled-added}

-- How many nodes have not been visited.
unfoldable pub unvisited : ℕ → MstState → ℕ
unvisited zero s = 0
unvisited (suc n) s = unvisited n s + (if s.visited n then 0 else 1)

unvisited_mono :
    (n : ℕ) (s t : MstState)
    → ((k : ℕ) → s.visited k ≡ true → t.visited k ≡ true)
    → unvisited n t ≤ unvisited n s
unfolding unvisited
unvisited_mono zero s t more = omega arith
unvisited_mono (suc n) s t more = ground (arith, unvisited_mono n s t more, more n)

<-or-≡ : (i n : ℕ) → i < suc n → (i < n) ⊎ (i ≡ n)
<-or-≡ i n h = ground (arith, h)

unvisited-lt :
    (n i : ℕ) (s t : MstState)
    → ((k : ℕ) → s.visited k ≡ true → t.visited k ≡ true)
    → i < n
    → s.visited i ≡ false
    → t.visited i ≡ true
    → unvisited n t < unvisited n s
unfolding unvisited
unvisited-lt zero i s t more below old new = absurd (omega arith)
unvisited-lt (suc n) i s t more below old new = elim (<-or-≡ i n below) [
  | inl earlier ↦ ground (arith, unvisited-lt n i s t more earlier old new, more n)
  | inr last ↦
      let old_n = subst (λ k. s.visited k ≡ false) last old in
      let new_n = subst (λ k. t.visited k ≡ true) last new in
      ground (arith, unvisited_mono n s t more, old_n, new_n)
]

add-keeps :
    (edges : List Edge) (e : Edge) (s : MstState) (k : ℕ)
    → s.visited k ≡ true
    → (add_safe_edge edges e s).visited k ≡ true
unfolding add_safe_edge
add-keeps edges e s k h = ground (arith, h)

crossing_end :
    (s : MstState) (e : Edge)
    → crossing s e ≡ true
    → (s.visited e.from ≡ false) ⊎ (s.visited e.to ≡ false)
unfolding crossing
crossing_end s e h = ground (arith, h)

-- An edge that crosses brings a node that was not visited.
pub unvisited-add :
    (n : ℕ) (edges : List Edge) (e : Edge) (s : MstState)
    → crossing s e ≡ true
    → e.from < n
    → e.to < n
    → unvisited n (add_safe_edge edges e s) < unvisited n s
unvisited-add n edges e s h from to =
    let t = add_safe_edge edges e s in
    let more : (k : ℕ) → s.visited k ≡ true → t.visited k ≡ true = add-keeps edges e s in
    let (new_from, new_to) = Settled-added edges e s in
    elim (crossing_end s e h) [
      | inl old ↦ unvisited-lt n e.from s t more from old new_from
      | inr old ↦ unvisited-lt n e.to s t more to old new_to
    ]
