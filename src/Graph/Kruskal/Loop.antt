-- ===== src/Graph/Kruskal/Loop.antt =====
-- The loop of mst_kruskal follows Prim's algorithm, and ends.
use tinc_quic.Common.{ℕ, zero, suc, ◌+◌, ◌*◌, ◌≤◌, ◌<◌, ◌≡◌, refl, sym, ap, ◌∙◌, inl, inr}
use tinc_quic.Common.{arith, Bool, true, false, some, List, [], ◌∷◌, ◌++◌, All, length}
use tinc_quic.Common.{length-append, Bool-cases}
use mathlib.Core.List.{append_assoc}
use mathlib.Core.Path.{subst}
use tinc_quic.Graph.{Edge}
use tinc_quic.Graph.Kruskal.{MstState, kruskal_loop, mst_kruskal, crossing, add_safe_edge}
use tinc_quic.Graph.Kruskal.{kruskal_start}
use tinc_quic.Graph.Kruskal.Count.{unvisited, unvisited-add}
use tinc_quic.Graph.Kruskal.Growth.{Prim, stop, grow, Quiet, first_crossing, Settled, All-Quiet}
use tinc_quic.Graph.Kruskal.Growth.{first_crossing-skip, All-snoc, first_crossing-here}
use tinc_quic.Graph.Kruskal.Growth.{All-Settled, Weighed, first_crossing-none}
use tinc_quic.Graph.Kruskal.Growth.{first_crossing-Lightest}

-- What is known of the edges that the loop has passed.
abbrev Passed : Bool → MstState → List Edge → Type 0
Passed true s before = All (Quiet s) before
Passed false s before = All (Settled s) before

Passed-Quiet :
    (skipped : Bool) (s : MstState) (before : List Edge)
    → Passed skipped s before
    → All (Quiet s) before
Passed-Quiet true s before h = h
Passed-Quiet false s before h = All-Quiet s before h

-- The ends of the edges are nodes of the graph.
abbrev pub Ends : ℕ → Edge → Type 0
Ends n e = (e.from < n) × (e.to < n)

kruskal_loop_end :
    (fuel : ℕ) (edges : List Edge) (skipped : Bool) (s : MstState)
    → kruskal_loop fuel edges [] skipped s ≡ some s
unfolding kruskal_loop
kruskal_loop_end zero edges skipped s = refl
kruskal_loop_end (suc fuel) edges skipped s = refl

kruskal_loop_quiet :
    (fuel : ℕ) (edges rest : List Edge) (skipped : Bool) (s : MstState) (e : Edge)
    → crossing s e ≡ false
    → kruskal_loop (suc fuel) edges (e ∷ rest) skipped s ≡ kruskal_loop fuel edges rest true s
unfolding kruskal_loop
kruskal_loop_quiet fuel edges rest skipped s e h = rw (kruskal_loop, h)

kruskal_loop_restart :
    (fuel : ℕ) (edges rest : List Edge) (skipped : Bool) (s : MstState) (e : Edge)
    → crossing s e ≡ true
    → skipped ≡ true
    → kruskal_loop (suc fuel) edges (e ∷ rest) skipped s
      ≡ kruskal_loop fuel edges edges false (add_safe_edge edges e s)
unfolding kruskal_loop
kruskal_loop_restart fuel edges rest skipped s e h k = rw (kruskal_loop, h, k)

kruskal_loop_on :
    (fuel : ℕ) (edges rest : List Edge) (skipped : Bool) (s : MstState) (e : Edge)
    → crossing s e ≡ true
    → skipped ≡ false
    → kruskal_loop (suc fuel) edges (e ∷ rest) skipped s
      ≡ kruskal_loop fuel edges rest false (add_safe_edge edges e s)
unfolding kruskal_loop
kruskal_loop_on fuel edges rest skipped s e h k = rw (kruskal_loop, h, k)

mul_mono : (a b c : ℕ) → a ≤ b → a * c ≤ b * c
mul_mono a b zero h = omega arith
mul_mono a b (suc c) h = omega (arith, mul_mono a b c h)

module _ (n : ℕ) (edges : List Edge) (ends : All (Ends n) edges) (weighed : Weighed edges) where
  abbrev work : List Edge → MstState → ℕ
  work rest s = unvisited n s * suc (length edges) + length rest

  -- A restart costs less than what the added edge saves.
  work_less :
      (e : Edge) (s : MstState)
      → crossing s e ≡ true
      → Ends n e
      → (rest : List Edge)
      → unvisited n (add_safe_edge edges e s) * suc (length edges) + length edges
        < work (e ∷ rest) s
  work_less e s safe (from, to) rest =
      let fewer = unvisited-add n edges e s safe from to in
      let scaled =
        mul_mono (suc (unvisited n (add_safe_edge edges e s))) (unvisited n s) (suc (length edges))
          fewer in
      omega (arith, scaled)

  shorter :
      (before : List Edge) (e : Edge) (rest : List Edge)
      → edges ≡ before ++ (e ∷ rest)
      → length rest ≤ length edges
  shorter before e rest split =
      omega (arith, ap (λ x. length x) split, length-append before (e ∷ rest))

  kruskal_loop-Prim :
      (fuel : ℕ) (before rest : List Edge) (skipped : Bool) (s : MstState)
      → edges ≡ before ++ rest
      → Passed skipped s before
      → All (Ends n) rest
      → work rest s ≤ fuel
      → (t : MstState) × (kruskal_loop fuel edges rest skipped s ≡ some t) × Prim edges s t
  unfolding kruskal_loop first_crossing
  kruskal_loop-Prim fuel before [] skipped s split passed tail enough = (
    s,
    kruskal_loop_end fuel edges skipped s,
    stop refl (
        first_crossing-none s edges (
          ap (λ x. first_crossing s x) split
          ∙ first_crossing-skip s before [] (Passed-Quiet skipped s before passed))),
  )
  kruskal_loop-Prim zero before (e ∷ rest) skipped s split passed tail enough = absurd (omega arith)
  kruskal_loop-Prim (suc fuel) before (e ∷ rest) skipped s split passed tail enough =
      let before' = before ++ (e ∷ []) in
      let split' : edges ≡ before' ++ rest = split ∙ sym (append_assoc before (e ∷ []) rest) in
      let quiet_before = Passed-Quiet skipped s before passed in
      elim (Bool-cases (crossing s e)) [
        | inr quiet ↦
            let (t, ends_with, prim) =
              kruskal_loop-Prim fuel before' rest true s split'
                (All-snoc s before e quiet_before quiet) (tail.1) (omega (arith, enough)) in
            (t, kruskal_loop_quiet fuel edges rest skipped s e quiet ∙ ends_with, prim)
        | inl safe ↦
            let s' = add_safe_edge edges e s in
            let first : first_crossing s edges ≡ some e =
              ap (λ x. first_crossing s x) split
              ∙ first_crossing-skip s before (e ∷ rest) quiet_before
              ∙ first_crossing-here s e rest safe in
            let less = work_less e s safe (tail.0) rest in
            elim (Bool-cases skipped) [
              | inl restart ↦
                  let (t, ends_with, prim) =
                    kruskal_loop-Prim fuel [] edges false s' refl tt ends
                      (omega (arith, less, enough)) in
                  (
                    t,
                    kruskal_loop_restart fuel edges rest skipped s e safe restart ∙ ends_with,
                    grow e (first_crossing-Lightest s edges e weighed first) prim,
                  )
              | inr on ↦
                  let settled = subst (λ k. Passed k s before) on passed in
                  let (t, ends_with, prim) =
                    kruskal_loop-Prim fuel before' rest false s' split'
                      (All-Settled edges e s before settled) (tail.1)
                      (omega (arith, less, enough, shorter before e rest split)) in
                  (
                    t,
                    kruskal_loop_on fuel edges rest skipped s e safe on ∙ ends_with,
                    grow e (first_crossing-Lightest s edges e weighed first) prim,
                  )
            ]
      ]

-- Rounds that are always enough.
abbrev pub rounds : ℕ → List Edge → ℕ
rounds n edges = n * suc (length edges) + length edges

unvisited-le : (n : ℕ) (s : MstState) → unvisited n s ≤ n
unfolding unvisited
unvisited-le zero s = omega arith
unvisited-le (suc n) s = ground (arith, unvisited-le n s)

-- If the ends of the edges are among `n` nodes and the edges stand in the order of their weights,
-- mst_kruskal returns within `rounds` rounds, and its result is what Prim's algorithm gives from the
-- starting point: at each time an edge with a reverse of which exactly one end has been visited is
-- added, and none of those is lighter, until there is none.
pub mst_kruskal-Prim :
    (n fuel : ℕ) (reachable : ℕ → Bool) (edges : List Edge)
    → All (Ends n) edges
    → Weighed edges
    → rounds n edges ≤ fuel
    → (t : MstState) × (mst_kruskal fuel reachable edges ≡ some t)
      × Prim edges (kruskal_start reachable edges) t
unfolding mst_kruskal
mst_kruskal-Prim n fuel reachable edges ends weighed enough =
    let s = kruskal_start reachable edges in
    let bound : unvisited n s * suc (length edges) ≤ n * suc (length edges) =
      mul_mono (unvisited n s) n (suc (length edges)) (unvisited-le n s) in
    kruskal_loop-Prim n edges ends weighed fuel [] edges false s refl tt ends
      (omega (arith, bound, enough))
