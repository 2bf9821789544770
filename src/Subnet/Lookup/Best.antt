-- ===== src/Subnet/Lookup/Best.antt =====
-- Which of the matching subnets a search returns.
use tinc_quic.Common.{ℕ, ◌≤◌, ◌≡◌, sym, ◌∙◌, inl, inr, arith, Bool, true, Option, some, List}
use tinc_quic.Common.{[], ◌∷◌, All, Bool-cases}
use mathlib.Core.Path.{subst}
use tinc_quic.Subnet.{Net, Subnet}
use tinc_quic.Subnet.Compare.{type}
use tinc_quic.Subnet.Compare.Order.{Sorted, prefixlength, Before, Before-prefixlength}
use tinc_quic.Subnet.Lookup.{search_all, usable}

module _ (reachable : List ℕ → Bool) (match : Net → Bool) where
  -- The type of the subnets that are looked for.
  module _ (kind : ℕ) (match-type : (n : Net) → match n ≡ true → type n ≡ kind) where
    -- `r` is at least as good an answer as `q`.
    abbrev pub AsGood : Subnet → Subnet → Type 0
    AsGood r q =
        match q.net ≡ true
        → usable reachable q ≡ true
        → (match r.net ≡ true)
          × (usable reachable r ≡ true)
          × (prefixlength q.net ≤ prefixlength r.net)

    -- A usable match is as good as all that stand behind it.
    first-AsGood :
        (p : Subnet) (tree : List Subnet)
        → match p.net ≡ true
        → usable reachable p ≡ true
        → All (Before p) tree
        → All (AsGood p) tree
    first-AsGood p [] m u before = tt
    first-AsGood p (q ∷ tree) m u before = (
      λ m' u'. (
        m,
        u,
        Before-prefixlength p q (match-type p.net m ∙ sym (match-type q.net m')) (before.0),
      ),
      first-AsGood p tree m u (before.1),
    )

    -- The result is as good as every subnet of the tree.
    pub search_all-AsGood :
        (tree : List Subnet) (r0 : Option Subnet) (r : Subnet)
        → Sorted tree
        → search_all reachable match tree r0 ≡ some r
        → All (AsGood r) tree
    unfolding search_all
    search_all-AsGood [] r0 r sorted found = tt
    search_all-AsGood (p ∷ tree) r0 r sorted found = elim (Bool-cases (match p.net)) [
      | inl m ↦ elim (Bool-cases (usable reachable p)) [
        | inl u ↦
            let e : p ≡ r = ground (arith, m, u, found) in
            subst (λ r'. All (AsGood r') (p ∷ tree)) e
              (λ _ _. (m, u, omega arith), first-AsGood p tree m u (sorted.0))
        | inr u ↦
            (λ _ u'. cc, search_all-AsGood tree (some p) r (sorted.1) (ground (arith, m, u, found)))
      ]
      | inr m ↦ (λ m' _. cc, search_all-AsGood tree r0 r (sorted.1) (ground (arith, m, found)))
    ]
