-- ===== src/Splay/Members.antt =====
-- Which nodes are in the ordered list after an insertion and a removal, and how many of a kind.
use tinc_quic.Common.{ℕ, suc, ◌≤◌, ◌≡◌, refl, sym, ap, ◌∙◌, inl, inr, arith, Bool, true, false}
use tinc_quic.Common.{◌||◌, none, List, [], ◌∷◌, ◌==◌, if◌then◌else◌, ==_iff, All, Among}
use tinc_quic.Common.{Bool-cases}
use mathlib.Core.Path.{subst}
use tinc_quic.Common.Int.{ℤ}
use tinc_quic.Splay.{sign, against, lt}
use tinc_quic.Splay.Delete.{find_here, find_past}
use tinc_quic.Splay.Insert.{insert_bare, insert_lt, insert_eq, insert_gt}
use tinc_quic.Splay.Order.{IsOrder, Ordered, apart}
use tinc_quic.Splay.Search.{find, insert_sorted, is_zero-sign}
use tinc_quic.Splay.TopDown.{Ordering-cases}
use tinc_quic.Splay.Update.{thread_without}

unfoldable pub member : ℕ → List ℕ → Bool
member m [] = false
member m (x ∷ nodes) = (x == m) || member m nodes

pub member-Among : (m : ℕ) (nodes : List ℕ) → member m nodes ≡ true → Among m nodes
unfolding member
member-Among m [] h = absurd cc
member-Among m (x ∷ nodes) h = elim (Bool-cases (x == m)) [
  | inl e ↦ inl (sym ((==_iff x m).0 e))
  | inr e ↦ inr (member-Among m nodes (sym (ap (λ b. b || member m nodes) e) ∙ h))
]

pub Among-member : (m : ℕ) (nodes : List ℕ) → Among m nodes → member m nodes ≡ true
unfolding member
Among-member m [] h = absurd h
Among-member m (x ∷ nodes) (inl e) = rw ((==_iff x m).1 (sym e)) refl
Among-member m (x ∷ nodes) (inr h) = ground (arith, Among-member m nodes h)

pub All-member :
    (P : ℕ → Type 0) (nodes : List ℕ) → ((m : ℕ) → member m nodes ≡ true → P m) → All P nodes
unfolding member
All-member P [] f = tt
All-member P (x ∷ nodes) f =
    (f x (rw ((==_iff x x).1 refl) refl), All-member P nodes (λ m h. f m (ground (arith, h))))

pub member-All :
    (P : ℕ → Type 0) (nodes : List ℕ) (m : ℕ) → All P nodes → member m nodes ≡ true → P m
unfolding member
member-All P [] m h k = absurd cc
member-All P (x ∷ nodes) m (hx, h) k = elim (Bool-cases (x == m)) [
  | inl e ↦ subst P ((==_iff x m).0 e) hx
  | inr e ↦ member-All P nodes m h (sym (ap (λ b. b || member m nodes) e) ∙ k)
]

-- How many nodes pass a test.
unfoldable pub count_if : (ℕ → Bool) → List ℕ → ℕ
count_if test [] = 0
count_if test (x ∷ nodes) = let rest = count_if test nodes in if test x then suc rest else rest

pub count_if-thread_without :
    (test : ℕ → Bool) (n : ℕ) (nodes : List ℕ)
    → count_if test (thread_without n nodes) ≤ count_if test nodes
unfolding count_if thread_without
count_if-thread_without test n [] = omega arith
count_if-thread_without test n (x ∷ nodes) = elim (Bool-cases (x == n)) [
  | inl e ↦ rw (e) (ground arith)
  | inr e ↦ rw (e) (ground (arith, count_if-thread_without test n nodes))
]

pub count_if_same :
    (test test' : ℕ → Bool) (nodes : List ℕ)
    → ((m : ℕ) → member m nodes ≡ true → test m ≡ test' m)
    → count_if test nodes ≡ count_if test' nodes
unfolding count_if member
count_if_same test test' [] h = refl
count_if_same test test' (x ∷ nodes) h = rw (h x (rw ((==_iff x x).1 refl) refl)) (
    ap (λ k. if test' x then suc k else k)
      (count_if_same test test' nodes (λ m k. h m (ground (arith, k)))))

pub count_if_imp :
    (test test' : ℕ → Bool) (nodes : List ℕ)
    → ((m : ℕ) → test m ≡ true → test' m ≡ true)
    → count_if test nodes ≤ count_if test' nodes
unfolding count_if
count_if_imp test test' [] h = omega arith
count_if_imp test test' (x ∷ nodes) h = ground (arith, h x, count_if_imp test test' nodes h)

module _ {D : Type 0} (compare : D → D → ℤ) (payload : ℕ → D) where
  pub count_if-insert_sorted :
      (test : ℕ → Bool) (n : ℕ) (nodes : List ℕ)
      → test n ≡ false
      → count_if test (insert_sorted compare payload n nodes) ≡ count_if test nodes
  unfolding count_if
  count_if-insert_sorted test n [] h = rw (insert_bare compare payload n, h) refl
  count_if-insert_sorted test n (x ∷ nodes) h =
      elim (Ordering-cases (sign (against compare payload (payload n) x))) [
        | inl e ↦ rw (insert_lt compare payload n x nodes e, h) refl
        | inr (inl e) ↦ rw (insert_eq compare payload n x nodes e) refl
        | inr (inr e) ↦
            rw (insert_gt compare payload n x nodes e)
              (ap (λ k. if test x then suc k else k) (count_if-insert_sorted test n nodes h))
      ]

  pub member-insert_sorted :
      (m n : ℕ) (nodes : List ℕ)
      → find compare payload (payload n) nodes ≡ none
      → member m (insert_sorted compare payload n nodes) ≡ ((n == m) || member m nodes)
  unfolding member find
  member-insert_sorted m n [] h = rw (insert_bare compare payload n) refl
  member-insert_sorted m n (x ∷ nodes) h =
      elim (Ordering-cases (sign (against compare payload (payload n) x))) [
        | inl e ↦ rw (insert_lt compare payload n x nodes e) refl
        | inr (inl e) ↦ absurd (
            cc (
              h,
              find_here compare payload (payload n) x nodes ((is_zero-sign compare payload _).0 e),
            ))
        | inr (inr e) ↦
            let past : find compare payload (payload n) nodes ≡ none =
              sym (
                find_past compare payload (payload n) x nodes
                  ((is_zero-sign compare payload _).1 (λ z. cc (z, e))))
              ∙ h in
            rw (insert_gt compare payload n x nodes e)
              (ground (arith, member-insert_sorted m n nodes past))
      ]

  -- Another payload for a node that is not in the list.
  pub Ordered-other :
      (payload' : ℕ → D) (nodes : List ℕ)
      → ((m : ℕ) → member m nodes ≡ true → payload m ≡ payload' m)
      → Ordered compare payload nodes
      → Ordered compare payload' nodes
  unfolding member
  Ordered-other payload' [] same h = tt
  Ordered-other payload' (x ∷ nodes) same (hx, h) =
      let here = same x (rw ((==_iff x x).1 refl) refl) in
      let later : (m : ℕ) → member m nodes ≡ true → payload m ≡ payload' m =
        λ m k. same m (ground (arith, k)) in
      (
        All-member _ nodes (λ m k.
            subst (λ d. sign (compare d (payload' m)) ≡ lt) here
              (subst (λ d. sign (compare (payload x) d) ≡ lt) (later m k)
                (member-All _ nodes m hx k))),
        Ordered-other payload' nodes later h,
      )

  module _ (order : IsOrder compare) where
    pub member-thread_without :
        (m n : ℕ) (nodes : List ℕ)
        → Ordered compare payload nodes
        → member m (thread_without n nodes) ≡ (if n == m then false else member m nodes)
    unfolding member thread_without
    member-thread_without m n [] h = ground arith
    member-thread_without m n (x ∷ nodes) (hx, h) = elim (Bool-cases (x == n)) [
      | inl e ↦ elim (Bool-cases (n == m)) [
        | inl f ↦
            rw (e, f)
              (elim (Bool-cases (member m nodes)) [
                | inl there ↦
                    let self = member-All _ nodes m hx there in
                    absurd (
                      cc (
                        apart compare payload order x m self,
                        (==_iff x m).1 ((==_iff x n).0 e ∙ (==_iff n m).0 f),
                      ))
                | inr gone ↦ gone
              ])
        | inr f ↦ rw (e, f) (ground (arith, e, f))
      ]
      | inr e ↦ rw (e) (ground (arith, e, member-thread_without m n nodes h))
    ]
