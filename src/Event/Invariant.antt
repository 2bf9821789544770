-- ===== src/Event/Invariant.antt =====
-- What timeout_set, timeout_add and timeout_del keep of the timeouts.
use tinc_quic.Common.{ℕ, ◌≤◌, ◌<◌, ◌≡◌, refl, sym, ap, ◌∙◌, ◌≢◌, inl, inr, arith, Bool, true}
use tinc_quic.Common.{false, none, List, [], ◌∷◌, ◌==◌, if◌then◌else◌, ==_iff, Bool-cases}
use mathlib.Core.Path.{subst}
use tinc_quic.Event.{Timeval, timeout_compare}
use tinc_quic.Event.Order.{compare-IsOrder, compare_eq}
use tinc_quic.Event.Timeouts.{Timeouts, timeradd, timerisset, data_of, timeout_data}
use tinc_quic.Graph.{update}
use tinc_quic.Splay.{SplayTree}
use tinc_quic.Splay.Delete.{find_past}
use tinc_quic.Splay.Members.{member, Ordered-other, member-Among, member-thread_without}
use tinc_quic.Splay.Members.{count_if-thread_without, count_if}
use tinc_quic.Splay.Search.{find, IsTree, is_zero-sign}
use tinc_quic.Splay.Unlink.{unlink_node-without}
use tinc_quic.Splay.Update.{splay_unlink_node}

pub update_same : {A : Type 0} (f : ℕ → A) (n : ℕ) (a : A) → update f n a n ≡ a
update_same f n a = rw ((==_iff n n).1 refl) refl

pub update_other :
    {A : Type 0} (f : ℕ → A) (n : ℕ) (a : A) (m : ℕ) → (n == m) ≡ false → update f n a m ≡ f m
update_other f n a m h = let e : (m == n) ≡ false = ground (arith, h) in rw (e) refl

pub unequal_missing :
    (tv : ℕ → Timeval) (n : ℕ) (nodes : List ℕ)
    → member n nodes ≡ false
    → find timeout_compare (timeout_data tv) (timeout_data tv n) nodes ≡ none
unfolding find member
unequal_missing tv n [] h = refl
unequal_missing tv n (x ∷ nodes) h =
    let differ : (n ≡ x) → ⊥ = λ e. absurd (ground (arith, (==_iff x n).1 (sym e), h)) in
    find_past timeout_compare (timeout_data tv) (timeout_data tv n) x nodes (
      (is_zero-sign timeout_compare (timeout_data tv) _).1
        (λ e. differ ((compare_eq (timeout_data tv n) (timeout_data tv x)).0 e).1))
    ∙ unequal_missing tv n nodes (ground (arith, h))

pub timeradd_set : (a b : Timeval) → 0 < a.tv_sec → timerisset (timeradd a b) ≡ true
unfolding timeradd
timeradd_set a b h = ground (arith, h)

module _ {C : Type 0} where
  -- The tree is in order, holds the timeouts whose time is set, and each of them has a callback.
  pub record IsTimeouts (s : Timeouts C) : Type 0 where
    pub sorted : IsTree timeout_compare (data_of s) s.tree
    pub linked : (n : ℕ) → timerisset (s.tv n) ≡ member n s.tree.thread
    pub armed : (n : ℕ) → member n s.tree.thread ≡ true → s.cb n ≢ none

  -- A tree from which `n` is gone.
  pub record Without (n : ℕ) (s : Timeouts C) (tree : SplayTree) : Type 0 where
    pub still_sorted : IsTree timeout_compare (data_of s) tree
    pub members :
        (m : ℕ) → member m tree.thread ≡ (if n == m then false else member m s.tree.thread)
    pub no_more : (test : ℕ → Bool) → count_if test tree.thread ≤ count_if test s.tree.thread

  pub unlinked-Without :
      (n : ℕ) (s : Timeouts C)
      → IsTimeouts s
      → member n s.tree.thread ≡ true
      → Without n s (splay_unlink_node n s.tree)
  unlinked-Without n s ok there =
      let (removed, ok') =
        unlink_node-without timeout_compare (data_of s) compare-IsOrder n s.tree ok.sorted
          (member-Among n s.tree.thread there) in
      record {
        still_sorted = ok';
        members = λ m.
            ap (member m) removed
            ∙ member-thread_without timeout_compare (data_of s) compare-IsOrder m n s.tree.thread
                (ok.sorted.ordered);
        no_more = λ test.
            subst (λ nodes. count_if test nodes ≤ count_if test s.tree.thread) (sym removed)
              (count_if-thread_without test n s.tree.thread);
      }

  pub untouched-Without :
      (n : ℕ) (s : Timeouts C) → IsTimeouts s → member n s.tree.thread ≡ false → Without n s s.tree
  untouched-Without n s ok gone = record {
    still_sorted = ok.sorted;
    members = λ m. elim (Bool-cases (n == m)) [
      | inl e ↦ rw (e) (subst (λ k. member k s.tree.thread ≡ false) ((==_iff n m).0 e) gone)
      | inr e ↦ rw (e) refl
    ];
    no_more = λ test. omega arith;
  }

  pub set_unlinked :
      (n : ℕ) (s : Timeouts C)
      → IsTimeouts s
      → Without n s (if timerisset (s.tv n) then splay_unlink_node n s.tree else s.tree)
  set_unlinked n s ok = elim (Bool-cases (timerisset (s.tv n))) [
    | inl e ↦ rw (e) (unlinked-Without n s ok (sym (ok.linked n) ∙ e))
    | inr e ↦ rw (e) (untouched-Without n s ok (sym (ok.linked n) ∙ e))
  ]

  -- The tree without `n` does not see a new time for `n`.
  pub retimed-IsTree :
      (n : ℕ) (s : Timeouts C) (t : Timeval) (tree : SplayTree)
      → Without n s tree
      → IsTree timeout_compare (timeout_data (update s.tv n t)) tree
  retimed-IsTree n s t tree w = record {
    threaded = w.still_sorted.threaded;
    ordered =
        Ordered-other timeout_compare (data_of s) (timeout_data (update s.tv n t)) tree.thread
          (λ m h.
            let e : (n == m) ≡ false = ground (arith, h, w.members m) in
            ap (λ z. (z, m)) (sym (update_other s.tv n t m e)))
          (w.still_sorted.ordered);
    counted = w.still_sorted.counted;
  }
