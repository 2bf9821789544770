-- ===== src/Event/Termination.antt =====
-- What is late before and after a round of the loop of get_time_remaining.
use tinc_quic.Common.{ℕ, suc, ◌≤◌, ◌<◌, ◌≡◌, refl, sym, ap, ◌∙◌, ◌↔◌, inl, inr, arith, Bool}
use tinc_quic.Common.{true, false, ◌||◌, not, Option, none, some, List, ◌∷◌, ◌==◌, Bool-cases}
use tinc_quic.Common.{==_iff}
use mathlib.Core.Path.{subst}
use tinc_quic.Common.Int.{is_negative}
use tinc_quic.Event.{Timeval, timersub, Difference, timeout_compare}
use tinc_quic.Event.Calls.{IsQuiet, count_late, Deleted-Calm, late}
use tinc_quic.Event.Deletion.{timeout_del-Deleted}
use tinc_quic.Event.Invariant.{IsTimeouts}
use tinc_quic.Event.Order.{micros, Earlier, compare_lt, compare-IsOrder}
use tinc_quic.Event.Timeouts.{Timeouts, expired, timer_before, head, data_of, timeout_del}
use tinc_quic.Splay.Members.{count_if, member, count_if_same, count_if_imp, member-All}
use tinc_quic.Splay.Order.{Ordered, apart}

abbrev pub everyone : ℕ → Bool
everyone m = true

abbrev pub everyone_but : ℕ → ℕ → Bool
everyone_but n m = not (n == m)

-- `diff->tv_sec < 0` says what timercmp says.
pub negative_difference : (a b : Timeval) → is_negative ((timersub a b).diff_sec) ≡ timer_before a b
unfolding timersub
negative_difference a b = ground (arith, a.in_second, b.in_second)

pub timer_before-micros : (a b : Timeval) → (timer_before a b ≡ true) ↔ (micros a < micros b)
timer_before-micros a b = ground (arith, a.in_second, b.in_second)

module _ {C : Type 0} where
  pub count_first :
      (n : ℕ) (rest : List ℕ) (s : Timeouts C)
      → IsTimeouts s
      → s.tree.thread ≡ n ∷ rest
      → timer_before (s.tv n) s.now ≡ true
      → count_late everyone s ≡ suc (count_late (everyone_but n) s)
  unfolding count_if
  count_first n rest s ok e over =
      let (first, _) = subst (Ordered timeout_compare (data_of s)) e (ok.sorted.ordered) in
      let self : (n == n) ≡ true = (==_iff n n).1 refl in
      let counted : count_if (late everyone s) rest ≡ count_if (late (everyone_but n) s) rest =
        count_if_same (late everyone s) (late (everyone_but n) s) rest (λ m h.
          let differ =
            apart timeout_compare (data_of s) compare-IsOrder n m (member-All _ rest m first h) in
          rw (differ) refl) in
      rw (e, over, self) (ap suc counted)

  -- The timeout that was late is not late any more, in the tree or out of it.
  pub expired-Calm :
      (n : ℕ) (s : Timeouts C)
      → IsQuiet s
      → IsQuiet (expired n s)
        × ((expired n s).now ≡ s.now)
        × (count_late everyone (expired n s) ≤ count_late (everyone_but n) s)
  unfolding expired
  expired-Calm n s ok = elim (Bool-cases (timer_before (s.tv n) s.now)) [
    | inl over ↦
        let d = timeout_del-Deleted n s (ok.timeouts) (ok.in_tree n) in
        let s' : Timeouts C = timeout_del n s in
        let calm = Deleted-Calm n s s' ok d in
        let same : count_late everyone s' ≡ count_late (everyone_but n) s' =
          count_if_same (late everyone s') (late (everyone_but n) s') s'.tree.thread
            (λ m h. ground (arith, h, d.del_members m)) in
        rw (over) (calm.quiet, calm.same_now, omega (arith, same, calm.fewer (everyone_but n)))
    | inr in_time ↦ rw (in_time) (
      ok,
      refl,
      count_if_imp (late everyone s) (late (everyone_but n) s) s.tree.thread (λ m h.
          elim (Bool-cases (n == m)) [
            | inl e ↦
                absurd (cc (h, in_time, ap (λ k. timer_before (s.tv k) s.now) ((==_iff n m).0 e)))
            | inr e ↦ rw (e) h
          ]),
    )
  ]

  -- The time to wait until the first timeout.
  abbrev pub wait : Timeouts C → Option Difference
  wait s = elim (head s.tree.thread) [ none ↦ none | some n ↦ some (timersub (s.tv n) s.now) ]

  -- How the loop ends.
  pub record Ended (s : Timeouts C) (diff : Option Difference) (s' : Timeouts C) : Type 0 where
    pub end_quiet : IsQuiet s'
    pub end_now : s'.now ≡ s.now
    pub none_late : (m : ℕ) → member m s'.tree.thread ≡ true → timer_before (s'.tv m) s'.now ≡ false
    pub waiting : diff ≡ wait s'

  pub first_in_time :
      (n : ℕ) (rest : List ℕ) (s : Timeouts C)
      → IsTimeouts s
      → s.tree.thread ≡ n ∷ rest
      → timer_before (s.tv n) s.now ≡ false
      → (m : ℕ) → member m s.tree.thread ≡ true
      → timer_before (s.tv m) s.now ≡ false
  unfolding member
  first_in_time n rest s ok e in_time m h =
      let (first, _) = subst (Ordered timeout_compare (data_of s)) e (ok.sorted.ordered) in
      elim (Bool-cases (n == m)) [
        | inl same ↦ subst (λ k. timer_before (s.tv k) s.now ≡ false) ((==_iff n m).0 same) in_time
        | inr differ ↦
            let there : member m rest ≡ true =
              ap (λ b. b || member m rest) (sym differ) ∙ ap (member m) (sym e) ∙ h in
            let before : Earlier (data_of s n) (data_of s m) =
              (compare_lt (data_of s n) (data_of s m)).0 (member-All _ rest m first there) in
            ground (
              arith,
              before,
              in_time,
              timer_before-micros (s.tv n) s.now,
              timer_before-micros (s.tv m) s.now,
            )
      ]
