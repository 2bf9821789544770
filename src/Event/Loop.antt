-- ===== src/Event/Loop.antt =====
-- get_time_remaining ends, and then no timeout is late.
use tinc_quic.Common.{ℕ, zero, suc, ◌<◌, ◌≡◌, refl, sym, ap, ◌∙◌, inl, inr, arith, true, false}
use tinc_quic.Common.{◌||◌, Option, none, some, List, [], ◌∷◌, Option-cases, ==_iff, List-cases}
use tinc_quic.Common.{Bool-cases}
use mathlib.Core.Path.{subst}
use tinc_quic.Event.{Timeval, Difference, timersub}
use tinc_quic.Event.Calls.{IsQuiet, Calls, count_late, Calls-Calm}
use tinc_quic.Event.Changes.{IsClock}
use tinc_quic.Event.Termination.{wait, negative_difference, everyone, Ended, expired-Calm}
use tinc_quic.Event.Termination.{everyone_but, count_first, first_in_time}
use tinc_quic.Event.Timeouts.{Timeouts, called, get_time_remaining, run_timeouts, timer_before}
use tinc_quic.Event.Timeouts.{expired, head}
use tinc_quic.Splay.Members.{member}

nobody : (m : ℕ) (nodes : List ℕ) → nodes ≡ [] → member m nodes ≡ true → ⊥
unfolding member
nobody m [] e h = absurd cc
nobody m (x ∷ nodes) e h = absurd cc

module _ {C : Type 0} (invoke : C → Timeouts C → Option (Timeouts C)) where
  -- A callback comes back, and only calls timeout_add, timeout_set and timeout_del.
  abbrev pub Returns : Type 0
  Returns =
      (c : C) (s : Timeouts C)
      → IsQuiet s
      → IsClock s.now
      → (s' : Timeouts C) × (invoke c s ≡ some s') × Calls s s'

  called-Calls :
      (n : ℕ) (s : Timeouts C)
      → Returns
      → IsQuiet s
      → IsClock s.now
      → member n s.tree.thread ≡ true
      → (s' : Timeouts C) × (called invoke n s ≡ some s') × Calls s s'
  unfolding called
  called-Calls n s returns ok running there = elim (Option-cases (s.cb n)) [
    | inl e ↦ absurd (ok.timeouts.armed n there e)
    | inr (c, e) ↦ rw (e, called) (returns c s ok running)
  ]

  -- One round of the loop for a late timeout.
  late_round :
      (n : ℕ) (rest : List ℕ) (s : Timeouts C)
      → Returns
      → IsQuiet s
      → IsClock s.now
      → s.tree.thread ≡ n ∷ rest
      → timer_before (s.tv n) s.now ≡ true
      → (s' : Timeouts C) × (called invoke n s ≡ some s')
        × IsQuiet (expired n s')
        × ((expired n s').now ≡ s.now)
        × (count_late everyone (expired n s') < count_late everyone s)
  unfolding member
  late_round n rest s returns ok running e over =
      let there : member n s.tree.thread ≡ true =
        ap (member n) e ∙ ap (λ b. b || member n rest) ((==_iff n n).1 refl) in
      let (s', back, calls) = called-Calls n s returns ok running there in
      let calm = Calls-Calm s s' running ok calls in
      let (ok', same, fewer) = expired-Calm n s' (calm.quiet) in
      (
        s',
        back,
        ok',
        same ∙ calm.same_now,
        omega
            (arith, fewer, calm.fewer (everyone_but n), count_first n rest s (ok.timeouts) e over),
      )

  wait_at :
      (s : Timeouts C) {first : Option ℕ}
      → head s.tree.thread ≡ first
      → wait s ≡ elim first [ none ↦ none | some n ↦ some (timersub (s.tv n) s.now) ]
  wait_at s e = ap (λ h. elim h [ none ↦ none | some n ↦ some (timersub (s.tv n) s.now) ]) e

  run_none :
      (fuel : ℕ) (s : Timeouts C)
      → s.tree.thread ≡ []
      → (z : Option (Option Difference × Timeouts C)) → some (none, s) ≡ z
      → run_timeouts invoke (suc fuel) s ≡ z
  unfolding run_timeouts
  run_none fuel s e z h = rw (e, run_timeouts) h

  run_wait :
      (fuel : ℕ) (n : ℕ) (rest : List ℕ) (s : Timeouts C)
      → s.tree.thread ≡ n ∷ rest
      → timer_before (s.tv n) s.now ≡ false
      → (z : Option (Option Difference × Timeouts C)) → some (some (timersub (s.tv n) s.now), s) ≡ z
      → run_timeouts invoke (suc fuel) s ≡ z
  unfolding run_timeouts
  run_wait fuel n rest s e in_time z h =
      rw (e, run_timeouts, negative_difference (s.tv n) s.now ∙ in_time) h

  run_late :
      (fuel : ℕ) (n : ℕ) (rest : List ℕ) (s s' : Timeouts C)
      → s.tree.thread ≡ n ∷ rest
      → timer_before (s.tv n) s.now ≡ true
      → called invoke n s ≡ some s'
      → run_timeouts invoke (suc fuel) s ≡ run_timeouts invoke fuel (expired n s')
  unfolding run_timeouts
  run_late fuel n rest s s' e over back =
      rw (e, run_timeouts, negative_difference (s.tv n) s.now ∙ over, back) refl

  run_timeouts-Ended :
      (fuel : ℕ) (s : Timeouts C)
      → Returns
      → IsQuiet s
      → IsClock s.now
      → count_late everyone s < fuel
      → (diff : Option Difference) × (s' : Timeouts C) × (run_timeouts invoke fuel s
          ≡ some (diff, s'))
        × Ended s diff s'
  run_timeouts-Ended zero s returns ok running enough = absurd (omega (arith, enough))
  run_timeouts-Ended (suc fuel) s returns ok running enough =
      let ended : ((m : ℕ) → member m s.tree.thread ≡ true → timer_before (s.tv m) s.now ≡ false)
          → Ended s (wait s) s =
        λ in_time. record { end_quiet = ok; end_now = refl; none_late = in_time; waiting = refl } in
      elim (List-cases s.tree.thread) [
        | inl e ↦ (
          wait s,
          s,
          run_none fuel s e _ (ap (λ d. some (d, s)) (sym (wait_at s (ap head e)))),
          ended (λ m h. absurd (nobody m s.tree.thread e h)),
        )
        | inr (n, rest, e) ↦ elim (Bool-cases (timer_before (s.tv n) s.now)) [
          | inl over ↦
              let (s', back, ok', same, fewer) = late_round n rest s returns ok running e over in
              let (diff, s'', runs, end) =
                run_timeouts-Ended fuel (expired n s') returns ok'
                  (subst IsClock (sym same) running) (omega (arith, fewer, enough)) in
              (
                diff,
                s'',
                run_late fuel n rest s s' e over back ∙ runs,
                record {
                  end_quiet = end.end_quiet;
                  end_now = end.end_now ∙ same;
                  none_late = end.none_late;
                  waiting = end.waiting;
                },
              )
          | inr in_time ↦ (
            wait s,
            s,
            run_wait fuel n rest s e in_time _
                (ap (λ d. some (d, s)) (sym (wait_at s (ap head e)))),
            ended (first_in_time n rest s (ok.timeouts) e in_time),
          )
        ]
      ]

  -- In a state that satisfies the invariant of the timeouts and in which exactly those in the tree
  -- have a callback, with a clock that is not at 0, if every callback comes back and only adds, sets
  -- and deletes timeouts, get_time_remaining comes back after at most as many callbacks as there are
  -- timeouts whose time is over at the new `now`. Then no armed timeout is late, and the result is the
  -- time until the first one.
  pub get_time_remaining-Ended :
      (fuel : ℕ) (clock : Timeval) (s : Timeouts C)
      → Returns
      → IsQuiet s
      → IsClock clock
      → count_late everyone (record s { now = clock }) < fuel
      → (diff : Option Difference) × (s' : Timeouts C) × (get_time_remaining invoke fuel clock s
          ≡ some (diff, s'))
        × Ended (record s { now = clock }) diff s'
  unfolding get_time_remaining
  get_time_remaining-Ended fuel clock s returns ok clocked enough =
      let quiet : IsQuiet (record s { now = clock }) = record {
        timeouts = record {
          sorted = ok.timeouts.sorted;
          linked = ok.timeouts.linked;
          armed = ok.timeouts.armed;
        };
        in_tree = ok.in_tree;
      } in
      run_timeouts-Ended fuel (record s { now = clock }) returns quiet clocked enough
