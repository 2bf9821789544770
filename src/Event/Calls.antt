-- ===== src/Event/Calls.antt =====
-- The calls of timeout_add, timeout_set and timeout_del that a callback may make, as a step relation.
use tinc_quic.Common.{ℕ, ◌≤◌, ◌≡◌, refl, sym, ap, ◌∙◌, ◌≢◌, inl, inr, arith, Bool, true, false}
use tinc_quic.Common.{◌&&◌, ◌||◌, Option, none, some, ◌==◌, if◌then◌else◌, Bool-cases, ==_iff}
use mathlib.Core.Path.{subst}
use tinc_quic.Event.{Timeval}
use tinc_quic.Event.Changes.{IsClock, Set, timeout_add-Set, timeout_set-Set}
use tinc_quic.Event.Deletion.{Deleted, timeout_del-Deleted}
use tinc_quic.Event.Invariant.{IsTimeouts, update_same, update_other}
use tinc_quic.Event.Timeouts.{Timeouts, timeradd, timer_before, timeout_add, timeout_set}
use tinc_quic.Event.Timeouts.{timeout_del, started}
use tinc_quic.Graph.{update}
use tinc_quic.Splay.Members.{count_if, member, count_if_imp, count_if_same}

timeradd_later : (a b : Timeval) → timer_before (timeradd a b) a ≡ false
unfolding timeradd
timeradd_later a b = ground (arith, a.in_second, b.in_second)

module _ {C : Type 0} where
  -- Between calls a timeout has a callback exactly if it is in the tree.
  pub record IsQuiet (s : Timeouts C) : Type 0 where
    pub timeouts : IsTimeouts s
    pub in_tree : (n : ℕ) → s.cb n ≢ none → member n s.tree.thread ≡ true

  -- One call: timeout_set only for a timeout that was added and not deleted since.
  pub data Call : Timeouts C → Timeouts C → Type 0 where
    add :
        (clock : Timeval) (n : ℕ) (c : C) (tv : Timeval) (s s' : Timeouts C)
        → IsClock clock
        → timeout_add clock n c tv s ≡ some s'
        → Call s s'
    set :
        (clock : Timeval) (n : ℕ) (tv : Timeval) (s s' : Timeouts C)
        → IsClock clock
        → s.cb n ≢ none
        → timeout_set clock n tv s ≡ some s'
        → Call s s'
    del : (n : ℕ) (s : Timeouts C) → Call s (timeout_del n s)

  -- A sequence of calls.
  pub data Calls : Timeouts C → Timeouts C → Type 0 where
    done : (s : Timeouts C) → Calls s s
    further : (s s' s'' : Timeouts C) → Call s s' → Calls s' s'' → Calls s s''

  -- A timeout among those in question whose time is over.
  abbrev pub late : (ℕ → Bool) → Timeouts C → ℕ → Bool
  late among s m = among m && timer_before (s.tv m) s.now

  abbrev pub count_late : (ℕ → Bool) → Timeouts C → ℕ
  count_late among s = count_if (late among s) s.tree.thread

  -- No timeout is late that was not.
  pub record Calm (s s' : Timeouts C) : Type 0 where
    pub quiet : IsQuiet s'
    pub same_now : s'.now ≡ s.now
    pub fewer : (among : ℕ → Bool) → count_late among s' ≤ count_late among s

  running_now : (clock : Timeval) (s : Timeouts C) → IsClock s.now → started clock s ≡ s.now
  running_now clock s running =
      let e : (s.now.tv_sec == 0) ≡ false = ground (arith, running) in rw (e) refl

  late_same :
      (among : ℕ → Bool) (s s' : Timeouts C) (m : ℕ)
      → s'.now ≡ s.now
      → s'.tv m ≡ s.tv m
      → late among s' m ≡ late among s m
  late_same among s s' m e f =
      ap (λ t. among m && timer_before t s'.now) f ∙ ap (λ t. among m && timer_before (s.tv m) t) e

  -- `cb` is the same but for `n`, which timeout_add changes.
  Set-Calm :
      (clock : Timeval) (n : ℕ) (tv : Timeval) (s : Timeouts C) (cb : ℕ → Option C)
      (s' : Timeouts C)
      → IsClock s.now
      → IsQuiet s
      → ((m : ℕ) → (n == m) ≡ false → cb m ≡ s.cb m)
      → Set clock n tv (record s { cb = cb }) s'
      → Calm s s'
  Set-Calm clock n tv s cb s' running ok others_cb d =
      let same = running_now clock s running in
      let t : Timeval = timeradd (started clock s) tv in
      record {
        quiet = record {
          timeouts = d.kept;
          in_tree = λ m h. elim (Bool-cases (n == m)) [
            | inl e ↦ d.set_members m ∙ ap (λ b. b || member m s.tree.thread) e
            | inr e ↦
                let callback =
                  λ (z : s.cb m ≡ none). h (ap (λ f. f m) (d.set_cb) ∙ others_cb m e ∙ z) in
                d.set_members m ∙ ap (λ b. b || member m s.tree.thread) e ∙ ok.in_tree m callback
          ];
        };
        same_now = d.set_now ∙ same;
        fewer = λ among.
            let now_timed =
              ap (λ z. timer_before z s'.now) (ap (λ f. f n) (d.set_tv) ∙ update_same s.tv n t)
              ∙ ap (timer_before t) (d.set_now)
              ∙ timeradd_later (started clock s) tv in
            let not_late : late among s' n ≡ false = ground (arith, now_timed) in
            let before : (m : ℕ) → late among s' m ≡ true → late among s m ≡ true = λ m h.
              elim (Bool-cases (n == m)) [
                | inl e ↦ absurd (cc (h, not_late, ap (late among s') ((==_iff n m).0 e)))
                | inr e ↦
                    sym (
                      late_same among s s' m (d.set_now ∙ same)
                        (ap (λ f. f m) (d.set_tv) ∙ update_other s.tv n t m e))
                    ∙ h
              ] in
            omega (
              arith,
              d.set_count (late among s') not_late,
              count_if_imp (late among s') (late among s) s.tree.thread before,
            );
      }

  pub Deleted-Calm : (n : ℕ) (s s' : Timeouts C) → IsQuiet s → Deleted n s s' → Calm s s'
  Deleted-Calm n s s' ok d = record {
    quiet = record {
      timeouts = d.left;
      in_tree = λ m h. elim (Bool-cases (n == m)) [
        | inl e ↦ absurd (
            h (
              ap (λ f. f m) (d.del_cb)
              ∙ ap (update s.cb n none) (sym ((==_iff n m).0 e))
              ∙ update_same s.cb n none))
        | inr e ↦
            d.del_members m
            ∙ ap (λ b. if b then false else member m s.tree.thread) e
            ∙ ok.in_tree m (λ z. h (ap (λ f. f m) (d.del_cb) ∙ update_other s.cb n none m e ∙ z))
      ];
    };
    same_now = d.del_now;
    fewer = λ among.
        let same : count_late among s' ≡ count_if (late among s) s'.tree.thread =
          count_if_same (late among s') (late among s) s'.tree.thread (λ m h.
            let e : (n == m) ≡ false = ground (arith, h, d.del_members m) in
            late_same among s s' m (d.del_now) (d.del_tv m e)) in
        omega (arith, same, d.del_count (late among s));
  }

  pub call-Calm : (s s' : Timeouts C) → IsClock s.now → IsQuiet s → Call s s' → Calm s s'
  call-Calm _ _ running ok (add clock n c tv s s' clocked e) =
      let (r, f, d) = timeout_add-Set clock n c tv s clocked (ok.timeouts) in
      let same : r ≡ s' = cc (e, f) in
      subst (Calm s) same (
        Set-Calm clock n tv s (update s.cb n (some c)) r running ok
          (λ m g. update_other s.cb n (some c) m g) d)
  call-Calm _ _ running ok (set clock n tv s s' clocked callback e) =
      let (r, f, d) = timeout_set-Set clock n tv s clocked callback (ok.timeouts) in
      let same : r ≡ s' = cc (e, f) in
      subst (Calm s) same (Set-Calm clock n tv s s.cb r running ok (λ m g. refl) d)
  call-Calm _ _ running ok (del n s) =
      Deleted-Calm n s (timeout_del n s) ok (timeout_del-Deleted n s (ok.timeouts) (ok.in_tree n))

  pub Calls-Calm : (s s' : Timeouts C) → IsClock s.now → IsQuiet s → Calls s s' → Calm s s'
  Calls-Calm _ _ running ok (done s) = record {
    quiet = ok;
    same_now = refl;
    fewer = λ among. omega arith;
  }
  Calls-Calm _ _ running ok (further s s' s'' call calls) =
      let first = call-Calm s s' running ok call in
      let rest =
        Calls-Calm s' s'' (subst IsClock (sym (first.same_now)) running) (first.quiet) calls in
      record {
        quiet = rest.quiet;
        same_now = rest.same_now ∙ first.same_now;
        fewer = λ among. omega (arith, first.fewer among, rest.fewer among);
      }
