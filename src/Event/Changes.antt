-- ===== src/Event/Changes.antt =====
-- timeout_set and timeout_add succeed and keep the invariant.
use tinc_quic.Common.{ℕ, ◌≤◌, ◌<◌, ◌≡◌, refl, sym, ap, ◌∙◌, ◌≢◌, inl, inr, arith, Bool, false}
use tinc_quic.Common.{◌||◌, none, some, ◌==◌, if◌then◌else◌, ==_iff, Bool-cases}
use mathlib.Core.Path.{subst}
use tinc_quic.Event.{Timeval, timeout_compare}
use tinc_quic.Event.Invariant.{IsTimeouts, Without, set_unlinked, retimed-IsTree}
use tinc_quic.Event.Invariant.{unequal_missing, update_same, timeradd_set, update_other}
use tinc_quic.Event.Order.{compare-IsOrder}
use tinc_quic.Event.Timeouts.{timeout_set, Timeouts, started, timerisset, timeradd, data_of}
use tinc_quic.Event.Timeouts.{timeout_data, timeout_add}
use tinc_quic.Graph.{update}
use tinc_quic.Splay.{SplayTree}
use tinc_quic.Splay.Insert.{insert_node-sorted}
use tinc_quic.Splay.Members.{member, count_if, member-insert_sorted, count_if-insert_sorted}
use tinc_quic.Splay.Search.{find, insert_sorted, IsTree}
use tinc_quic.Splay.Update.{splay_unlink_node, splay_insert_node}

-- The time since the epoch is not 0.
abbrev pub IsClock : Timeval → Type 0
IsClock clock = 0 < clock.tv_sec

module _ {C : Type 0} where
  started-IsClock : (clock : Timeval) (s : Timeouts C) → IsClock clock → IsClock (started clock s)
  started-IsClock clock s h = ground (arith, h)

  -- What timeout_set changes.
  pub record Set (clock : Timeval) (n : ℕ) (tv : Timeval) (s s' : Timeouts C) : Type 0 where
    pub kept : IsTimeouts s'
    pub set_now : s'.now ≡ started clock s
    pub set_tv : s'.tv ≡ update s.tv n (timeradd (started clock s) tv)
    pub set_cb : s'.cb ≡ s.cb
    pub set_members : (m : ℕ) → member m s'.tree.thread ≡ ((n == m) || member m s.tree.thread)
    pub set_count :
        (test : ℕ → Bool)
        → test n ≡ false
        → count_if test s'.tree.thread ≤ count_if test s.tree.thread

  -- The state that timeout_set ends with.
  abbrev set_state : Timeval → ℕ → Timeval → Timeouts C → SplayTree → Timeouts C
  set_state clock n tv s tree = record {
    now = started clock s;
    tv = update s.tv n (timeradd (started clock s) tv);
    cb = s.cb;
    tree = tree;
  }

  inserted-Set :
      (clock : Timeval) (n : ℕ) (tv : Timeval) (s : Timeouts C) (tree tree' : SplayTree)
      → IsClock clock
      → s.cb n ≢ none
      → IsTimeouts s
      → Without n s tree
      → find timeout_compare
          (data_of (set_state clock n tv s tree))
          (data_of (set_state clock n tv s tree) n)
          tree.thread
        ≡ none
      → tree'.thread
        ≡ insert_sorted timeout_compare (data_of (set_state clock n tv s tree)) n tree.thread
      → IsTree timeout_compare (data_of (set_state clock n tv s tree)) tree'
      → Set clock n tv s (set_state clock n tv s tree')
  inserted-Set clock n tv s tree tree' c callback ok w missing threads sorted =
      let t : Timeval = timeradd (started clock s) tv in
      let data_now : ℕ → Timeval × ℕ = data_of (set_state clock n tv s tree) in
      let members : (m : ℕ) → member m tree'.thread ≡ ((n == m) || member m s.tree.thread) = λ m.
        ap (member m) threads
        ∙ member-insert_sorted timeout_compare data_now m n tree.thread missing
        ∙ ground (arith, w.members m) in
      record {
        kept = record {
          sorted = sorted;
          linked = λ m. elim (Bool-cases (n == m)) [
            | inl e ↦
                let same : n ≡ m = (==_iff n m).0 e in
                ap timerisset (sym (ap (update s.tv n t) same) ∙ update_same s.tv n t)
                ∙ timeradd_set (started clock s) tv (started-IsClock clock s c)
                ∙ sym (members m ∙ ap (λ b. b || member m s.tree.thread) e)
            | inr e ↦
                ap timerisset (update_other s.tv n t m e)
                ∙ ok.linked m
                ∙ sym (members m ∙ ap (λ b. b || member m s.tree.thread) e)
          ];
          armed = λ m h. elim (Bool-cases (n == m)) [
            | inl e ↦ subst (λ k. s.cb k ≢ none) ((==_iff n m).0 e) callback
            | inr e ↦ ok.armed m (sym (members m ∙ ap (λ b. b || member m s.tree.thread) e) ∙ h)
          ];
        };
        set_now = refl;
        set_tv = refl;
        set_cb = refl;
        set_members = members;
        set_count = λ test h. omega (
          arith,
          w.no_more test,
          ap (count_if test) threads,
          count_if-insert_sorted timeout_compare data_now test n tree.thread h,
        );
      }

  -- For a clock that is not at 0 and a timeout that has a callback, in a state that satisfies the
  -- invariant of the timeouts, timeout_set does not abort: it arms the timeout for that long after
  -- `now`, whether or not it was armed, keeps the other times and all callbacks, and the invariant.
  pub timeout_set-Set :
      (clock : Timeval) (n : ℕ) (tv : Timeval) (s : Timeouts C)
      → IsClock clock
      → s.cb n ≢ none
      → IsTimeouts s
      → (s' : Timeouts C) × (timeout_set clock n tv s ≡ some s') × Set clock n tv s s'
  unfolding timeout_set
  timeout_set-Set clock n tv s c callback ok =
      let tree : SplayTree = if timerisset (s.tv n) then splay_unlink_node n s.tree else s.tree in
      let w = set_unlinked n s ok in
      let t : Timeval = timeradd (started clock s) tv in
      let data_now : ℕ → Timeval × ℕ = timeout_data (update s.tv n t) in
      let sorted = retimed-IsTree n s t tree w in
      let gone : member n tree.thread ≡ false = w.members n ∙ rw ((==_iff n n).1 refl) refl in
      let missing = unequal_missing (update s.tv n t) n tree.thread gone in
      let (threads, sorted', succeeds) =
        insert_node-sorted timeout_compare data_now compare-IsOrder n tree sorted in
      let result = splay_insert_node timeout_compare data_now n tree in
      (
        set_state clock n tv s (result.1),
        rw (succeeds.1 missing) refl,
        inserted-Set clock n tv s tree (result.1) c callback ok w missing threads sorted',
      )

  added_callback-IsTimeouts :
      (n : ℕ) (c : C) (s : Timeouts C)
      → IsTimeouts s
      → IsTimeouts (record s { cb = update s.cb n (some c) })
  added_callback-IsTimeouts n c s ok = record {
    sorted = ok.sorted;
    linked = ok.linked;
    armed = λ m h. elim (Bool-cases (n == m)) [
      | inl e ↦
          subst (λ k. update s.cb n (some c) k ≢ none) ((==_iff n m).0 e)
            (λ z. absurd (cc (z, update_same s.cb n (some c))))
      | inr e ↦ λ z. ok.armed m h (sym (update_other s.cb n (some c) m e) ∙ z)
    ];
  }

  pub timeout_add-Set :
      (clock : Timeval) (n : ℕ) (c : C) (tv : Timeval) (s : Timeouts C)
      → IsClock clock
      → IsTimeouts s
      → (s' : Timeouts C) × (timeout_add clock n c tv s ≡ some s')
        × Set clock n tv (record s { cb = update s.cb n (some c) }) s'
  unfolding timeout_add
  timeout_add-Set clock n c tv s clocked ok =
      timeout_set-Set clock n tv (record s { cb = update s.cb n (some c) }) clocked
        (λ z. absurd (cc (z, update_same s.cb n (some c)))) (added_callback-IsTimeouts n c s ok)
