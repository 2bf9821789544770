-- ===== src/Event/Deletion.antt =====
-- timeout_del keeps the invariant.
use tinc_quic.Common.{ℕ, ◌≤◌, ◌≡◌, refl, sym, ap, ◌∙◌, ◌≢◌, inl, inr, arith, Bool, true, false}
use tinc_quic.Common.{none, ◌==◌, if◌then◌else◌, ==_iff, Bool-cases, Option-cases}
use mathlib.Core.Path.{subst, fun_ext}
use tinc_quic.Event.Invariant.{IsTimeouts, Without, retimed-IsTree, update_same, update_other}
use tinc_quic.Event.Invariant.{untouched-Without, unlinked-Without}
use tinc_quic.Event.Timeouts.{Timeouts, timerisset, timeout_del, zero_time}
use tinc_quic.Graph.{update}
use tinc_quic.Splay.Members.{member, count_if}
use tinc_quic.Splay.Update.{splay_unlink_node}

module _ {C : Type 0} where
  -- What timeout_del changes.
  pub record Deleted (n : ℕ) (s s' : Timeouts C) : Type 0 where
    pub left : IsTimeouts s'
    pub del_now : s'.now ≡ s.now
    pub del_tv : (m : ℕ) → (n == m) ≡ false → s'.tv m ≡ s.tv m
    pub del_members :
        (m : ℕ) → member m s'.tree.thread ≡ (if n == m then false else member m s.tree.thread)
    pub del_count : (test : ℕ → Bool) → count_if test s'.tree.thread ≤ count_if test s.tree.thread
    pub del_cb : s'.cb ≡ update s.cb n none

  disarmed-Deleted :
      (n : ℕ) (s : Timeouts C)
      → IsTimeouts s
      → Without n s (splay_unlink_node n s.tree)
      → Deleted n s (record {
        now = s.now;
        tv = update s.tv n zero_time;
        cb = update s.cb n none;
        tree = splay_unlink_node n s.tree;
      })
  disarmed-Deleted n s ok w =
      let thread = (splay_unlink_node n s.tree).thread in
      let apart : (m : ℕ) → member m thread ≡ true → (n == m) ≡ false =
        λ m h. ground (arith, h, w.members m) in
      record {
        left = record {
          sorted = retimed-IsTree n s zero_time (splay_unlink_node n s.tree) w;
          linked = λ m. elim (Bool-cases (n == m)) [
            | inl e ↦
                let same = (==_iff n m).0 e in
                subst (λ k. timerisset (update s.tv n zero_time k) ≡ member k thread) same
                  (ap timerisset (update_same s.tv n zero_time)
                    ∙ sym (w.members n ∙ rw ((==_iff n n).1 refl) refl))
            | inr e ↦
                ap timerisset (update_other s.tv n zero_time m e)
                ∙ ok.linked m
                ∙ sym (w.members m ∙ rw (e) refl)
          ];
          armed = λ m h z.
              let e = apart m h in
              ok.armed m (sym (w.members m ∙ rw (e) refl) ∙ h)
                (sym (update_other s.cb n none m e) ∙ z);
        };
        del_now = refl;
        del_tv = λ m e. update_other s.tv n zero_time m e;
        del_members = w.members;
        del_count = w.no_more;
        del_cb = refl;
      }

  -- In a state that satisfies the invariant of the timeouts, timeout_del takes a timeout, which is in
  -- the tree if it has a callback, out of the tree, clears its callback, keeps the other times and
  -- callbacks, and the invariant.
  pub timeout_del-Deleted :
      (n : ℕ) (s : Timeouts C)
      → IsTimeouts s
      → (s.cb n ≢ none → member n s.tree.thread ≡ true)
      → Deleted n s (timeout_del n s)
  unfolding timeout_del
  timeout_del-Deleted n s ok in_tree = elim (Option-cases (s.cb n)) [
    | inl e ↦
        let gone : member n s.tree.thread ≡ false = elim (Bool-cases (member n s.tree.thread)) [
          | inl there ↦ absurd (ok.armed n there e)
          | inr f ↦ f
        ] in
        let w = untouched-Without n s ok gone in
        let cb_here : (m : ℕ) → s.cb m ≡ update s.cb n none m = λ m. elim (Bool-cases (n == m)) [
          | inl f ↦
              let same = (==_iff n m).0 f in
              subst (λ k. s.cb k ≡ update s.cb n none k) same (e ∙ sym (update_same s.cb n none))
          | inr f ↦ sym (update_other s.cb n none m f)
        ] in
        rw (e, timeout_del)
          (record {
            left = ok;
            del_now = refl;
            del_tv = λ m h. refl;
            del_members = w.members;
            del_count = w.no_more;
            del_cb = fun_ext (λ m. cb_here m);
          })
    | inr (c, e) ↦
        let there = in_tree (λ z. absurd (cc (z, e))) in
        rw (e, timeout_del) (disarmed-Deleted n s ok (unlinked-Without n s ok there))
  ]
