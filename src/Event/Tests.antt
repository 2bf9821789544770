-- ===== src/Event/Tests.antt =====
-- Two timeouts that are late; the callback of the first deletes it, that of the second arms it again.
use tinc_quic.Common.{ℕ, zero, suc, ◌<◌, ◌≡◌, refl, ◌≢◌, arith, true, Option, none, some, []}
use tinc_quic.Common.{◌∷◌}
use tinc_quic.Event.{Difference, Timeval, timeout_compare, timersub}
use tinc_quic.Event.Calls.{IsQuiet, count_late, further, del, done, add}
use tinc_quic.Event.Changes.{Set, timeout_set-Set, IsClock, timeout_add-Set}
use tinc_quic.Event.Deletion.{Deleted, timeout_del-Deleted}
use tinc_quic.Event.Invariant.{IsTimeouts}
use tinc_quic.Event.Loop.{Returns, get_time_remaining-Ended}
use tinc_quic.Event.Termination.{Ended, everyone}
use tinc_quic.Event.Timeouts.{Timeouts, get_time_remaining, timeout_del, timeout_set}
use tinc_quic.Event.Timeouts.{timerisset, zero_time, timeout_add}
use tinc_quic.Splay.{branch, empty}
use tinc_quic.Splay.Members.{count_if, member}
use tinc_quic.Splay.TopDown.{inorder_then}

abbrev seconds : ℕ → Timeval
seconds n = record { tv_sec = n; tv_usec = 0; in_second = omega arith }

abbrev two_times : ℕ → Timeval
two_times zero = seconds 3
two_times (suc zero) = seconds 4
two_times (suc (suc n)) = zero_time

abbrev two_callbacks : ℕ → Option ℕ
two_callbacks zero = some 0
two_callbacks (suc zero) = some 1
two_callbacks (suc (suc n)) = none

abbrev two_timeouts : Timeouts ℕ
two_timeouts = record {
  now = seconds 2;
  tv = two_times;
  cb = two_callbacks;
  tree = record {
    root = branch empty 0 (branch empty 1 empty);
    thread = 0 ∷ 1 ∷ [];
    count = 2;
    generation = 2;
  };
}

abbrev call_back : ℕ → Timeouts ℕ → Option (Timeouts ℕ)
call_back zero s = some (timeout_del 0 s)
call_back (suc n) s = timeout_add (seconds 9) (suc n) (suc n) (seconds 5) s

call_back-Returns : Returns call_back
call_back-Returns zero s ok running = (timeout_del 0 s, refl, further s _ _ (del 0 s) (done _))
call_back-Returns (suc n) s ok running =
    let clocked : IsClock (seconds 9) = omega arith in
    let (s', e, d) =
      timeout_add-Set (seconds 9) (suc n) (suc n) (seconds 5) s clocked (ok.timeouts) in
    (s', e, further s s' s' (add (seconds 9) (suc n) (suc n) (seconds 5) s s' clocked e) (done s'))

two-linked : (n : ℕ) → timerisset (two_times n) ≡ member n (0 ∷ 1 ∷ [])
unfolding member
two-linked zero = refl
two-linked (suc zero) = refl
two-linked (suc (suc n)) = ground arith

two-armed : (n : ℕ) → member n (0 ∷ 1 ∷ []) ≡ true → two_callbacks n ≢ none
unfolding member
two-armed zero h = λ z. absurd cc
two-armed (suc zero) h = λ z. absurd cc
two-armed (suc (suc n)) h = absurd (ground (arith, h))

two-in_tree : (n : ℕ) → two_callbacks n ≢ none → member n (0 ∷ 1 ∷ []) ≡ true
unfolding member
two-in_tree zero h = refl
two-in_tree (suc zero) h = refl
two-in_tree (suc (suc n)) h = absurd (h refl)

two_timeouts-IsTimeouts : IsTimeouts two_timeouts
unfolding timeout_compare timersub inorder_then
two_timeouts-IsTimeouts = record {
  sorted = record { threaded = refl; ordered = ((refl, tt), (tt, tt)); counted = refl };
  linked = two-linked;
  armed = two-armed;
}

two_timeouts-IsQuiet : IsQuiet two_timeouts
two_timeouts-IsQuiet = record { timeouts = two_timeouts-IsTimeouts; in_tree = two-in_tree }

two_late : count_late everyone (record two_timeouts { now = seconds 9 }) < 3
unfolding count_if
two_late = omega arith

get_time_remaining-Ended_example :
    (diff : Option Difference) × (s' : Timeouts ℕ) × (get_time_remaining call_back 3
        (seconds 9)
        two_timeouts
      ≡ some (diff, s'))
    × Ended (record two_timeouts { now = seconds 9 }) diff s'
get_time_remaining-Ended_example =
    get_time_remaining-Ended call_back 3 (seconds 9) two_timeouts call_back-Returns
      two_timeouts-IsQuiet (omega arith) two_late

timeout_set-Set_example :
    (s' : Timeouts ℕ) × (timeout_set (seconds 9) 1 (seconds 5) two_timeouts ≡ some s')
    × Set (seconds 9) 1 (seconds 5) two_timeouts s'
unfolding member
timeout_set-Set_example =
    timeout_set-Set (seconds 9) 1 (seconds 5) two_timeouts (omega arith) (two-armed 1 refl)
      two_timeouts-IsTimeouts

timeout_del-Deleted_example : Deleted 1 two_timeouts (timeout_del 1 two_timeouts)
timeout_del-Deleted_example =
    timeout_del-Deleted 1 two_timeouts two_timeouts-IsTimeouts (two-in_tree 1)
