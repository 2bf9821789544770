-- ===== src/Event/Timeouts.antt =====
-- timeout_add, timeout_set, timeout_del and get_time_remaining of src/event.c.
use tinc_quic.Common.{ℕ, zero, suc, ◌+◌, ◌-◌, ◌<◌, arith, Bool, ◌||◌, not, Option, none, some}
use tinc_quic.Common.{List, [], ◌∷◌, ltb, leb, ◌==◌, if◌then◌else◌, ◌>>=◌}
use tinc_quic.Common.Int.{is_negative}
use tinc_quic.Event.{Difference, Timeval, timersub, timeout_compare}
use tinc_quic.Graph.{update}
use tinc_quic.Splay.{SplayTree}
use tinc_quic.Splay.Update.{splay_unlink_node, splay_insert_node}

-- `now`, `timeout_tree`, and the fields `tv` and `cb` of every timeout. `cb` holds the callback with
-- its data.
pub record Timeouts (C : Type 0) : Type 0 where
  pub now : Timeval
  pub tv : ℕ → Timeval
  pub cb : ℕ → Option C
  pub tree : SplayTree

abbrev pub zero_time : Timeval
zero_time = record { tv_sec = 0; tv_usec = 0; in_second = omega arith }

pub carried :
    (a b : Timeval)
    → (if leb 1000000 (a.tv_usec + b.tv_usec)
        then a.tv_usec + b.tv_usec - 1000000
        else a.tv_usec + b.tv_usec)
      < 1000000
carried a b = ground (arith, a.in_second, b.in_second)

unfoldable pub timeradd : Timeval → Timeval → Timeval
timeradd a b =
    let usec = a.tv_usec + b.tv_usec in
    let carry = leb 1000000 usec in
    record {
      tv_sec = a.tv_sec + b.tv_sec + (if carry then 1 else 0);
      tv_usec = if carry then usec - 1000000 else usec;
      in_second = carried a b;
    }

abbrev pub timerisset : Timeval → Bool
timerisset t = not (t.tv_sec == 0) || not (t.tv_usec == 0)

-- `timercmp(a, b, <)`
abbrev pub timer_before : Timeval → Timeval → Bool
timer_before a b = if a.tv_sec == b.tv_sec then ltb a.tv_usec b.tv_usec else ltb a.tv_sec b.tv_sec

-- `node.data` of the nodes of the tree
abbrev pub timeout_data : (ℕ → Timeval) → ℕ → Timeval × ℕ
timeout_data tv n = (tv n, n)

abbrev pub head : List ℕ → Option ℕ
head [] = none
head (n ∷ nodes) = some n

module _ {C : Type 0} where
  abbrev pub data_of : Timeouts C → ℕ → Timeval × ℕ
  data_of s = timeout_data s.tv

  -- `if(!now.tv_sec) gettimeofday(&now, NULL)`
  abbrev pub started : Timeval → Timeouts C → Timeval
  started clock s = if s.now.tv_sec == 0 then clock else s.now

  abbrev pub inserted_timeout :
      Timeval → (ℕ → Timeval) → Timeouts C → Bool × SplayTree → Option (Timeouts C)
  inserted_timeout now tv s (ok, tree) =
      if ok then some (record { now = now; tv = tv; cb = s.cb; tree = tree }) else none

  -- `clock` is what gettimeofday gives. `none` is abort().
  unfoldable pub timeout_set : Timeval → ℕ → Timeval → Timeouts C → Option (Timeouts C)
  timeout_set clock n tv s =
      let unlinked = if timerisset (s.tv n) then splay_unlink_node n s.tree else s.tree in
      let now = started clock s in
      let tv' = update s.tv n (timeradd now tv) in
      inserted_timeout now tv' s (splay_insert_node timeout_compare (timeout_data tv') n unlinked)

  unfoldable pub timeout_add : Timeval → ℕ → C → Timeval → Timeouts C → Option (Timeouts C)
  timeout_add clock n c tv s = timeout_set clock n tv (record s { cb = update s.cb n (some c) })

  unfoldable pub timeout_del : ℕ → Timeouts C → Timeouts C
  timeout_del n s = elim (s.cb n) [
    | none ↦ s
    | some c ↦ record {
      now = s.now;
      tv = update s.tv n zero_time;
      cb = update s.cb n none;
      tree = splay_unlink_node n s.tree;
    }
  ]

  -- `if(timercmp(&timeout->tv, &now, <)) timeout_del(timeout);`
  unfoldable pub expired : ℕ → Timeouts C → Timeouts C
  expired n s = if timer_before (s.tv n) s.now then timeout_del n s else s

  module _ (invoke : C → Timeouts C → Option (Timeouts C)) where
    -- `timeout->cb(timeout->data)`; `none` is a crash or what the callback aborts with.
    unfoldable pub called : ℕ → Timeouts C → Option (Timeouts C)
    called n s = elim (s.cb n) [ none ↦ none | some c ↦ invoke c s ]

    -- The loop of get_time_remaining: the time to wait, if there is a timeout. `none` is also the end
    -- of the fuel.
    unfoldable pub run_timeouts : ℕ → Timeouts C → Option (Option Difference × Timeouts C)
    run_timeouts zero s = none
    run_timeouts (suc fuel) s = elim (head s.tree.thread) [
      | none ↦ some (none, s)
      | some n ↦
          let diff = timersub (s.tv n) s.now in
          if is_negative diff.diff_sec
          then called n s >>= (λ s'. run_timeouts fuel (expired n s'))
          else some (some diff, s)
    ]

    unfoldable pub get_time_remaining :
        ℕ → Timeval → Timeouts C → Option (Option Difference × Timeouts C)
    get_time_remaining fuel clock s = run_timeouts fuel (record s { now = clock })
