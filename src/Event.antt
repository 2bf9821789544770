-- ===== src/Event.antt =====
-- The timeouts of src/event.c, with timeradd and timersub of src/dropin.h. A timeout is its address,
-- a number, and the fields of all timeouts are functions of it; `C` is a callback with its data.
pub mod Order
pub mod Timeouts
pub mod Invariant
pub mod Changes
pub mod Deletion
pub mod Calls
pub mod Termination
pub mod Loop
pub mod Tests
use tinc_quic.Common.{ℕ, zero, suc, ◌+◌, ◌-◌, ◌*◌, ◌/◌, ◌%◌, ◌^◌, ◌≤◌, ◌<◌, bit_and, bit_or}
use tinc_quic.Common.{◌≡◌, refl, sym, ap, ◌∙◌, ◌≢◌, ◌↔◌, ◌⊎◌, inl, inr, arith, Bool, true}
use tinc_quic.Common.{false, ◌&&◌, ◌||◌, not, Option, none, some, List, [], ◌∷◌, ◌++◌, map, ltb}
use tinc_quic.Common.{leb, ◌==◌, if◌then◌else◌, ◌>>=◌}
use tinc_quic.Common.Int.{ℤ, pos, negsuc, sub_ℕ, is_negative}

-- `struct timeval`, with less than a million microseconds.
pub record Timeval : Type 0 where
  pub tv_sec : ℕ
  pub tv_usec : ℕ
  pub in_second : tv_usec < 1000000

-- A difference of two times, which may be negative.
pub record Difference : Type 0 where
  pub diff_sec : ℤ
  pub diff_usec : ℤ

abbrev pub add_ℕ : ℤ → ℕ → ℤ
add_ℕ (pos m) n = pos (m + n)
add_ℕ (negsuc m) n = sub_ℕ n (suc m)

abbrev pub pred_ℤ : ℤ → ℤ
pred_ℤ (pos zero) = negsuc 0
pred_ℤ (pos (suc n)) = pos n
pred_ℤ (negsuc n) = negsuc (suc n)

abbrev pub is_positive : ℤ → Bool
is_positive (pos zero) = false
is_positive (pos (suc n)) = true
is_positive (negsuc n) = false

unfoldable pub timersub : Timeval → Timeval → Difference
timersub a b =
    let sec = sub_ℕ a.tv_sec b.tv_sec in
    let usec = sub_ℕ a.tv_usec b.tv_usec in
    if is_negative usec
    then record { diff_sec = pred_ℤ sec; diff_usec = add_ℕ usec 1000000 }
    else record { diff_sec = sec; diff_usec = usec }

-- `a->tv < b->tv` and the rest of timeout_compare, for two timeouts with their addresses.
unfoldable pub timeout_compare : Timeval × ℕ → Timeval × ℕ → ℤ
timeout_compare (a, m) (b, n) =
    let diff = timersub a b in
    if is_negative diff.diff_sec
    then negsuc 0
    else if is_positive diff.diff_sec
    then pos 1
    else if is_negative diff.diff_usec
    then negsuc 0
    else if is_positive diff.diff_usec
    then pos 1
    else if ltb m n
    then negsuc 0
    else if ltb n m
    then pos 1
    else pos 0
