-- ===== src/Event/Order.antt =====
-- timeout_compare orders the timeouts.
use tinc_quic.Common.{ℕ, ◌+◌, ◌*◌, ◌<◌, ◌≡◌, refl, sym, ◌↔◌, ◌⊎◌, arith, ltb, if◌then◌else◌}
use Prim.Native.Nat.{Ordering, lt, gt, eq}
use tinc_quic.Event.{Timeval, timeout_compare, timersub}
use tinc_quic.Splay.{sign}
use tinc_quic.Splay.Order.{IsOrder}

-- A time, in microseconds.
abbrev pub micros : Timeval → ℕ
micros t = t.tv_sec * 1000000 + t.tv_usec

abbrev by_number : ℕ → ℕ → Ordering
by_number m n = if ltb m n then lt else if ltb n m then gt else eq

abbrev lexicographic : ℕ → ℕ → ℕ → ℕ → Ordering
lexicographic k l m n = if ltb k l then lt else if ltb l k then gt else by_number m n

compare_lexicographic :
    (a b : Timeval) (m n : ℕ)
    → sign (timeout_compare (a, m) (b, n)) ≡ lexicographic (micros a) (micros b) m n
unfolding timeout_compare timersub
compare_lexicographic a b m n = ground (arith, a.in_second, b.in_second)

abbrev Less : ℕ → ℕ → ℕ → ℕ → Type 0
Less k l m n = (k < l) ⊎ ((k ≡ l) × (m < n))

lexicographic-lt : (k l m n : ℕ) → (lexicographic k l m n ≡ lt) ↔ Less k l m n
lexicographic-lt k l m n = ground arith

lexicographic-gt : (k l m n : ℕ) → (lexicographic k l m n ≡ gt) ↔ Less l k n m
lexicographic-gt k l m n = ground arith

lexicographic-eq : (k l m n : ℕ) → (lexicographic k l m n ≡ eq) ↔ ((k ≡ l) × (m ≡ n))
lexicographic-eq k l m n = ground arith

-- One timeout stands before another: it is due earlier, or at the same time with a lower address.
abbrev pub Earlier : Timeval × ℕ → Timeval × ℕ → Type 0
Earlier x y = Less (micros (x.0)) (micros (y.0)) (x.1) (y.1)

pub compare_lt : (x y : Timeval × ℕ) → (sign (timeout_compare x y) ≡ lt) ↔ Earlier x y
compare_lt (a, m) (b, n) =
    rw (compare_lexicographic a b m n) (lexicographic-lt (micros a) (micros b) m n)

pub compare_gt : (x y : Timeval × ℕ) → (sign (timeout_compare x y) ≡ gt) ↔ Earlier y x
compare_gt (a, m) (b, n) =
    rw (compare_lexicographic a b m n) (lexicographic-gt (micros a) (micros b) m n)

pub compare_eq :
    (x y : Timeval × ℕ)
    → (sign (timeout_compare x y) ≡ eq) ↔ ((micros (x.0) ≡ micros (y.0)) × (x.1 ≡ y.1))
compare_eq (a, m) (b, n) =
    rw (compare_lexicographic a b m n) (lexicographic-eq (micros a) (micros b) m n)

pub compare-IsOrder : IsOrder timeout_compare
compare-IsOrder = record {
  self = λ a. (compare_eq a a).1 (refl, refl);
  flip_lt = λ a b h. (compare_gt b a).1 ((compare_lt a b).0 h);
  flip_gt = λ a b h. (compare_lt b a).1 ((compare_gt a b).0 h);
  flip_eq = λ a b h. let (e, f) = (compare_eq a b).0 h in (compare_eq b a).1 (sym e, sym f);
  lt_lt =
      λ a b c h k. (compare_lt a c).1 (ground (arith, (compare_lt a b).0 h, (compare_lt b c).0 k));
  eq_lt =
      λ a b c h k. (compare_lt a c).1 (ground (arith, (compare_eq a b).0 h, (compare_lt b c).0 k));
  lt_eq =
      λ a b c h k. (compare_lt a c).1 (ground (arith, (compare_lt a b).0 h, (compare_eq b c).0 k));
}
