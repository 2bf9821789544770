-- ===== src/Route/Limit.antt =====
-- ratelimit of src/route.c over a sequence of calls.
use tinc_quic.Common.{ℕ, ◌+◌, ◌≤◌, ◌<◌, ◌≡◌, refl, sym, ◌⊎◌, inl, inr, arith, true, false, ◌&&◌}
use tinc_quic.Common.{not, List, [], ◌∷◌, ◌==◌, if◌then◌else◌}
use mathlib.Core.Path.{subst}
use tinc_quic.Route.{Limiter, ratelimit}

-- The times of the calls do not run backwards.
abbrev pub Ascending : ℕ → List ℕ → Type 0
Ascending last [] = Unit
Ascending last (now ∷ times) = (last ≤ now) × Ascending now times

-- How many of the calls at these times are let through at `second`.
pub passed : ℕ → ℕ → Limiter → List ℕ → ℕ
passed frequency second s [] = 0
passed frequency second s (now ∷ times) =
    let (limited, s') = ratelimit frequency now s in
    (if not limited && now == second then 1 else 0) + passed frequency second s' times

-- No call at a second that is over.
passed-over :
    (frequency second : ℕ) (s : Limiter) (times : List ℕ) (last : ℕ)
    → second < last
    → Ascending last times
    → passed frequency second s times ≡ 0
unfolding passed
passed-over frequency second s [] last over up = refl
passed-over frequency second s (now ∷ times) last over up = ground (
  arith,
  passed-over frequency second ((ratelimit frequency now s).1) times now (omega (arith, over, up.0))
      (up.1),
  over,
  up.0,
)

ratelimit_cases :
    (frequency now : ℕ) (s : Limiter)
    → s.lasttime ≤ now
    → ((s.lasttime ≡ now) × (frequency ≤ s.count) × (ratelimit frequency now s ≡ (true, s)))
      ⊎ (((s.lasttime ≡ now)
            × (s.count < frequency)
            × (ratelimit frequency now s ≡ (false, record { lasttime = now; count = s.count + 1 })))
          ⊎ ((s.lasttime < now)
              × (ratelimit frequency now s ≡ (false, record { lasttime = now; count = 1 }))))
unfolding ratelimit
ratelimit_cases frequency now s h = ground (arith, h)

-- With what was counted already.
passed-bound :
    (frequency second : ℕ) (s : Limiter) (times : List ℕ)
    → 0 < frequency
    → s.count ≤ frequency
    → Ascending s.lasttime times
    → (s.lasttime ≡ second → passed frequency second s times + s.count ≤ frequency)
      × (passed frequency second s times ≤ frequency)
unfolding passed
passed-bound frequency second s [] some_rate h up = (λ e. omega (arith, h), omega arith)
passed-bound frequency second s (now ∷ times) some_rate h up =
    elim (ratelimit_cases frequency now s (up.0)) [
      | inl (same_second, full, e) ↦
          let up' = subst (λ t. Ascending t times) (sym same_second) (up.1) in
          let (here, all) = passed-bound frequency second s times some_rate h up' in
          rw (e) (λ e'. omega (arith, here e'), omega (arith, all))
      | inr (inl (same_second, room, e)) ↦
          let (here, all) =
            passed-bound frequency second (record { lasttime = now; count = s.count + 1 }) times
              some_rate (omega (arith, room)) (up.1) in
          rw (e) (ground (arith, here, all, same_second, h))
      | inr (inr (later, e)) ↦
          let (here, all) =
            passed-bound frequency second (record { lasttime = now; count = 1 }) times some_rate
              (omega (arith, some_rate)) (up.1) in
          let over : second < now
              → passed frequency second (record { lasttime = now; count = 1 }) times ≡ 0 =
            λ o.
              passed-over frequency second (record { lasttime = now; count = 1 }) times now o
                (up.1) in
          rw (e) (ground (arith, here, all, later, h, over))
    ]

-- If the clock does not run backwards, then of all calls that are made within one second with one
-- frequency that is not 0, ratelimit lets at most that many through.
pub ratelimit-passed :
    (frequency second : ℕ) (times : List ℕ)
    → 0 < frequency
    → Ascending 0 times
    → passed frequency second (record { lasttime = 0; count = 0 }) times ≤ frequency
ratelimit-passed frequency second times some_rate up =
    (passed-bound frequency second (record { lasttime = 0; count = 0 }) times some_rate
      (omega arith) up).1
