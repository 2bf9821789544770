-- ===== src/Quic/Pool.antt =====
-- The pool of send buffers of src/quic.c. A buffer of the pool is its position, and each operation is
-- taken as one step.
use tinc_quic.Common.{ℕ, zero, suc, ◌+◌, ◌<◌, ◌≡◌, refl, ap, ◌∙◌, ◌⊎◌, inl, inr, arith, Bool}
use tinc_quic.Common.{true, false, not, Option, none, some, List, [], ◌∷◌, if◌then◌else◌, All}
use tinc_quic.Common.{get_or, replicate, set, get_or-set, length}

pub data PoolBuffer : Type 0 where
  pooled : ℕ → PoolBuffer
  allocated : PoolBuffer

-- `in_use` of the entries, and `buffer_pool_initialized`.
pub record Pool : Type 0 where
  pub initialized : Bool
  pub in_use : List Bool

abbrev pub buffer_pool_size : ℕ
buffer_pool_size = 2048

unfoldable pub init_buffer_pool : Pool → Pool
init_buffer_pool pool =
    if pool.initialized
    then pool
    else record { initialized = true; in_use = replicate buffer_pool_size false }

-- The loop from entry `i` on; `none` if all are in use.
unfoldable pub find_free : ℕ → List Bool → Option ℕ
find_free i [] = none
find_free i (taken ∷ entries) =
    let rest = find_free (i + 1) entries in if taken then rest else some i

unfoldable pub acquire_buffer : Pool → PoolBuffer × Pool
acquire_buffer pool = elim (find_free 0 pool.in_use) [
  | none ↦ (allocated, pool)
  | some i ↦ (pooled i, record pool { in_use = set pool.in_use i true })
]

-- Whether the buffer is freed, and the pool.
unfoldable pub release_buffer : PoolBuffer → Pool → Bool × Pool
release_buffer allocated pool = (true, pool)
release_buffer (pooled i) pool =
    if not pool.initialized
    then (true, pool)
    else (false, record pool { in_use = set pool.in_use i false })

before_next :
    (entries : List Bool) (k : ℕ)
    → ((j : ℕ) → j < k → get_or entries j false ≡ true)
    → (j : ℕ) → j < suc k
    → get_or (true ∷ entries) j false ≡ true
before_next entries k before zero h = refl
before_next entries k before (suc j) h = before j (omega (arith, h))

-- The first free entry, counted from `i`.
find_free_lem :
    (i : ℕ) (entries : List Bool)
    → ((find_free i entries ≡ none) × All (λ b. b ≡ true) entries)
      ⊎ ((k : ℕ) × (find_free i entries ≡ some (i + k))
          × (k < length entries)
          × (get_or entries k true ≡ false)
          × ((j : ℕ) → j < k → get_or entries j false ≡ true)
          × (set (set entries k true) k false ≡ entries))
unfolding find_free
find_free_lem i [] = inl (refl, tt)
find_free_lem i (false ∷ entries) =
    let here : i ≡ i + 0 = omega arith in
    inr (0, ap some here, omega arith, refl, (λ j h. absurd (omega (arith, h))), refl)
find_free_lem i (true ∷ entries) = elim (find_free_lem (i + 1) entries) [
  | inl (e, full) ↦ inl (e, (refl, full))
  | inr (k, e, inside, free, before, back) ↦
      let next : i + 1 + k ≡ i + suc k = omega arith in
      inr (
        suc k,
        e ∙ ap some next,
        omega (arith, inside),
        free,
        (λ j h. before_next entries k before j h),
        ap (λ r. true ∷ r) back,
      )
]

restored : Pool → List Bool → Pool
restored pool in_use = record pool { in_use = in_use }

acquires :
    (pool : Pool) (k : ℕ)
    → find_free 0 pool.in_use ≡ some k
    → acquire_buffer pool ≡ (pooled k, record pool { in_use = set pool.in_use k true })
unfolding acquire_buffer
acquires pool k e = rw (e, acquire_buffer) refl

allocates : (pool : Pool) → find_free 0 pool.in_use ≡ none → acquire_buffer pool ≡ (allocated, pool)
unfolding acquire_buffer
allocates pool e = rw (e, acquire_buffer) refl

releases :
    (pool : Pool) (k : ℕ)
    → pool.initialized ≡ true
    → release_buffer (pooled k) pool ≡ (false, record pool { in_use = set pool.in_use k false })
unfolding release_buffer
releases pool k ready = rw (ready) refl

-- In a pool that is initialized, acquire_buffer gives the first buffer that is not in use, and marks
-- it; releasing that buffer frees nothing and gives the pool as it was. A buffer is allocated only if
-- all of the pool are in use, the pool stays as it is, and releasing that buffer frees it.
pub release_buffer-acquire_buffer :
    (pool : Pool)
    → pool.initialized ≡ true
    → ((i : ℕ) × ((acquire_buffer pool).0 ≡ pooled i)
        × (get_or pool.in_use i true ≡ false)
        × (get_or (acquire_buffer pool).1.in_use i false ≡ true)
        × ((j : ℕ) → j < i → get_or pool.in_use j false ≡ true)
        × (release_buffer (pooled i) ((acquire_buffer pool).1) ≡ (false, pool)))
      ⊎ ((acquire_buffer pool ≡ (allocated, pool))
          × All (λ b. b ≡ true) pool.in_use
          × (release_buffer allocated pool ≡ (true, pool)))
unfolding release_buffer restored
release_buffer-acquire_buffer pool ready = elim (find_free_lem 0 pool.in_use) [
  | inl (e, full) ↦ inr (allocates pool e, full, refl)
  | inr (k, e, inside, free, before, back) ↦
      let taken : Pool = record pool { in_use = set pool.in_use k true } in
      let done = acquires pool k (e ∙ ap some (omega arith)) in
      inl (
        k,
        ap (λ x. x.0) done,
        free,
        ap (λ x. get_or x.1.in_use k false) done
            ∙ ground (arith, get_or-set pool.in_use k k true false inside),
        before,
        ap (λ x. release_buffer (pooled k) (x.1)) done
            ∙ releases taken k ready
            ∙ ap (λ x. (false, restored pool x)) back,
      )
]
