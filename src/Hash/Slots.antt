-- ===== src/Hash/Slots.antt =====
-- What an operation does to its slot and to the others.
use tinc_quic.Common.{ℕ, zero, suc, ◌-◌, ◌*◌, ◌/◌, ◌%◌, ◌^◌, ◌<◌, ◌≡◌, ◌∙◌, arith, none, some}
use tinc_quic.Common.{List, [], ltb, ◌==◌, if◌then◌else◌, length, replicate, bit_xor-lt, u32}
use tinc_quic.Common.{bit_xor, bytes_eq, get_or-set, length-set, get_or-replicate}
use tinc_quic.Common.{length-replicate, bytes_eq_self}
use tinc_quic.Hash.{HashTable, hash_insert, hash_alloc, hash_rounds, hash_search, index, modulo}
use tinc_quic.Hash.{hash_delete, hash_function, matching, add_bytes, hash_clear, golden}

hash_rounds-lt :
    (fuel : ℕ) (q : List ℕ) (len hash : ℕ) → hash < 2 ^ 32 → hash_rounds fuel q len hash < 2 ^ 32
unfolding hash_rounds
hash_rounds-lt zero q len hash h = h
hash_rounds-lt (suc fuel) q len hash h =
    let first = if ltb 4 len then 4 else len in
    let hash' = u32 (add_bytes q len (first - 1) hash * golden) in
    ground (arith, hash_rounds-lt fuel q (len - 4) hash')

-- The hash is reduced to an index, whatever the number of slots.
pub modulo-lt : (hash n : ℕ) → hash < 2 ^ 32 → 0 < n → modulo hash n < n
unfolding modulo
modulo-lt hash n h pos =
    let a = hash / 2 ^ 24 in
    let b = hash / 2 ^ 16 % 2 ^ 8 in
    let c = hash / 2 ^ 8 % 2 ^ 8 in
    ground (
      arith,
      bit_xor-lt 8 a b,
      bit_xor-lt 8 (bit_xor a b) c,
      bit_xor-lt 8 (bit_xor (bit_xor a b) c) (hash % 2 ^ 8),
      bit_xor-lt 16 (hash / 2 ^ 16) (hash % 2 ^ 16),
    )

-- The table has slots, and its arrays have that many.
pub record IsSized {ℓ} {V : Type ℓ} (hash : HashTable V) : Type ℓ where
  pub some_slots : 0 < hash.n
  pub key_slots : length hash.keys ≡ hash.n
  pub value_slots : length hash.values ≡ hash.n

module _ {ℓ} {V : Type ℓ} where
  pub hash_alloc-IsSized : (n size : ℕ) → 0 < n → IsSized (hash_alloc {V = V} n size)
  unfolding hash_alloc
  hash_alloc-IsSized n size h = record {
    some_slots = h;
    key_slots = length-replicate n (replicate size 0);
    value_slots = length-replicate n none;
  }

  index-lt : (hash : HashTable V) (key : List ℕ) → 0 < hash.n → index hash key < hash.n
  unfolding index hash_function
  index-lt hash key pos =
      modulo-lt (hash_rounds hash.size key hash.size 0) hash.n
        (hash_rounds-lt hash.size key hash.size 0 (omega arith)) pos

  pub hash_clear-IsSized : (hash : HashTable V) → IsSized hash → IsSized (hash_clear hash)
  unfolding hash_clear
  hash_clear-IsSized hash s = record {
    some_slots = s.some_slots;
    key_slots = s.key_slots;
    value_slots = length-replicate (length hash.values) none ∙ s.value_slots;
  }

  -- Insertion, deletion and clearing keep sound arrays as long as the table says; every key has a
  -- slot in them.
  pub hash_operations-IsSized :
      (hash : HashTable V) (key : List ℕ) (value : V)
      → IsSized hash
      → IsSized (hash_insert hash key value)
        × IsSized (hash_delete hash key)
        × IsSized (hash_clear hash)
        × (index hash key < length hash.keys)
        × (index hash key < length hash.values)
  unfolding hash_insert hash_delete hash_clear
  hash_operations-IsSized hash key value s = (
    record {
      some_slots = s.some_slots;
      key_slots = length-set hash.keys (index hash key) key ∙ s.key_slots;
      value_slots = length-set hash.values (index hash key) (some value) ∙ s.value_slots;
    },
    record {
      some_slots = s.some_slots;
      key_slots = s.key_slots;
      value_slots = length-set hash.values (index hash key) none ∙ s.value_slots;
    },
    hash_clear-IsSized hash s,
    omega (arith, s.key_slots, index-lt hash key s.some_slots),
    omega (arith, s.value_slots, index-lt hash key s.some_slots),
  )

  -- In a table with sound arrays, after an insertion its key is found with its value; another key of the same slot is not found
  -- any more, and a key of another slot is found as before.
  pub hash_search-hash_insert :
      (hash : HashTable V) (key other : List ℕ) (value : V)
      → IsSized hash
      → hash_search (hash_insert hash key value) other ≡ (
          if index hash key == index hash other
          then (if bytes_eq other key then some value else none)
          else hash_search hash other)
  unfolding hash_search hash_insert index matching
  hash_search-hash_insert hash key other value s =
      let (_, _, _, in_keys, in_values) = hash_operations-IsSized hash key value s in
      ground (
        arith,
        get_or-set hash.keys (index hash key) (index hash other) key [] in_keys,
        get_or-set hash.values (index hash key) (index hash other) (some value) none in_values,
      )

  pub hash_insert_found :
      (hash : HashTable V) (key : List ℕ) (value : V)
      → IsSized hash
      → hash_search (hash_insert hash key value) key ≡ some value
  hash_insert_found hash key value s =
      ground (arith, hash_search-hash_insert hash key key value s, bytes_eq_self key)

  -- In a table with sound arrays, deleting a key empties its slot, whichever key was in it, and leaves the other slots; clearing
  -- the table empties all.
  pub hash_search-hash_delete :
      (hash : HashTable V) (key other : List ℕ)
      → IsSized hash
      → (hash_search (hash_delete hash key) other
          ≡ (if index hash key == index hash other then none else hash_search hash other))
        × (hash_search (hash_clear hash) other ≡ none)
  unfolding hash_search hash_delete hash_clear index matching
  hash_search-hash_delete hash key other s = (
    ground (
      arith,
      get_or-set hash.values (index hash key) (index hash other) none none
          (omega (arith, s.value_slots, index-lt hash key s.some_slots)),
    ),
    rw get_or-replicate,
  )
