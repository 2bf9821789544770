-- ===== src/Hash.antt =====
-- src/hash.c: the direct-mapped tables of the subnet cache. A slot holds one key and one value; an
-- insertion overwrites whatever its slot held. A NULL value is `none`, an empty slot. Keys have as
-- many bytes as the table says, which are 4, 6 or 16.
pub mod Slots
mod Tests
use tinc_quic.Common.{ℕ, zero, suc, ◌+◌, ◌-◌, ◌*◌, ◌/◌, ◌%◌, ◌^◌, ◌≤◌, ◌<◌, bit_and, bit_or}
use tinc_quic.Common.{◌≡◌, refl, sym, ap, ◌∙◌, ◌≢◌, ◌↔◌, ◌⊎◌, inl, inr, arith, Bool, true}
use tinc_quic.Common.{false, ◌&&◌, ◌||◌, not, Option, none, some, List, [], ◌∷◌, ◌++◌, map, ltb}
use tinc_quic.Common.{leb, ◌==◌, if◌then◌else◌, ◌>>=◌, bit_xor, bytes_eq, get_or, replicate}
use tinc_quic.Common.{set, u32, length}

pub record HashTable {ℓ} (V : Type ℓ) : Type ℓ where
  pub n : ℕ
  pub size : ℕ
  pub keys : List (List ℕ)
  pub values : List (Option V)

-- The golden ratio prime
abbrev pub golden : ℕ
golden = 0x9e370001

-- The inner loop, `i` more bytes to go: `hash += q[len - i] << (8 * i)`.
pub add_bytes : List ℕ → ℕ → ℕ → ℕ → ℕ
add_bytes q len zero hash = hash
add_bytes q len (suc i) hash =
    add_bytes q len i (u32 (hash + u32 (get_or q (len - suc i) 0 * 2 ^ (8 * suc i))))

-- The outer loop. It runs a round for every four bytes, so `len` rounds are enough.
pub hash_rounds : ℕ → List ℕ → ℕ → ℕ → ℕ
hash_rounds zero q len hash = hash
hash_rounds (suc fuel) q len hash =
    let first = if ltb 4 len then 4 else len in
    let hash' = u32 (add_bytes q len (first - 1) hash * golden) in
    let rest = hash_rounds fuel q (len - 4) hash' in if leb len 4 then hash' else rest

unfoldable pub hash_function : List ℕ → ℕ → ℕ
hash_function p len = hash_rounds len p len 0

unfoldable pub modulo : ℕ → ℕ → ℕ
modulo hash n =
    if n == 0x100
    then bit_xor (bit_xor (bit_xor (hash / 2 ^ 24) (hash / 2 ^ 16 % 2 ^ 8)) (hash / 2 ^ 8 % 2 ^ 8))
        (hash % 2 ^ 8)
    else if n == 0x10000
    then bit_xor (hash / 2 ^ 16) (hash % 2 ^ 16)
    else hash % n

module _ {ℓ} {V : Type ℓ} where
  -- `xzalloc`: keys of zeros, no values.
  unfoldable pub hash_alloc : ℕ → ℕ → HashTable V
  hash_alloc n size = record {
    n = n;
    size = size;
    keys = replicate n (replicate size 0);
    values = replicate n none;
  }

  unfoldable pub index : HashTable V → List ℕ → ℕ
  index hash key = modulo (hash_function key hash.size) hash.n

  unfoldable pub hash_insert : HashTable V → List ℕ → V → HashTable V
  hash_insert hash key value = record hash {
    keys = set hash.keys (index hash key) key;
    values = set hash.values (index hash key) (some value);
  }

  -- The value of a slot, if the slot's key is the one that is asked for.
  unfoldable pub matching : Option V → List ℕ → List ℕ → Option V
  matching value slot_key key = elim value [
    | none ↦ none
    | some v ↦ if bytes_eq key slot_key then some v else none
  ]

  unfoldable pub hash_search : HashTable V → List ℕ → Option V
  hash_search hash key =
      matching (get_or hash.values (index hash key) none) (get_or hash.keys (index hash key) []) key

  unfoldable pub hash_search_or_insert : HashTable V → List ℕ → V → Option V × HashTable V
  hash_search_or_insert hash key value = elim (hash_search hash key) [
    | some v ↦ (some v, hash)
    | none ↦ (none, hash_insert hash key value)
  ]

  unfoldable pub hash_delete : HashTable V → List ℕ → HashTable V
  hash_delete hash key = record hash { values = set hash.values (index hash key) none }

  unfoldable pub hash_clear : HashTable V → HashTable V
  hash_clear hash = record hash { values = replicate (length hash.values) none }
