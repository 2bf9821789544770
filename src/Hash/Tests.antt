-- ===== src/Hash/Tests.antt =====
-- Runs of src/hash.c's tables, and their theorems at concrete inputs.
use tinc_quic.Common.{ℕ, ◌≡◌, refl, arith, false, none, some, List, [], ◌∷◌, ◌==◌}
use tinc_quic.Common.{if◌then◌else◌, bytes_eq}
use tinc_quic.Hash.{HashTable, hash_search, hash_search_or_insert, index, hash_alloc}
use tinc_quic.Hash.{hash_function, hash_insert, add_bytes, matching, hash_rounds, modulo}
use tinc_quic.Hash.Slots.{IsSized, hash_alloc-IsSized, hash_search-hash_insert}

abbrev table : HashTable ℕ
table = hash_alloc 0x100 4

abbrev key : List ℕ
key = 10 ∷ 0 ∷ 0 ∷ 1 ∷ []

-- The first byte of a key does not count, so this key shares the slot.
abbrev rival : List ℕ
rival = 11 ∷ 0 ∷ 0 ∷ 1 ∷ []

abbrev elsewhere : List ℕ
elsewhere = 10 ∷ 0 ∷ 0 ∷ 2 ∷ []

table-IsSized : IsSized table
table-IsSized = hash_alloc-IsSized 0x100 4 (omega arith)

same_slot : index table key ≡ index table rival
unfolding index hash_function add_bytes hash_rounds modulo hash_alloc bytes_eq
same_slot = refl

other_slot : (index table key == index table elsewhere) ≡ false
unfolding index hash_function add_bytes hash_rounds modulo hash_alloc bytes_eq
other_slot = refl

insert_evicts : hash_search (hash_insert (hash_insert table key 7) rival 8) key ≡ none
unfolding hash_search hash_insert matching index hash_function add_bytes hash_rounds modulo
    hash_alloc bytes_eq
insert_evicts = refl

insert_or_find :
    hash_search_or_insert (hash_insert table key 7) key 8 ≡ (some 7, hash_insert table key 7)
unfolding hash_search_or_insert hash_search hash_insert matching index hash_function add_bytes
    hash_rounds modulo hash_alloc bytes_eq
insert_or_find = refl

hash_search-hash_insert_example : hash_search (hash_insert table key 7) rival ≡ (
    if index table key == index table rival
    then (if bytes_eq rival key then some 7 else none)
    else hash_search table rival)
hash_search-hash_insert_example = hash_search-hash_insert table key rival 7 table-IsSized
