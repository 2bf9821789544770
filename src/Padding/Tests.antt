-- ===== src/Padding/Tests.antt =====
-- Runs of src/padding.c, and its theorems at concrete inputs.
use tinc_quic.Common.{ℕ, ◌≤◌, ◌≡◌, refl, arith, false, some, List, [], ◌∷◌, length, take, drop}
use tinc_quic.Common.Int.{pos}
use tinc_quic.Padding.{PaddingConfig, padding_buckets, padding_add, padding_calculate_size}
use tinc_quic.Padding.{padding_remove, cap_size, mode_size, bucket_size, bucket_padding}
use tinc_quic.Padding.{random_bytes}
use tinc_quic.Padding.Packet.{padding_remove-padding_add}
use tinc_quic.Padding.Size.{padding_add_fills_bucket}

abbrev config : PaddingConfig
config = record {
  mode = padding_buckets;
  min_size = pos 0;
  max_size = pos 128;
  buckets = some (pos 8 ∷ pos 12 ∷ pos 20 ∷ []);
  small_packets_only = false;
  threshold = pos 512;
}

abbrev payload : List ℕ
payload = 1 ∷ 2 ∷ 3 ∷ 4 ∷ 5 ∷ 6 ∷ []

abbrev padded : List ℕ
padded = 0xFD ∷ 0 ∷ 6 ∷ 1 ∷ 2 ∷ 3 ∷ 4 ∷ 5 ∷ 6 ∷ 7 ∷ 7 ∷ 7 ∷ []

add_payload : padding_add config payload 100 0 (λ _. 7) ≡ some padded
unfolding padding_add padding_calculate_size cap_size mode_size bucket_size bucket_padding
    random_bytes
add_payload = refl

padding_remove-padding_add_example :
    (padding_remove padded ≡ some (3, 6)) × (take 6 (drop 3 padded) ≡ payload) × (12 ≤ 100)
padding_remove-padding_add_example =
    padding_remove-padding_add config payload 100 0 (λ _. 7) padded add_payload

padding_add_fills_bucket_example :
    (packet : List ℕ) × (padding_add config payload 100 33 (λ _. 7) ≡ some packet)
    × (length packet ≡ 12)
padding_add_fills_bucket_example =
    padding_add_fills_bucket config payload (pos 8 ∷ []) 12 (pos 20 ∷ []) 100 33 (λ _. 7) refl refl
      refl (omega arith) (omega arith) (omega arith) (omega arith) (omega arith) (omega arith)

remove_padded : padding_remove padded ≡ some (3, 6)
unfolding padding_remove
remove_padded = refl
