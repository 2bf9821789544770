-- ===== src/Padding/Size.antt =====
-- How much padding a packet gets.
use tinc_quic.Common.{ℕ, ◌+◌, ◌-◌, ◌/◌, ◌^◌, ◌≤◌, ◌<◌, ◌≡◌, arith, false, some, List, [], ◌∷◌}
use tinc_quic.Common.{◌++◌, All, length, u8, length-append}
use tinc_quic.Common.Int.{ℤ, pos}
use tinc_quic.Padding.{as_size, PaddingConfig, padding_off, padding_buckets, bucket_padding}
use tinc_quic.Padding.{bucket_size, padding_add, padding_calculate_size, cap_size, mode_size}
use tinc_quic.Padding.{max_padding_size, padding_magic, random_bytes, length-random_bytes}

-- At most 512 bytes of padding are added, and none to data longer than 1150 bytes, so a packet with
-- padding has at most 1665 bytes, its header included.
pub calculate_size_bounds :
    (config : PaddingConfig) (data_len random : ℕ)
    → (padding_calculate_size config data_len random ≤ max_padding_size)
      × (0 < padding_calculate_size config data_len random → data_len ≤ 1150)
      × (config.mode ≡ padding_off → padding_calculate_size config data_len random ≡ 0)
unfolding padding_calculate_size cap_size mode_size
calculate_size_bounds config data_len random = (ground arith, λ h. ground arith, λ h. ground arith)

-- The buckets before the one that is chosen are too small.
abbrev AllSmaller : ℕ → List ℤ → Type 0
AllSmaller total = All (λ b. as_size b < total)

bucket_padding-append :
    (small : List ℤ) (bucket : ℕ) (large : List ℤ) (total : ℕ)
    → AllSmaller total small
    → total ≤ bucket
    → bucket_padding (small ++ (pos bucket ∷ large)) total ≡ bucket - total
unfolding bucket_padding
bucket_padding-append [] bucket large total hs h = ground arith
bucket_padding-append (b ∷ small) bucket large total hs h =
    ground (arith, bucket_padding-append small bucket large total)

bucket_size-some :
    (bs : List ℤ) (data_len random : ℕ)
    → 0 < bucket_padding bs (data_len + 3)
    → bucket_size (some bs) data_len random ≡ bucket_padding bs (data_len + 3)
unfolding bucket_size
bucket_size-some [] data_len random h = absurd (unfold bucket_padding in omega arith)
bucket_size-some (b ∷ bs) data_len random h = ground arith

calculate_size-bucket :
    (config : PaddingConfig) (data_len random : ℕ) (small : List ℤ) (bucket : ℕ) (large : List ℤ)
    → config.mode ≡ padding_buckets
    → config.buckets ≡ some (small ++ (pos bucket ∷ large))
    → config.small_packets_only ≡ false
    → data_len ≤ 1150
    → AllSmaller (data_len + 3) small
    → data_len + 3 < bucket
    → bucket ≤ data_len + 3 + max_padding_size
    → padding_calculate_size config data_len random ≡ bucket - (data_len + 3)
unfolding padding_calculate_size cap_size mode_size
calculate_size-bucket config data_len random small bucket large m bs all fits hs below close =
    ground (
      arith,
      bucket_padding-append small bucket large (data_len + 3) hs,
      bucket_size-some (small ++ (pos bucket ∷ large)) data_len random,
    )

-- In bucket mode data of at most 1150 bytes are filled up to the first bucket that has room for
-- them, the header and at least one byte of padding, if that takes no more than 512 bytes:
-- the packet then has exactly the size of the bucket, whatever `rand()` returns.
pub padding_add_fills_bucket :
    (config : PaddingConfig) (payload : List ℕ) (small : List ℤ) (bucket : ℕ) (large : List ℤ)
    (output_size random : ℕ) (noise : ℕ → ℕ)
    → config.mode ≡ padding_buckets
    → config.buckets ≡ some (small ++ (pos bucket ∷ large))
    → config.small_packets_only ≡ false
    → 0 < length payload
    → length payload ≤ 1150
    → AllSmaller (length payload + 3) small
    → length payload + 3 < bucket
    → bucket ≤ length payload + 3 + max_padding_size
    → bucket ≤ output_size
    → (packet : List ℕ) × (padding_add config payload output_size random noise ≡ some packet)
      × (length packet ≡ bucket)
unfolding padding_add
padding_add_fills_bucket config payload small bucket large output_size random noise m bs all
      some_data fits hs below close room =
    let chosen =
      calculate_size-bucket config (length payload) random small bucket large m bs all fits hs below
        close in
    let size : ℕ = padding_calculate_size config (length payload) random in
    (
      padding_magic
          ∷ u8 (length payload / 2 ^ 8)
          ∷ u8 (length payload)
          ∷ (payload ++ random_bytes size noise),
      ground (arith, chosen),
      omega (
        arith,
        chosen,
        length-append payload (random_bytes size noise),
        length-random_bytes size noise,
      ),
    )
