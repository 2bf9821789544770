-- ===== src/Padding/Packet.antt =====
-- The round trip of padded packets, and what `padding_remove` does with any input.
use tinc_quic.Common.{ℕ, ◌+◌, ◌*◌, ◌/◌, ◌^◌, ◌≤◌, ◌<◌, ◌≡◌, ◌≢◌, ◌⊎◌, arith, some, List, ◌∷◌}
use tinc_quic.Common.{◌++◌, length, get_or, take, u8, bit_or-add, drop, length-append}
use tinc_quic.Common.{take-append}
use tinc_quic.Padding.{PaddingConfig, padding_add, padding_remove, padding_magic, random_bytes}
use tinc_quic.Padding.{padding_calculate_size, length-random_bytes}
use tinc_quic.Padding.Size.{calculate_size_bounds}

-- What `padding_add` wrote.
padding_add_form :
    (config : PaddingConfig) (payload : List ℕ) (output_size random : ℕ) (noise : ℕ → ℕ)
    (packet : List ℕ)
    → padding_add config payload output_size random noise ≡ some packet
    → (size : ℕ) × (packet
        ≡ padding_magic
          ∷ u8 (length payload / 2 ^ 8)
          ∷ u8 (length payload)
          ∷ (payload ++ random_bytes size noise))
      × (0 < length payload)
      × (length payload ≤ 1150)
      × (3 + length payload + size ≤ output_size)
unfolding padding_add
padding_add_form config payload output_size random noise packet h = (
  padding_calculate_size config (length payload) random,
  ground arith,
  ground arith,
  ground (arith, (calculate_size_bounds config (length payload) random).1),
  ground arith,
)

-- A packet with header, data of 1 to 65535 bytes and anything behind them is read as its data.
pub padding_remove-header :
    (payload tail : List ℕ)
    → 0 < length payload
    → length payload < 2 ^ 16
    → padding_remove
        (padding_magic ∷ u8 (length payload / 2 ^ 8) ∷ u8 (length payload) ∷ (payload ++ tail))
      ≡ some (3, length payload)
unfolding padding_remove
padding_remove-header payload tail pos fits = ground (
  arith,
  bit_or-add 8 (length payload / 2 ^ 8 * 2 ^ 8) (u8 (length payload)),
  length-append payload tail,
)

-- `padding_remove` undoes `padding_add` under every configuration: the pointer and the length that
-- it returns name exactly the original data, and the packet fits in the output buffer.
pub padding_remove-padding_add :
    (config : PaddingConfig) (payload : List ℕ) (output_size random : ℕ) (noise : ℕ → ℕ)
    (packet : List ℕ)
    → padding_add config payload output_size random noise ≡ some packet
    → (padding_remove packet ≡ some (3, length payload))
      × (take (length payload) (drop 3 packet) ≡ payload)
      × (length packet ≤ output_size)
padding_remove-padding_add config payload output_size random noise packet h =
    let (size, form, pos, short, room) =
      padding_add_form config payload output_size random noise packet h in
    (
      rw form (padding_remove-header payload (random_bytes size noise) pos (omega arith)),
      rw form (take-append payload (random_bytes size noise)),
      rw form (
          omega (
            arith,
            length-append payload (random_bytes size noise),
            length-random_bytes size noise,
          )),
    )

-- Whatever bytes arrive, an accepted packet's data lie inside it and are not empty.
pub padding_remove_in_bounds :
    (packet : List ℕ) (off len : ℕ)
    → padding_remove packet ≡ some (off, len)
    → (off + len ≤ length packet) × (0 < len)
unfolding padding_remove
padding_remove_in_bounds packet off len h = ground arith

-- Data that do not begin with the magic byte, or are shorter than three bytes, pass unchanged. Data
-- of three bytes or more that do begin with it never pass unchanged.
pub padding_remove_plain :
    (packet : List ℕ)
    → (0 < length packet
        → (length packet < 3) ⊎ (get_or packet 0 0 ≢ padding_magic)
        → padding_remove packet ≡ some (0, length packet))
      × (3 ≤ length packet
          → get_or packet 0 0 ≡ padding_magic
          → padding_remove packet ≢ some (0, length packet))
unfolding padding_remove
padding_remove_plain packet = (λ pos plain. ground arith, λ long magic. λ e. ground arith)
