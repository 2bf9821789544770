-- ===== src/Padding.antt =====
-- src/padding.c: packet padding, [magic (1)] [length (2)] [data] [padding]. The values that
-- `rand()` returns are arguments.
pub mod Packet
pub mod Size
mod Tests
use tinc_quic.Common.{ℕ, zero, suc, ◌+◌, ◌-◌, ◌*◌, ◌/◌, ◌%◌, ◌^◌, Option, none, some, List, []}
use tinc_quic.Common.{◌∷◌, ◌++◌, Bool, ◌&&◌, ◌||◌, not, ltb, leb, ◌==◌, if◌then◌else◌, ◌≡◌}
use tinc_quic.Common.{refl, ap, length, get_or, bit_or, u8}
use tinc_quic.Common.Int.{ℤ, pos, negsuc, sub_ℕ, ◌-ℤ◌, is_negative, to_int}

abbrev pub padding_magic : ℕ
padding_magic = 0xFD

abbrev pub max_padding_size : ℕ
max_padding_size = 512

pub data PaddingMode : Type 0 where
  padding_off padding_random padding_buckets : PaddingMode

-- `padding_config_t`; `none` is the NULL pointer, and `bucket_count` is the length of the list.
pub record PaddingConfig : Type 0 where
  pub mode : PaddingMode
  pub min_size : ℤ
  pub max_size : ℤ
  pub buckets : Option (List ℤ)
  pub small_packets_only : Bool
  pub threshold : ℤ

abbrev pub default_buckets : List ℤ
default_buckets = pos 512 ∷ pos 1024 ∷ pos 1500 ∷ []

init_buckets : PaddingMode → Option (List ℤ) → Option (List ℤ)
init_buckets padding_buckets none = some default_buckets
init_buckets mode buckets = buckets

unfoldable pub padding_init : PaddingConfig → PaddingConfig
unfolding init_buckets
padding_init config = record config { buckets = init_buckets config.mode config.buckets }

unfoldable pub padding_cleanup : PaddingConfig → PaddingConfig
padding_cleanup config = record config { buckets = none }

-- An `int` as a `size_t` of 64 bits.
abbrev pub as_size : ℤ → ℕ
as_size (pos n) = n
as_size (negsuc n) = 2 ^ 64 - 1 - n

-- The loop over the buckets: what is missing to the first that is large enough, 0 if none is.
pub bucket_padding : List ℤ → ℕ → ℕ
bucket_padding [] total_size = 0
bucket_padding (bucket ∷ buckets) total_size =
    if leb total_size (as_size bucket)
    then as_size bucket - total_size
    else bucket_padding buckets total_size

abbrev pub magnitude : ℤ → ℕ
magnitude (pos n) = n
magnitude (negsuc n) = suc n

abbrev pub plus_ℕ : ℤ → ℕ → ℤ
plus_ℕ (pos m) n = pos (m + n)
plus_ℕ (negsuc m) n = sub_ℕ n (suc m)

-- `PADDING_RANDOM`; `rand()` is not negative, and `%` takes its sign. The difference of the sizes may
-- wrap, but the divisor is 0 only for the smallest and the largest `int`.
pub random_size : PaddingConfig → ℕ → ℕ
random_size config random =
    let width = to_int (plus_ℕ (config.max_size -ℤ config.min_size) 1) in
    if is_negative (config.min_size -ℤ config.max_size)
    then as_size (to_int (plus_ℕ config.min_size (random % magnitude width)))
    else as_size config.min_size

-- `PADDING_BUCKETS`; without a bucket there is no padding.
pub bucket_size : Option (List ℤ) → ℕ → ℕ → ℕ
bucket_size none data_len random = 0
bucket_size (some []) data_len random = 0
bucket_size (some (b ∷ bs)) data_len random =
    let padding_size = bucket_padding (b ∷ bs) (data_len + 3) in
    if padding_size == 0 then random % 64 else padding_size

pub mode_size : PaddingMode → PaddingConfig → ℕ → ℕ → ℕ
mode_size padding_off config data_len random = 0
mode_size padding_random config data_len random = random_size config random
mode_size padding_buckets config data_len random = bucket_size config.buckets data_len random

-- The sanity check at the end.
pub cap_size : ℕ → ℕ
cap_size size = if ltb max_padding_size size then max_padding_size else size

pub padding_calculate_size : PaddingConfig → ℕ → ℕ → ℕ
padding_calculate_size config data_len random =
    if config.small_packets_only && leb (as_size config.threshold) data_len
    then 0
    else if ltb 1150 data_len
    then 0
    else cap_size (mode_size config.mode config data_len random)

-- `n` bytes of `rand() & 0xFF`
pub random_bytes : ℕ → (ℕ → ℕ) → List ℕ
random_bytes zero noise = []
random_bytes (suc n) noise = u8 (noise n) ∷ random_bytes n noise

-- The data, the size of the output buffer, and the random values; the packet written, `none` for
-- the returned 0, on which the caller sends the data as they are.
pub padding_add : PaddingConfig → List ℕ → ℕ → ℕ → (ℕ → ℕ) → Option (List ℕ)
padding_add config payload output_size random noise =
    let data_len = length payload in
    let padding_size = padding_calculate_size config data_len random in
    if data_len == 0
    then none
    else if padding_size == 0
    then none
    else if ltb output_size (1 + 2 + data_len + padding_size)
    then none
    else some (
        padding_magic
        ∷ u8 (data_len / 2 ^ 8)
        ∷ u8 data_len
        ∷ (payload ++ random_bytes padding_size noise))

-- Where the original data start in the packet, and their length; `none` is false.
unfoldable pub padding_remove : List ℕ → Option (ℕ × ℕ)
padding_remove packet =
    let data_len = length packet in
    let original_len = bit_or (get_or packet 1 0 * 2 ^ 8) (get_or packet 2 0) in
    if data_len == 0
    then none
    else if ltb data_len 3 || not (get_or packet 0 0 == padding_magic)
    then some (0, data_len)
    else if original_len == 0 || ltb data_len (original_len + 3)
    then none
    else some (3, original_len)

pub length-random_bytes : (n : ℕ) (noise : ℕ → ℕ) → length (random_bytes n noise) ≡ n
unfolding random_bytes
length-random_bytes zero noise = refl
length-random_bytes (suc n) noise = ap suc (length-random_bytes n noise)
