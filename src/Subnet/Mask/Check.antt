-- ===== src/Subnet/Mask/Check.antt =====
-- Which addresses are already masked, as subnetcheck asks.
use tinc_quic.Common.{ℕ, ◌+◌, ◌-◌, ◌*◌, ◌/◌, ◌%◌, ◌^◌, ◌≤◌, ◌<◌, bit_and, ◌≡◌, refl, ◌∙◌, ◌↔◌}
use tinc_quic.Common.{inl, inr, arith, Bool, true, List, [], ◌∷◌, ◌++◌, ◌==◌, if◌then◌else◌}
use tinc_quic.Common.{All, IsByte, table, length, length-replicate, table_sound, replicate}
use tinc_quic.Common.{take, drop, All-drop, take-append-drop}
use tinc_quic.Subnet.Mask.{clear_from, maskcheck, top_mask, all_zero, check_from, mask}
use tinc_quic.Subnet.Mask.Laws.{mask-nil, <-or-≥, mask_short, mask_long}

-- Facts on the bytes at which a mask ends, by evaluation over all bytes and mask ends.
cleared : ℕ → Bool
cleared v = bit_and (bit_and (v / 8) (top_mask (v % 8))) (0xff / 2 ^ (v % 8)) == 0

kept : ℕ → Bool
kept v =
    if bit_and (v / 8) (0xff / 2 ^ (v % 8)) == 0
    then bit_and (v / 8) (top_mask (v % 8)) == v / 8
    else true

idem : ℕ → Bool
idem v = let x = bit_and (v / 8) (top_mask (v % 8)) in bit_and x (top_mask (v % 8)) == x

all_idem : table idem 0x800 ≡ true
unfolding table idem
all_idem = refl

all_cleared : table cleared 0x800 ≡ true
unfolding table cleared
all_cleared = refl

all_kept : table kept 0x800 ≡ true
unfolding table kept
all_kept = refl

cleared_fact : (x r : ℕ) → IsByte x → r < 8 → bit_and (bit_and x (top_mask r)) (0xff / 2 ^ r) ≡ 0
unfolding cleared
cleared_fact x r hx hr =
    let quot : (x * 8 + r) / 8 ≡ x = omega arith in
    let rem : (x * 8 + r) % 8 ≡ r = omega arith in
    let passed = table_sound cleared 0x800 all_cleared (x * 8 + r) (omega arith) in
    ground (arith, passed, quot, rem)

kept_fact : (x r : ℕ) → IsByte x → r < 8 → bit_and x (0xff / 2 ^ r) ≡ 0 → bit_and x (top_mask r) ≡ x
unfolding kept
kept_fact x r hx hr clear =
    let quot : (x * 8 + r) / 8 ≡ x = omega arith in
    let rem : (x * 8 + r) % 8 ≡ r = omega arith in
    let passed = table_sound kept 0x800 all_kept (x * 8 + r) (omega arith) in
    ground (arith, passed, quot, rem)

idem_fact :
    (x r : ℕ)
    → IsByte x
    → r < 8
    → bit_and (bit_and x (top_mask r)) (top_mask r) ≡ bit_and x (top_mask r)
unfolding idem
idem_fact x r hx hr =
    let quot : (x * 8 + r) / 8 ≡ x = omega arith in
    let rem : (x * 8 + r) % 8 ≡ r = omega arith in
    let passed = table_sound idem 0x800 all_idem (x * 8 + r) (omega arith) in
    ground (arith, passed, quot, rem)

all_zero_iff : (xs : List ℕ) → (all_zero xs ≡ true) ↔ (replicate (length xs) 0 ≡ xs)
unfolding all_zero
all_zero_iff [] = (λ _. refl, λ _. refl)
all_zero_iff (x ∷ xs) = ground (arith, all_zero_iff xs)

check_from_iff :
    (r : ℕ) (xs : List ℕ)
    → r < 8
    → All IsByte xs
    → (check_from r xs ≡ true) ↔ (clear_from r xs ≡ xs)
unfolding check_from clear_from all_zero
check_from_iff r [] h bytes = (λ _. refl, λ _. refl)
check_from_iff r (x ∷ xs) h bytes =
    ground (arith, all_zero_iff xs, kept_fact x r (bytes.0) h, cleared_fact x r (bytes.0) h)

same_tail : (p xs ys : List ℕ) → (p ++ xs ≡ p ++ ys) ↔ (xs ≡ ys)
same_tail [] xs ys = (λ e. e, λ e. e)
same_tail (x ∷ p) xs ys = ground (arith, same_tail p xs ys)

-- For a mask inside an address, maskcheck accepts exactly the addresses that the mask leaves as
-- they are.
pub maskcheck_iff :
    (a : List ℕ) (m : ℕ) → m ≤ 8 * length a → All IsByte a → (maskcheck a m ≡ true) ↔ (mask a m ≡ a)
unfolding maskcheck mask
maskcheck_iff a m inside bytes =
    let front = take (m / 8) a in
    let back = drop (m / 8) a in
    let tail = same_tail front (clear_from (m % 8) back) back in
    let check = check_from_iff (m % 8) back (omega arith) (All-drop IsByte (m / 8) a bytes) in
    ground (arith, tail, check, take-append-drop (m / 8) a)

clear_from-clear_from :
    (r : ℕ) (xs : List ℕ) → r < 8 → All IsByte xs → clear_from r (clear_from r xs) ≡ clear_from r xs
unfolding clear_from
clear_from-clear_from r [] h bytes = refl
clear_from-clear_from r (x ∷ xs) h bytes =
    ground (arith, idem_fact x r (bytes.0) h, length-replicate {A = ℕ} (length xs) 0)

-- Masking twice is masking once.
pub mask-mask : (a : List ℕ) (m : ℕ) → All IsByte a → mask (mask a m) m ≡ mask a m
unfolding clear_from
mask-mask [] m bytes = rw (mask-nil m) (mask-nil m)
mask-mask (x ∷ a) m bytes = elim (<-or-≥ m 8) [
  | inl h ↦ rw (mask_short x a m h) (
      mask_short (if m == 0 then 0 else bit_and x (top_mask m)) (replicate (length a) 0) m h
      ∙ clear_from-clear_from m (x ∷ a) h bytes)
  | inr h ↦ rw (mask_long x a m h, mask_long x (mask a (m - 8)) m h, mask-mask a (m - 8) (bytes.1))
]
