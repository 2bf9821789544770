-- ===== src/Subnet/Mask/Laws.antt =====
-- The four mask functions agree with one another.
use tinc_quic.Common.{ℕ, zero, suc, ◌-◌, ◌*◌, ◌/◌, ◌%◌, ◌≤◌, ◌<◌, bit_and, ◌≡◌, refl, sym, ◌↔◌}
use tinc_quic.Common.{◌⊎◌, inl, inr, arith, List, [], ◌∷◌, take-nil, drop-nil, IsByte, length}
use tinc_quic.Common.{All}
use tinc_quic.Common.Int.{pos, sub_ℕ}
use tinc_quic.Subnet.Mask.{mask, maskcpy, top_mask, clear_from, maskcmp, char_difference}

pub mask-nil : (m : ℕ) → mask [] m ≡ []
unfolding mask clear_from
mask-nil zero = refl
mask-nil (suc m) = rw (take-nil ℕ (suc m / 8), drop-nil ℕ (suc m / 8))

pub mask_short : (x : ℕ) (a : List ℕ) (m : ℕ) → m < 8 → mask (x ∷ a) m ≡ clear_from m (x ∷ a)
unfolding mask
mask_short x a m h =
    let quot : m / 8 ≡ 0 = omega arith in let rem : m % 8 ≡ m = omega arith in rw (quot, rem)

pub mask_long : (x : ℕ) (a : List ℕ) (m : ℕ) → 8 ≤ m → mask (x ∷ a) m ≡ x ∷ mask a (m - 8)
unfolding mask
mask_long x a m h =
    let quot : m / 8 ≡ suc ((m - 8) / 8) = omega arith in
    let rem : m % 8 ≡ (m - 8) % 8 = omega arith in rw (quot, rem)

-- Masking a copy is the same as copying under a mask.
pub maskcpy-mask : (b : List ℕ) (m : ℕ) → maskcpy b m ≡ mask b m
unfolding maskcpy
maskcpy-mask [] m = sym (mask-nil m)
maskcpy-mask (x ∷ b) m = ground (arith, maskcpy-mask b (m - 8), mask_long x b m, mask_short x b m)

pub <-or-≥ : (m n : ℕ) → (m < n) ⊎ (n ≤ m)
<-or-≥ m n = ground arith

sub_ℕ-zero : (x y : ℕ) → (sub_ℕ x y ≡ pos 0) ↔ (x ≡ y)
sub_ℕ-zero x y = ground arith

char_difference-zero : (x y : ℕ) → IsByte x → IsByte y → (char_difference x y ≡ pos 0) ↔ (x ≡ y)
char_difference-zero x y hx hy = ground arith

-- A step of the comparison inside a byte.
maskcmp_short :
    (x y : ℕ) (a b : List ℕ) (m : ℕ)
    → length a ≡ length b
    → m < 8
    → (maskcmp (x ∷ a) (y ∷ b) m ≡ pos 0) ↔ (clear_from m (x ∷ a) ≡ clear_from m (y ∷ b))
unfolding maskcmp clear_from
maskcmp_short x y a b m len h =
    ground (arith, len, sub_ℕ-zero (bit_and x (top_mask m)) (bit_and y (top_mask m)))

maskcmp_long :
    (x y : ℕ) (a b : List ℕ) (m : ℕ)
    → IsByte x
    → IsByte y
    → 8 ≤ m
    → (maskcmp a b (m - 8) ≡ pos 0) ↔ (mask a (m - 8) ≡ mask b (m - 8))
    → (maskcmp (x ∷ a) (y ∷ b) m ≡ pos 0) ↔ (x ∷ mask a (m - 8) ≡ y ∷ mask b (m - 8))
unfolding maskcmp
maskcmp_long x y a b m hx hy h rest = ground (arith, rest, char_difference-zero x y hx hy)

-- For addresses of one length and a mask inside them, maskcmp returns 0 exactly when the
-- addresses are equal under the mask.
pub maskcmp_iff :
    (a b : List ℕ) (m : ℕ)
    → length a ≡ length b
    → m ≤ 8 * length a
    → All IsByte a
    → All IsByte b
    → (maskcmp a b m ≡ pos 0) ↔ (mask a m ≡ mask b m)
unfolding maskcmp
maskcmp_iff [] [] m len inside ha hb = (λ _. refl, λ _. refl)
maskcmp_iff [] (y ∷ b) m len inside ha hb = absurd (omega (arith, len))
maskcmp_iff (x ∷ a) [] m len inside ha hb = absurd (omega (arith, len))
maskcmp_iff (x ∷ a) (y ∷ b) m len inside ha hb =
    let rest = maskcmp_iff a b (m - 8) (omega (arith, len)) in
    elim (<-or-≥ m 8) [
      | inl h ↦
          rw (mask_short x a m h, mask_short y b m h)
            (maskcmp_short x y a b m (omega (arith, len)) h)
      | inr h ↦
          rw (mask_long x a m h, mask_long y b m h)
            (maskcmp_long x y a b m (ha.0) (hb.0) h (rest (omega arith) (ha.1) (hb.1)))
    ]
