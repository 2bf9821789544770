-- ===== src/Utils/Base64/Letters.antt =====
-- What the decoder makes of the letters of an alphabet.
use tinc_quic.Common.{ℕ, suc, ◌+◌, ◌*◌, ◌/◌, ◌%◌, ◌^◌, ◌<◌, bit_or, ◌≡◌, refl, ap, ◌∙◌, ◌≢◌}
use tinc_quic.Common.{arith, Bool, true, ◌&&◌, not, List, [], ◌∷◌, ◌++◌, ◌==◌, table}
use tinc_quic.Common.{table_sound, &&-true, ==_iff, u32, IsByte, bit_or-above, u8}
use native.Mathlib.Nat.{mod-eq_of_lt}
use tinc_quic.Utils.Base64.{base64_decode, base64_original, base64_urlsafe, letter}
use tinc_quic.Utils.Base64.{add_character, b64decode_from}

-- An alphabet of 64 letters that the decoder reads.
is_alphabet : List ℕ → ℕ → Bool
is_alphabet alphabet v = base64_decode (letter alphabet v) == v && not (letter alphabet v == 0)

pub IsAlphabet : List ℕ → Type 0
IsAlphabet alphabet =
    (v : ℕ) → v < 64 → (base64_decode (letter alphabet v) ≡ v) × (letter alphabet v ≢ 0)

letters_read : (alphabet : List ℕ) → table (is_alphabet alphabet) 64 ≡ true → IsAlphabet alphabet
unfolding IsAlphabet is_alphabet
letters_read alphabet passed v h =
    let both = table_sound (is_alphabet alphabet) 64 passed v h in
    let (value, nonzero) =
      &&-true (base64_decode (letter alphabet v) == v) (not (letter alphabet v == 0)) both in
    ((==_iff (base64_decode (letter alphabet v)) v).0 value, ground (arith, nonzero))

pub original-IsAlphabet : IsAlphabet base64_original
unfolding table is_alphabet base64_decode
original-IsAlphabet = letters_read base64_original refl

pub urlsafe-IsAlphabet : IsAlphabet base64_urlsafe
unfolding table is_alphabet base64_decode
urlsafe-IsAlphabet = letters_read base64_urlsafe refl

-- A field put above the bits that are there.
or_field : (k t v : ℕ) → t < 2 ^ k → v * 2 ^ k < 2 ^ 32 → bit_or t (u32 (v * 2 ^ k)) ≡ t + v * 2 ^ k
or_field k t v low fits =
    let e : u32 (v * 2 ^ k) ≡ v * 2 ^ k = mod-eq_of_lt fits in rw (e) (bit_or-above k t v low)

-- How the loop takes a letter, by the place of the letter in its group.
module _ (alphabet : List ℕ) (ok : IsAlphabet alphabet) where
  -- The sum of the values so far.
  added :
      (k i t v : ℕ)
      → 6 * (i % 4) ≡ k
      → t < 2 ^ k
      → v < 64
      → v * 2 ^ k < 2 ^ 32
      → add_character t (letter alphabet v) i ≡ t + v * 2 ^ k
  unfolding add_character IsAlphabet
  added k i t v place low small fits = rw ((ok v small).0, place) (or_field k t v low fits)

  within_group :
      (src : List ℕ) (n i t v : ℕ) (out : List ℕ)
      → v < 64
      → i % 4 ≢ 3
      → b64decode_from (letter alphabet v ∷ src) (suc n) i t out
        ≡ b64decode_from src n (i + 1) (add_character t (letter alphabet v) i) out
  unfolding b64decode_from IsAlphabet
  within_group src n i t v out small place = ground (arith, (ok v small).1)

  group_end :
      (src : List ℕ) (n i t v : ℕ) (out : List ℕ)
      → v < 64
      → i % 4 ≡ 3
      → t < 2 ^ 18
      → b64decode_from (letter alphabet v ∷ src) (suc n) i t out
        ≡ b64decode_from src n (i + 1) 0 (
            out
            ++ (u8 (t + v * 2 ^ 18)
                ∷ u8 ((t + v * 2 ^ 18) / 2 ^ 8)
                ∷ u8 ((t + v * 2 ^ 18) / 2 ^ 16)
                ∷ []))
  unfolding b64decode_from IsAlphabet
  group_end src n i t v out small place low =
      let sum = added 18 i t v (omega (arith, place)) low small (omega arith) in
      ground (arith, (ok v small).1, sum)

  -- The bytes of a triplet, whichever bytes they are.
  triplet_bytes :
      (a b c : ℕ)
      → IsByte a
      → IsByte b
      → IsByte c
      → (t : ℕ) → t ≡ a + b * 2 ^ 8 + c * 2 ^ 16
      → u8 t ∷ u8 (t / 2 ^ 8) ∷ u8 (t / 2 ^ 16) ∷ [] ≡ a ∷ b ∷ c ∷ []
  triplet_bytes a b c ha hb hc t e =
      let x : u8 t ≡ a = omega (arith, e) in
      let y : u8 (t / 2 ^ 8) ≡ b = omega (arith, e) in
      let z : u8 (t / 2 ^ 16) ≡ c = omega (arith, e) in rw (x, y, z)

  next_letter :
      (k : ℕ) (src : List ℕ) (n i t v : ℕ) (out : List ℕ)
      → 6 * (i % 4) ≡ k
      → k < 18
      → t < 2 ^ k
      → v < 64
      → v * 2 ^ k < 2 ^ 32
      → b64decode_from (letter alphabet v ∷ src) (suc n) i t out
        ≡ b64decode_from src n (i + 1) (t + v * 2 ^ k) out
  next_letter k src n i t v out place early low small fits =
      within_group src n i t v out small (λ h. omega (arith, h, place, early))
      ∙ ap (λ x. b64decode_from src n (i + 1) x out) (added k i t v place low small fits)

  -- Two letters from the start of a group on.
  pub two_letters :
      (src : List ℕ) (n i v w : ℕ) (out : List ℕ)
      → i % 4 ≡ 0
      → v < 64
      → w < 64
      → b64decode_from (letter alphabet v ∷ letter alphabet w ∷ src) (suc (suc n)) i 0 out
        ≡ b64decode_from src n (i + 2) (v + w * 2 ^ 6) out
  two_letters src n i v w out place hv hw =
      let sum : 0 + v * 2 ^ 0 + w * 2 ^ 6 ≡ v + w * 2 ^ 6 = omega arith in
      let index : i + 1 + 1 ≡ i + 2 = omega arith in
      next_letter 0 (letter alphabet w ∷ src) (suc n) i 0 v out (omega (arith, place)) (omega arith)
        (omega arith) hv (omega arith)
      ∙ next_letter 6 src n (i + 1) (0 + v * 2 ^ 0) w out (omega (arith, place)) (omega arith)
          (omega (arith, hv)) hw (omega (arith, hw))
      ∙ ap (λ x. b64decode_from src n (i + 1 + 1) x out) sum
      ∙ ap (λ x. b64decode_from src n x (v + w * 2 ^ 6) out) index

  pub third_letter :
      (src : List ℕ) (n i t v : ℕ) (out : List ℕ)
      → i % 4 ≡ 0
      → t < 2 ^ 12
      → v < 64
      → b64decode_from (letter alphabet v ∷ src) (suc n) (i + 2) t out
        ≡ b64decode_from src n (i + 3) (t + v * 2 ^ 12) out
  third_letter src n i t v out place low hv =
      let index : i + 2 + 1 ≡ i + 3 = omega arith in
      next_letter 12 src n (i + 2) t v out (omega (arith, place)) (omega arith) low hv
        (omega (arith, hv))
      ∙ ap (λ x. b64decode_from src n x (t + v * 2 ^ 12) out) index

  -- A whole group.
  pub decode_group :
      (a b c t : ℕ) (src : List ℕ) (n i : ℕ) (out : List ℕ)
      → IsByte a
      → IsByte b
      → IsByte c
      → i % 4 ≡ 0
      → t ≡ a + b * 2 ^ 8 + c * 2 ^ 16
      → b64decode_from
          (letter alphabet (t % 64)
            ∷ letter alphabet (t / 64 % 64)
            ∷ letter alphabet (t / 64 / 64 % 64)
            ∷ letter alphabet (t / 64 / 64 / 64)
            ∷ src)
          (suc (suc (suc (suc n))))
          i
          0
          out
        ≡ b64decode_from src n (i + 4) 0 (out ++ (a ∷ b ∷ c ∷ []))
  decode_group a b c t src n i out ha hb hc place e =
      let v = t % 64 in
      let w = t / 64 % 64 in
      let x = t / 64 / 64 % 64 in
      let y = t / 64 / 64 / 64 in
      let low = v + w * 2 ^ 6 + x * 2 ^ 12 in
      let hy : y < 64 = omega (arith, ha, hb, hc, e) in
      let whole : low + y * 2 ^ 18 ≡ t = omega arith in
      let index : i + 3 + 1 ≡ i + 4 = omega arith in
      let bytes = triplet_bytes a b c ha hb hc (low + y * 2 ^ 18) (whole ∙ e) in
      two_letters (letter alphabet x ∷ letter alphabet y ∷ src) (suc (suc n)) i v w out place
        (omega arith) (omega arith)
      ∙ third_letter (letter alphabet y ∷ src) (suc n) i (v + w * 2 ^ 6) x out place (omega arith)
          (omega arith)
      ∙ group_end src n (i + 3) low y out hy (omega (arith, place)) (omega arith)
      ∙ ap (λ z. b64decode_from src n (i + 3 + 1) 0 (out ++ z)) bytes
      ∙ ap (λ z. b64decode_from src n z 0 (out ++ (a ∷ b ∷ c ∷ []))) index
