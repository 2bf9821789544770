-- ===== src/Route/Checksum/Sums.antt =====
-- The sums of the words of a header of src/route.c.
use tinc_quic.Common.{ℕ, zero, suc, ◌+◌, ◌*◌, ◌%◌, ◌^◌, ◌≤◌, ◌<◌, ◌≡◌, refl, ap, ◌∙◌, ◌↔◌}
use tinc_quic.Common.{arith, List, [], ◌∷◌, ◌++◌, All, get_or, IsByte, bytes_at, bytes_at_split}
use tinc_quic.Common.{get_or-lt, length, set}
use tinc_quic.Route.{inet_checksum, sum_words}
use tinc_quic.Route.Checksum.{plain_sum, sum_words-plain_sum, accepts, fold_carries-remainder}

pub bytes_at_same :
    (m m' : List ℕ) (s n : ℕ)
    → ((i : ℕ) → s ≤ i → i < s + n → get_or m i 0 ≡ get_or m' i 0)
    → bytes_at m s n ≡ bytes_at m' s n
bytes_at_same m m' s zero h = refl
bytes_at_same m m' s (suc n) h = rw (h s (omega arith) (omega arith)) (
    ap (λ r. get_or m' s 0 ∷ r)
      (bytes_at_same m m' (s + 1) n (λ i a b. h i (omega (arith, a)) (omega (arith, b)))))

pub set-IsByte : (m : List ℕ) (i v : ℕ) → IsByte v → All IsByte m → All IsByte (set m i v)
set-IsByte [] i v hv h = tt
set-IsByte (x ∷ m) zero v hv h = (hv, h.1)
set-IsByte (x ∷ m) (suc i) v hv h = (h.0, set-IsByte m i v hv (h.1))

pub bytes_at-IsByte : (m : List ℕ) (s n : ℕ) → All IsByte m → All IsByte (bytes_at m s n)
bytes_at-IsByte m s zero h = tt
bytes_at-IsByte m s (suc n) h = (get_or-lt 256 m s (omega arith) h, bytes_at-IsByte m (s + 1) n h)

pub length-bytes_at : (m : List ℕ) (s n : ℕ) → length (bytes_at m s n) ≡ n
length-bytes_at m s zero = refl
length-bytes_at m s (suc n) = ap suc (length-bytes_at m (s + 1) n)

eight_more :
    (m ys : List ℕ) (s : ℕ)
    → plain_sum (bytes_at m s 8 ++ ys) ≡ plain_sum (bytes_at m s 8) + plain_sum ys
unfolding plain_sum
eight_more m ys s = omega arith

four_more :
    (m ys : List ℕ) (s : ℕ)
    → plain_sum (bytes_at m s 4 ++ ys)
      ≡ get_or m s 0
        + get_or m (s + 1) 0 * 2 ^ 8
        + (get_or m (s + 2) 0 + get_or m (s + 3) 0 * 2 ^ 8)
        + plain_sum ys
unfolding plain_sum
four_more m ys s =
    let two : s + 1 + 1 ≡ s + 2 = omega arith in
    let three : s + 1 + 1 + 1 ≡ s + 3 = omega arith in
    omega (arith, ap (λ i. get_or m i 0) two, ap (λ i. get_or m i 0) three)

-- The sum of a header, around its bytes 8 to 11.
pub header_sum :
    (m : List ℕ) (e k : ℕ)
    → plain_sum (bytes_at m e (12 + k))
      ≡ plain_sum (bytes_at m e 8)
        + (get_or m (e + 8) 0
            + get_or m (e + 9) 0 * 2 ^ 8
            + (get_or m (e + 10) 0 + get_or m (e + 11) 0 * 2 ^ 8)
            + plain_sum (bytes_at m (e + 12) k))
header_sum m e k =
    let at_9 : e + 8 + 1 ≡ e + 9 = omega arith in
    let at_10 : e + 8 + 2 ≡ e + 10 = omega arith in
    let at_11 : e + 8 + 3 ≡ e + 11 = omega arith in
    let at_12 : e + 8 + 4 ≡ e + 12 = omega arith in
    let parts : 12 + k ≡ 8 + (4 + k) = omega arith in
    ap (λ n. plain_sum (bytes_at m e n)) parts
    ∙ ap plain_sum (bytes_at_split m e 8 (4 + k))
    ∙ eight_more m (bytes_at m (e + 8) (4 + k)) e
    ∙ ap (λ r. plain_sum (bytes_at m e 8) + plain_sum r) (bytes_at_split m (e + 8) 4 k)
    ∙ ap (λ r. plain_sum (bytes_at m e 8) + r) (four_more m (bytes_at m (e + 8 + 4) k) (e + 8))
    ∙ rw (at_9, at_10, at_11, at_12) refl

plain_sum-le : (vdata : List ℕ) → All IsByte vdata → plain_sum vdata ≤ length vdata * 2 ^ 16
unfolding plain_sum
plain_sum-le [] h = omega arith
plain_sum-le (x ∷ []) h = omega (arith, h.0)
plain_sum-le (x ∷ y ∷ vdata) h = omega (arith, h.0, h.1.0, plain_sum-le vdata (h.1.1))

-- A short block has the checksum 0 exactly if the sum of its words is a multiple of 65535, not 0.
pub accepted :
    (vdata : List ℕ)
    → All IsByte vdata
    → length vdata ≤ 60
    → (inet_checksum vdata 0xFFFF ≡ 0) ↔ ((plain_sum vdata % 65535 ≡ 0) × (0 < plain_sum vdata))
unfolding inet_checksum
accepted vdata bytes short =
    let plain : sum_words vdata 0 ≡ plain_sum vdata =
      sum_words-plain_sum vdata 0 bytes (omega (arith, short)) ∙ omega arith in
    rw (plain) (accepts (plain_sum vdata) (omega (arith, plain_sum-le vdata bytes, short)))

-- The checksum of a short block, added to its sum, completes it to a multiple of 65535.
pub completed :
    (vdata : List ℕ)
    → All IsByte vdata
    → length vdata ≤ 20
    → 0 < plain_sum vdata
    → (inet_checksum vdata 0xFFFF < 2 ^ 16)
      × ((plain_sum vdata + inet_checksum vdata 0xFFFF) % 65535 ≡ 0)
      × (0 < plain_sum vdata + inet_checksum vdata 0xFFFF)
unfolding inet_checksum
completed vdata bytes short positive =
    let plain : sum_words vdata 0 ≡ plain_sum vdata =
      sum_words-plain_sum vdata 0 bytes (omega (arith, short)) ∙ omega arith in
    let (small, remainder, zeros) =
      fold_carries-remainder (plain_sum vdata) (omega (arith, plain_sum-le vdata bytes, short)) in
    rw (plain) (omega arith, omega (arith, small, remainder), omega (arith, positive))
