-- ===== src/Route/Fragment/Header.antt =====
-- The headers of fragments, and their checksums.
use tinc_quic.Common.{ℕ, zero, suc, ◌+◌, ◌^◌, ◌≤◌, ◌<◌, ◌≡◌, refl, ap, ◌∙◌, arith, List, []}
use tinc_quic.Common.{◌∷◌, ◌++◌, bytes_at, length, get_or, All, IsByte, get_or-lt}
use tinc_quic.Route.{Packet, at, inet_checksum}
use tinc_quic.Route.Checksum.{plain_sum}
use tinc_quic.Route.Checksum.Sums.{completed, accepted}
use tinc_quic.Route.Fragment.{fragment_header}

bytes_at_cons : (x : ℕ) (m : List ℕ) (s n : ℕ) → bytes_at (x ∷ m) (s + 1) n ≡ bytes_at m s n
bytes_at_cons x m s zero = refl
bytes_at_cons x m s (suc n) =
    let one_more : s + 1 ≡ suc s = omega arith in
    let next : get_or (x ∷ m) (s + 1) 0 ≡ get_or m s 0 = ap (λ i. get_or (x ∷ m) i 0) one_more in
    rw (next) (ap (λ r. get_or m s 0 ∷ r) (bytes_at_cons x m (s + 1) n))

bytes_at_front : (ys zs : List ℕ) → bytes_at (ys ++ zs) 0 (length ys) ≡ ys
bytes_at_front [] zs = refl
bytes_at_front (y ∷ ys) zs =
    ap (λ r. y ∷ r) (bytes_at_cons y (ys ++ zs) 0 (length ys) ∙ bytes_at_front ys zs)

pub bytes_at_middle : (xs ys zs : List ℕ) → bytes_at (xs ++ (ys ++ zs)) (length xs) (length ys) ≡ ys
bytes_at_middle [] ys zs = bytes_at_front ys zs
bytes_at_middle (x ∷ xs) ys zs =
    let next : suc (length xs) ≡ length xs + 1 = omega arith in
    rw (next) (bytes_at_cons x (xs ++ (ys ++ zs)) (length xs) (length ys))
    ∙ bytes_at_middle xs ys zs

pub length-fragment_header :
    (e : ℕ) (p : Packet) (ip_len ip_off sum : ℕ)
    → length (fragment_header e p ip_len ip_off sum) ≡ 20
unfolding fragment_header
length-fragment_header e p ip_len ip_off sum = refl

fragment_header-IsByte :
    (e : ℕ) (p : Packet) (ip_len ip_off sum : ℕ)
    → All IsByte p.contents
    → All IsByte (fragment_header e p ip_len ip_off sum)
unfolding fragment_header
fragment_header-IsByte e p ip_len ip_off sum bytes =
    let b : (i : ℕ) → IsByte (get_or p.contents i 0) =
      λ i. get_or-lt 256 p.contents i (omega arith) bytes in
    (
      b _,
      (
        b _,
        (
          omega arith,
          (
            omega arith,
            (
              b _,
              (
                b _,
                (
                  omega arith,
                  (
                    omega arith,
                    (
                      b _,
                      (
                        b _,
                        (
                          omega arith,
                          (omega arith, (b _, (b _, (b _, (b _, (b _, (b _, (b _, (b _, tt))))))))),
                        ),
                      ),
                    ),
                  ),
                ),
              ),
            ),
          ),
        ),
      ),
    )

-- The checksum adds itself to the sum of the header.
header-sum :
    (e : ℕ) (p : Packet) (ip_len ip_off sum : ℕ)
    → sum < 2 ^ 16
    → plain_sum (fragment_header e p ip_len ip_off sum)
      ≡ plain_sum (fragment_header e p ip_len ip_off 0) + sum
unfolding fragment_header plain_sum
header-sum e p ip_len ip_off sum h = omega (arith, h)

fragment_header_positive :
    (e : ℕ) (p : Packet) (ip_len ip_off : ℕ)
    → 0 < at p e
    → 0 < plain_sum (fragment_header e p ip_len ip_off 0)
unfolding fragment_header plain_sum
fragment_header_positive e p ip_len ip_off h = omega (arith, h)

-- The checksum that is put in makes a header valid.
pub fragment_header_valid :
    (e : ℕ) (p : Packet) (ip_len ip_off : ℕ)
    → All IsByte p.contents
    → 0 < at p e
    → inet_checksum
        (fragment_header e p ip_len ip_off
          (inet_checksum (fragment_header e p ip_len ip_off 0) 0xFFFF))
        0xFFFF
      ≡ 0
fragment_header_valid e p ip_len ip_off bytes version =
    let without = fragment_header e p ip_len ip_off 0 in
    let c = inet_checksum without 0xFFFF in
    let short : (sum : ℕ) → length (fragment_header e p ip_len ip_off sum) ≤ 20 =
      λ sum. omega (arith, length-fragment_header e p ip_len ip_off sum) in
    let (small, multiple, positive) =
      completed without (fragment_header-IsByte e p ip_len ip_off 0 bytes) (short 0)
        (fragment_header_positive e p ip_len ip_off version) in
    (accepted (fragment_header e p ip_len ip_off c)
        (fragment_header-IsByte e p ip_len ip_off c bytes) (omega (arith, short c))).1
      (rw (header-sum e p ip_len ip_off c small) (multiple, positive))
