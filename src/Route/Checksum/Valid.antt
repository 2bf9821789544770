-- ===== src/Route/Checksum/Valid.antt =====
-- do_decrement_ttl of src/route.c keeps the checksum of an IPv4 header valid.
use tinc_quic.Common.{ℕ, ◌+◌, ◌-◌, ◌*◌, ◌%◌, ◌^◌, ◌≤◌, ◌<◌, ◌≡◌, refl, sym, ap, ◌∙◌, ◌≢◌, ◌⊎◌}
use tinc_quic.Common.{inl, inr, arith, All, IsByte, bytes_at, get_or-lt, length}
use tinc_quic.Route.{inet_checksum, Packet, do_decrement_ttl, ethlen, lower_ttl, at}
use tinc_quic.Route.{decrement_ipv4, packet_type, eth_p_ip, go_on}
use tinc_quic.Route.Checksum.{plain_sum, header, lower_ttl_bytes, header_length}
use tinc_quic.Route.Checksum.Sums.{accepted, bytes_at_same, set-IsByte, bytes_at-IsByte}
use tinc_quic.Route.Checksum.Sums.{header_sum, length-bytes_at}

lower_ttl-IsByte :
    (e : ℕ) (p : Packet) → All IsByte p.contents → All IsByte (lower_ttl e p).contents
unfolding lower_ttl
lower_ttl-IsByte e p bytes = set-IsByte _ (e + 11) _ (omega arith) (
    set-IsByte _ (e + 10) _ (omega arith) (
      set-IsByte p.contents (e + 8) (at p (e + 8) - 1)
        (omega (arith, get_or-lt 256 p.contents (e + 8) (omega arith) bytes)) bytes))

-- The first byte, and with it the length of the header, stays.
header_length-lower_ttl :
    (e : ℕ) (p : Packet)
    → All IsByte p.contents
    → e + 20 ≤ length p.contents
    → 0 < at p (e + 8)
    → header_length e (lower_ttl e p) ≡ header_length e p
header_length-lower_ttl e p bytes room some_left =
    let (_, _, rest) = lower_ttl_bytes e p bytes room some_left in
    ap (λ b. b % 16 * 4)
      (rest e (λ h. omega (arith, h)) (λ h. omega (arith, h)) (λ h. omega (arith, h)))

-- The new sum is the old one, or 65535 less and not 0.
lower_ttl-sum :
    (e k : ℕ) (p : Packet)
    → All IsByte p.contents
    → e + 20 ≤ length p.contents
    → 0 < at p (e + 8)
    → (plain_sum (bytes_at (lower_ttl e p).contents e (12 + k))
        ≡ plain_sum (bytes_at p.contents e (12 + k)))
      ⊎ ((plain_sum (bytes_at (lower_ttl e p).contents e (12 + k)) + 65535
            ≡ plain_sum (bytes_at p.contents e (12 + k)))
          × (0 < plain_sum (bytes_at (lower_ttl e p).contents e (12 + k))))
lower_ttl-sum e k p bytes room some_left =
    let q = lower_ttl e p in
    let (ttl, checksum, rest) = lower_ttl_bytes e p bytes room some_left in
    let before : bytes_at q.contents e 8 ≡ bytes_at p.contents e 8 =
      bytes_at_same q.contents p.contents e 8 (λ i a b.
        rest i (λ h. omega (arith, b, h)) (λ h. omega (arith, b, h)) (λ h. omega (arith, b, h))) in
    let behind : bytes_at q.contents (e + 12) k ≡ bytes_at p.contents (e + 12) k =
      bytes_at_same q.contents p.contents (e + 12) k (λ i a b.
        rest i (λ h. omega (arith, a, h)) (λ h. omega (arith, a, h)) (λ h. omega (arith, a, h))) in
    let protocol : at q (e + 9) ≡ at p (e + 9) =
      rest (e + 9) (λ h. omega (arith, h)) (λ h. omega (arith, h)) (λ h. omega (arith, h)) in
    let sum : plain_sum (bytes_at q.contents e (12 + k))
        ≡ plain_sum (bytes_at p.contents e 8)
          + (at q (e + 8)
              + at p (e + 9) * 2 ^ 8
              + (at q (e + 10) + at q (e + 11) * 2 ^ 8)
              + plain_sum (bytes_at p.contents (e + 12) k)) =
      header_sum q.contents e k ∙ rw (before, behind, protocol) refl in
    elim checksum [
      | inl up ↦ inl (omega (arith, sum, header_sum p.contents e k, ttl, up))
      | inr (down, positive) ↦
          inr
            (omega (arith, sum, header_sum p.contents e k, ttl, down), omega (arith, sum, positive))
    ]

lower_ttl_valid :
    (e n : ℕ) (p : Packet)
    → All IsByte p.contents
    → e + 20 ≤ length p.contents
    → 0 < at p (e + 8)
    → 20 ≤ n
    → n ≤ 60
    → inet_checksum (bytes_at p.contents e n) 0xFFFF ≡ 0
    → inet_checksum (bytes_at (lower_ttl e p).contents e n) 0xFFFF ≡ 0
lower_ttl_valid e n p bytes room some_left least most valid =
    let q = lower_ttl e p in
    let k = n - 12 in
    let parts : n ≡ 12 + k = omega (arith, least) in
    let as_sum =
      accepted (bytes_at p.contents e n) (bytes_at-IsByte p.contents e n bytes)
        (omega (arith, most, length-bytes_at p.contents e n)) in
    let as_sum' =
      accepted (bytes_at q.contents e n)
        (bytes_at-IsByte q.contents e n (lower_ttl-IsByte e p bytes))
        (omega (arith, most, length-bytes_at q.contents e n)) in
    let (multiple, positive) = as_sum.0 valid in
    let old = ap (λ i. plain_sum (bytes_at p.contents e i)) parts in
    let new = ap (λ i. plain_sum (bytes_at q.contents e i)) parts in
    as_sum'.1 (elim (lower_ttl-sum e k p bytes room some_left) [
      | inl same_sum ↦
          let same = new ∙ same_sum ∙ sym old in
          (ap (λ x. x % 65535) same ∙ multiple, omega (arith, same, positive))
      | inr (less, some_sum) ↦
          (omega (arith, less, multiple, old, new), omega (arith, some_sum, new))
    ])

takes_ipv4 :
    (p : Packet) → packet_type p ≡ eth_p_ip → do_decrement_ttl p ≡ decrement_ipv4 (ethlen p) p
unfolding do_decrement_ttl
takes_ipv4 p ip = ground (arith, ip)

decrement_form :
    (e : ℕ) (p q : Packet) → decrement_ipv4 e p ≡ go_on q → (q ≡ lower_ttl e p) × (0 < at p (e + 8))
unfolding decrement_ipv4
decrement_form e p q h = ground (arith, h)

decrements :
    (p q : Packet)
    → packet_type p ≡ eth_p_ip
    → do_decrement_ttl p ≡ go_on q
    → (q ≡ lower_ttl (ethlen p) p) × (0 < at p (ethlen p + 8))
decrements p q ip h = decrement_form (ethlen p) p q (sym (takes_ipv4 p ip) ∙ h)

header_valid :
    (e : ℕ) (p : Packet)
    → All IsByte p.contents
    → e + header_length e p ≤ length p.contents
    → 20 ≤ header_length e p
    → 0 < at p (e + 8)
    → inet_checksum (header e p) 0xFFFF ≡ 0
    → inet_checksum (header e (lower_ttl e p)) 0xFFFF ≡ 0
unfolding header
header_valid e p bytes room least some_left valid =
    let short : e + 20 ≤ length p.contents = omega (arith, room, least) in
    ap (λ n. inet_checksum (bytes_at (lower_ttl e p).contents e n) 0xFFFF)
      (header_length-lower_ttl e p bytes short some_left)
    ∙ lower_ttl_valid e (header_length e p) p bytes short some_left least (omega arith) valid

-- If do_decrement_ttl lets an IPv4 packet pass, with a VLAN tag or not, whose header has the length
-- that its first byte gives, 20 bytes at least and options included, and lies in the block, then the
-- time to live is one less, all bytes but that and the checksum's are as before, and a header whose
-- checksum was valid has a valid one again.
pub do_decrement_ttl_valid :
    (p q : Packet)
    → All IsByte p.contents
    → 20 ≤ header_length (ethlen p) p
    → ethlen p + header_length (ethlen p) p ≤ length p.contents
    → packet_type p ≡ eth_p_ip
    → do_decrement_ttl p ≡ go_on q
    → (at q (ethlen p + 8) + 1 ≡ at p (ethlen p + 8))
      × ((i : ℕ) → i ≢ ethlen p + 8 → i ≢ ethlen p + 10 → i ≢ ethlen p + 11 → at q i ≡ at p i)
      × (inet_checksum (header (ethlen p) p) 0xFFFF ≡ 0
          → inet_checksum (header (ethlen p) q) 0xFFFF ≡ 0)
do_decrement_ttl_valid p q bytes least room ip h =
    let (lowered, some_left) = decrements p q ip h in
    let short : ethlen p + 20 ≤ length p.contents = omega (arith, room, least) in
    let (ttl, _, rest) = lower_ttl_bytes (ethlen p) p bytes short some_left in
    (
      ap (λ (x : Packet). at x (ethlen p + 8) + 1) lowered ∙ ttl,
      λ i a b c. ap (λ (x : Packet). at x i) lowered ∙ rest i a b c,
      λ valid.
          ap (λ (x : Packet). inet_checksum (header (ethlen p) x) 0xFFFF) lowered
          ∙ header_valid (ethlen p) p bytes room least some_left valid,
    )
