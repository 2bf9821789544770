-- ===== src/Subnet/Compare/Order.antt =====
-- The order of the subnet trees.
use tinc_quic.Common.{ℕ, zero, suc, ◌≤◌, ◌≡◌, refl, arith, Bool, true, false, Option, none}
use tinc_quic.Common.{some, List, [], ◌∷◌, All}
use tinc_quic.Common.Int.{ℤ, pos, negsuc, is_negative, sub_ℕ, ◌-ℤ◌, bytes_compare, FitsInt}
use tinc_quic.Common.Int.{int_difference, to_int-FitsInt}
use tinc_quic.Subnet.{Subnet, Net, mac, ipv4, ipv6}
use tinc_quic.Subnet.Compare.{owner_compare, subnet_compare, subnet_compare_ipv4}
use tinc_quic.Subnet.Compare.{subnet_compare_ipv6, subnet_compare_mac, same_type, first_of}
use tinc_quic.Subnet.Compare.{type}

abbrev pub is_positive : ℤ → Bool
is_positive (pos zero) = false
is_positive (pos (suc n)) = true
is_positive (negsuc n) = false

-- Two results of opposite signs.
abbrev pub Opposite : ℤ → ℤ → Type 0
Opposite r s = (is_negative r ≡ is_positive s) × (is_positive r ≡ is_negative s)

sub_ℕ-Opposite : (x y : ℕ) → Opposite (sub_ℕ x y) (sub_ℕ y x)
sub_ℕ-Opposite x y = ground arith

difference-Opposite : (a b : ℤ) → Opposite (a -ℤ b) (b -ℤ a)
unfolding ◌-ℤ◌
difference-Opposite a b = ground arith

first_of-Opposite :
    (r s : ℤ) (r' s' : ℤ) → Opposite r r' → Opposite s s' → Opposite (first_of r s) (first_of r' s')
first_of-Opposite r s r' s' opp rest = ground (arith, opp, rest)

bytes_compare-Opposite : (x y : List ℕ) → Opposite (bytes_compare x y) (bytes_compare y x)
unfolding bytes_compare
bytes_compare-Opposite [] [] = (refl, refl)
bytes_compare-Opposite [] (y ∷ ys) = (refl, refl)
bytes_compare-Opposite (x ∷ xs) [] = (refl, refl)
bytes_compare-Opposite (x ∷ xs) (y ∷ ys) = ground (arith, bytes_compare-Opposite xs ys)

owner_compare-Opposite : (a b : Option (List ℕ)) → Opposite (owner_compare a b) (owner_compare b a)
owner_compare-Opposite none none = (refl, refl)
owner_compare-Opposite none (some y) = (refl, refl)
owner_compare-Opposite (some x) none = (refl, refl)
owner_compare-Opposite (some x) (some y) = bytes_compare-Opposite x y

-- The difference of two weights, either way, is an `int`.
abbrev pub DifferenceFits : Subnet → Subnet → Type 0
DifferenceFits a b = FitsInt (a.weight -ℤ b.weight) × FitsInt (b.weight -ℤ a.weight)

weight-Opposite :
    (a b : Subnet)
    → DifferenceFits a b
    → Opposite (int_difference a.weight b.weight) (int_difference b.weight a.weight)
unfolding int_difference
weight-Opposite a b (fit, fit') =
    rw (to_int-FitsInt (a.weight -ℤ b.weight) fit, to_int-FitsInt (b.weight -ℤ a.weight) fit')
      (difference-Opposite a.weight b.weight)

mac-Opposite :
    (x y : List ℕ) (a b : Subnet)
    → DifferenceFits a b
    → Opposite (subnet_compare_mac x y a b) (subnet_compare_mac y x b a)
unfolding subnet_compare_mac
mac-Opposite x y a b fits =
    first_of-Opposite (bytes_compare x y)
      (first_of (int_difference a.weight b.weight) (owner_compare a.owner b.owner))
      (bytes_compare y x)
      (first_of (int_difference b.weight a.weight) (owner_compare b.owner a.owner))
      (bytes_compare-Opposite x y)
      (first_of-Opposite (int_difference a.weight b.weight) (owner_compare a.owner b.owner)
        (int_difference b.weight a.weight) (owner_compare b.owner a.owner)
        (weight-Opposite a b fits) (owner_compare-Opposite a.owner b.owner))

ipv4-Opposite :
    (x y : List ℕ) (p q : ℕ) (a b : Subnet)
    → DifferenceFits a b
    → Opposite (subnet_compare_ipv4 x p y q a b) (subnet_compare_ipv4 y q x p b a)
unfolding subnet_compare_ipv4 subnet_compare_mac
ipv4-Opposite x y p q a b fits =
    first_of-Opposite (sub_ℕ q p) (subnet_compare_mac x y a b) (sub_ℕ p q)
      (subnet_compare_mac y x b a) (sub_ℕ-Opposite q p) (mac-Opposite x y a b fits)

ipv6-Opposite :
    (x y : List ℕ) (p q : ℕ) (a b : Subnet)
    → DifferenceFits a b
    → Opposite (subnet_compare_ipv6 x p y q a b) (subnet_compare_ipv6 y q x p b a)
unfolding subnet_compare_ipv6 subnet_compare_ipv4
ipv6-Opposite x y p q a b fits = ipv4-Opposite x y p q a b fits

same_type-Opposite :
    (m n : Net) (a b : Subnet)
    → DifferenceFits a b
    → Opposite (same_type m n a b) (same_type n m b a)
unfolding same_type
same_type-Opposite (mac x) (mac y) a b fits = mac-Opposite x y a b fits
same_type-Opposite (mac x) (ipv4 y q) a b fits = (refl, refl)
same_type-Opposite (mac x) (ipv6 y q) a b fits = (refl, refl)
same_type-Opposite (ipv4 x p) (mac y) a b fits = (refl, refl)
same_type-Opposite (ipv4 x p) (ipv4 y q) a b fits = ipv4-Opposite x y p q a b fits
same_type-Opposite (ipv4 x p) (ipv6 y q) a b fits = (refl, refl)
same_type-Opposite (ipv6 x p) (mac y) a b fits = (refl, refl)
same_type-Opposite (ipv6 x p) (ipv4 y q) a b fits = (refl, refl)
same_type-Opposite (ipv6 x p) (ipv6 y q) a b fits = ipv6-Opposite x y p q a b fits

-- If the difference of the weights does not overflow, comparing two subnets the other way round gives the opposite sign, so both subnets agree on
-- which of them comes first.
pub subnet_compare-Opposite :
    (a b : Subnet) → DifferenceFits a b → Opposite (subnet_compare a b) (subnet_compare b a)
unfolding subnet_compare
subnet_compare-Opposite a b fits =
    first_of-Opposite (sub_ℕ (type a.net) (type b.net)) (same_type a.net b.net a b)
      (sub_ℕ (type b.net) (type a.net)) (same_type b.net a.net b a)
      (sub_ℕ-Opposite (type a.net) (type b.net)) (same_type-Opposite a.net b.net a b fits)

-- The tree is in strict order.
abbrev pub Before : Subnet → Subnet → Type 0
Before p q = is_negative (subnet_compare p q) ≡ true

abbrev pub Sorted : List Subnet → Type 0
Sorted [] = Unit
Sorted (p ∷ tree) = All (Before p) tree × Sorted tree

abbrev pub prefixlength : Net → ℕ
prefixlength (mac x) = 0
prefixlength (ipv4 x m) = m
prefixlength (ipv6 x m) = m

by_net :
    (m n : Net) (p q : Subnet)
    → type m ≡ type n
    → is_negative (first_of (sub_ℕ (type m) (type n)) (same_type m n p q)) ≡ true
    → prefixlength n ≤ prefixlength m
unfolding same_type subnet_compare_ipv4 subnet_compare_ipv6
by_net (mac x) n p q same before = ground arith
by_net (ipv4 x m) (ipv4 y n) p q same before = ground arith
by_net (ipv6 x m) (ipv6 y n) p q same before = ground arith
by_net (ipv4 x m) (mac y) p q same before = omega arith
by_net (ipv4 x m) (ipv6 y n) p q same before = absurd (omega (arith, same))
by_net (ipv6 x m) (mac y) p q same before = omega arith
by_net (ipv6 x m) (ipv4 y n) p q same before = absurd (omega (arith, same))

-- Of two subnets of one type, the one before has no shorter prefix.
pub Before-prefixlength :
    (p q : Subnet) → type p.net ≡ type q.net → Before p q → prefixlength q.net ≤ prefixlength p.net
unfolding subnet_compare
Before-prefixlength p q same before = by_net p.net q.net p q same before
