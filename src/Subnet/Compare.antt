-- ===== src/Subnet/Compare.antt =====
-- subnet_compare of src/subnet_parse.c.
pub mod Order
use tinc_quic.Common.{ℕ, zero, suc, ◌+◌, ◌-◌, ◌*◌, ◌/◌, ◌%◌, ◌^◌, ◌≤◌, ◌<◌, bit_and, bit_or}
use tinc_quic.Common.{◌≡◌, refl, sym, ap, ◌∙◌, ◌≢◌, ◌↔◌, ◌⊎◌, inl, inr, arith, Bool, true}
use tinc_quic.Common.{false, ◌&&◌, ◌||◌, not, Option, none, some, List, [], ◌∷◌, ◌++◌, map, ltb}
use tinc_quic.Common.{leb, ◌==◌, if◌then◌else◌, ◌>>=◌}
use tinc_quic.Common.Int.{ℤ, pos, negsuc, is_zero, is_negative, sub_ℕ, int_difference}
use tinc_quic.Common.Int.{bytes_compare}
use tinc_quic.Subnet.{Net, Subnet, mac, ipv4, ipv6}

-- `subnet_type_t`
abbrev pub type : Net → ℕ
type (mac address) = 0
type (ipv4 address prefixlength) = 1
type (ipv6 address prefixlength) = 2

-- `if(result) return result;`, and else what comes next
abbrev pub first_of : ℤ → ℤ → ℤ
first_of result next = if is_zero result then next else result

-- `strcmp` of the owners' names, if there are two owners.
abbrev pub owner_compare : Option (List ℕ) → Option (List ℕ) → ℤ
owner_compare none b = pos 0
owner_compare (some x) none = pos 0
owner_compare (some x) (some y) = bytes_compare x y

unfoldable pub subnet_compare_mac : List ℕ → List ℕ → Subnet → Subnet → ℤ
subnet_compare_mac x y a b =
    first_of (bytes_compare x y)
      (first_of (int_difference a.weight b.weight) (owner_compare a.owner b.owner))

unfoldable pub subnet_compare_ipv4 : List ℕ → ℕ → List ℕ → ℕ → Subnet → Subnet → ℤ
subnet_compare_ipv4 x p y q a b = first_of (sub_ℕ q p) (
    first_of (bytes_compare x y)
      (first_of (int_difference a.weight b.weight) (owner_compare a.owner b.owner)))

unfoldable pub subnet_compare_ipv6 : List ℕ → ℕ → List ℕ → ℕ → Subnet → Subnet → ℤ
subnet_compare_ipv6 x p y q a b = first_of (sub_ℕ q p) (
    first_of (bytes_compare x y)
      (first_of (int_difference a.weight b.weight) (owner_compare a.owner b.owner)))

-- The switch on the type, which both have.
unfoldable pub same_type : Net → Net → Subnet → Subnet → ℤ
same_type (mac x) (mac y) a b = subnet_compare_mac x y a b
same_type (ipv4 x p) (ipv4 y q) a b = subnet_compare_ipv4 x p y q a b
same_type (ipv6 x p) (ipv6 y q) a b = subnet_compare_ipv6 x p y q a b
same_type m n a b = pos 0

unfoldable pub subnet_compare : Subnet → Subnet → ℤ
subnet_compare a b = first_of (sub_ℕ (type a.net) (type b.net)) (same_type a.net b.net a b)
