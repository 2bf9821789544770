-- ===== src/Subnet.antt =====
-- src/subnet_parse.c and src/subnet.c: network masks, the order of subnets, and the lookup of the
-- subnet that an address belongs to. An address is the list of its bytes in network order.
pub mod Mask
pub mod Compare
pub mod Lookup
mod Tests
use tinc_quic.Common.{ℕ, zero, suc, ◌+◌, ◌-◌, ◌*◌, ◌/◌, ◌%◌, ◌^◌, ◌≤◌, ◌<◌, bit_and, bit_or}
use tinc_quic.Common.{◌≡◌, refl, sym, ap, ◌∙◌, ◌≢◌, ◌↔◌, ◌⊎◌, inl, inr, arith, Bool, true}
use tinc_quic.Common.{false, ◌&&◌, ◌||◌, not, Option, none, some, List, [], ◌∷◌, ◌++◌, map, ltb}
use tinc_quic.Common.{leb, ◌==◌, if◌then◌else◌, ◌>>=◌}
use tinc_quic.Common.Int.{ℤ}

-- `subnet_t.type` with `subnet_t.net`; the number behind an IP address is the prefix length.
pub data Net : Type 0 where
  mac : List ℕ → Net
  ipv4 : List ℕ → ℕ → Net
  ipv6 : List ℕ → ℕ → Net

-- `subnet_t`. The owner is given by its name, which is the key of the node tree.
pub record Subnet : Type 0 where
  pub net : Net
  pub weight : ℤ
  pub owner : Option (List ℕ)
  pub expires : ℕ
