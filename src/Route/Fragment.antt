-- ===== src/Route/Fragment.antt =====
-- fragment_ipv4_packet of src/route.c.
pub mod Header
pub mod Whole
use tinc_quic.Common.{ℕ, zero, suc, ◌+◌, ◌-◌, ◌*◌, ◌/◌, ◌%◌, ◌^◌, ◌≤◌, ◌<◌, bit_and, bit_or}
use tinc_quic.Common.{◌≡◌, refl, sym, ap, ◌∙◌, ◌≢◌, ◌↔◌, ◌⊎◌, inl, inr, arith, Bool, true}
use tinc_quic.Common.{false, ◌&&◌, ◌||◌, not, Option, none, some, List, [], ◌∷◌, ◌++◌, map, ltb}
use tinc_quic.Common.{leb, ◌==◌, if◌then◌else◌, ◌>>=◌, bytes_at, u16, u8}
use Prim.Native.Nat.{max}
use tinc_quic.Route.{Packet, ip_size, word, at, inet_checksum}

-- The IP header of a fragment, from that of the packet: `sum` is in the order of the machine.
unfoldable pub fragment_header : ℕ → Packet → ℕ → ℕ → ℕ → List ℕ
fragment_header e p ip_len ip_off sum =
    bytes_at p.contents e 2
    ++ (u8 (ip_len / 2 ^ 8) ∷ u8 ip_len ∷ bytes_at p.contents (e + 4) 2
        ++ (u8 (ip_off / 2 ^ 8) ∷ u8 ip_off ∷ bytes_at p.contents (e + 8) 2
            ++ (u8 sum ∷ u8 (sum / 2 ^ 8) ∷ bytes_at p.contents (e + 12) 8)))

-- The fragment with the `len` bytes at `offset`.
unfoldable pub fragment_of : ℕ → Packet → ℕ → ℕ → ℕ → Packet
fragment_of e p offset len ip_off =
    let without_sum = fragment_header e p (ip_size + len) ip_off 0 in
    let ip_sum = inet_checksum without_sum 0xFFFF in
    record {
      contents =
          bytes_at p.contents 0 e
          ++ (fragment_header e p (ip_size + len) ip_off ip_sum ++ bytes_at p.contents offset len);
      len = e + ip_size + len;
      priority = p.priority;
    }

-- The loop; `origf` are the flags of the packet, and each round takes a byte at least.
unfoldable pub fragments_from : ℕ → ℕ → Packet → ℕ → ℕ → ℕ → ℕ → ℕ → List Packet
fragments_from zero e p maxlen origf offset todo ip_off = []
fragments_from (suc fuel) e p maxlen origf offset todo ip_off =
    let len = if ltb maxlen todo then maxlen else todo in
    let more = if todo - len == 0 then 0 else 0x2000 in
    let rest =
      fragments_from fuel e p maxlen origf (offset + len) (todo - len) (u16 (ip_off + len / 8)) in
    if todo == 0 then [] else fragment_of e p offset len (bit_or (bit_or ip_off origf) more) ∷ rest

-- `(MAX(dest->mtu, 590) - ether_size - ip_size) & ~0x7`
unfoldable pub fragment_room : ℕ → ℕ → ℕ
fragment_room e mtu = let room = max mtu 590 - e - ip_size in room - room % 8

-- What is sent to a node with this MTU; `todo` would be negative only where the lengths differ.
unfoldable pub fragment_ipv4_packet : ℕ → ℕ → Packet → List Packet
fragment_ipv4_packet mtu e p =
    let ip_len = word p (e + 2) in
    let ip_off = word p (e + 6) in
    let todo = ip_len - ip_size in
    if not (at p e % 16 == ip_size / 4)
    then []
    else if not (e + ip_len == p.len)
    then []
    else fragments_from todo e p (fragment_room e mtu) (ip_off - ip_off % 2 ^ 13) (e + ip_size) todo
        (ip_off % 2 ^ 13)
