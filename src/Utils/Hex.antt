-- ===== src/Utils/Hex.antt =====
-- hex2bin and bin2hex of src/utils.c. Both work on one memory, the list of its bytes, in which
-- `src` and `dst` are positions: control.c converts the control cookie in place.
pub mod Digits
pub mod RoundTrip
use tinc_quic.Common.{ℕ, zero, suc, ◌+◌, ◌-◌, ◌*◌, ◌/◌, ◌%◌, ◌^◌, ◌≤◌, ◌<◌, bit_and, bit_or}
use tinc_quic.Common.{◌≡◌, refl, sym, ap, ◌∙◌, ◌≢◌, ◌↔◌, ◌⊎◌, inl, inr, arith, Bool, true}
use tinc_quic.Common.{false, ◌&&◌, ◌||◌, not, Option, none, some, List, [], ◌∷◌, ◌++◌, map, ltb}
use tinc_quic.Common.{leb, ◌==◌, if◌then◌else◌, ◌>>=◌, codes, get_or, set, u8}

abbrev pub isdigit : ℕ → Bool
isdigit c = leb b'0' c && leb c b'9'

abbrev pub isupper : ℕ → Bool
isupper c = leb b'A' c && leb c b'Z'

abbrev pub islower : ℕ → Bool
islower c = leb b'a' c && leb c b'z'

unfoldable pub isxdigit : ℕ → Bool
isxdigit c = isdigit c || leb b'A' c && leb c b'F' || leb b'a' c && leb c b'f'

abbrev pub toupper : ℕ → ℕ
toupper c = if islower c then c - 32 else c

abbrev pub hexadecimals : List ℕ
hexadecimals = codes "0123456789ABCDEF"

unfoldable pub charhex2bin : ℕ → ℕ
charhex2bin c = if isdigit c then c - b'0' else toupper c - b'A' + 10

-- The bytes that the loop writes to `dst` from `i` on, with `n` rounds to go; how many they are is
-- what hex2bin returns.
pub hex2bin_from : List ℕ → ℕ → ℕ → ℕ → List ℕ
hex2bin_from memory src i zero = []
hex2bin_from memory src i (suc n) =
    let high = get_or memory (src + i * 2) 0 in
    let low = get_or memory (src + (i * 2 + 1)) 0 in
    let rest = hex2bin_from memory src (i + 1) n in
    if isxdigit high && isxdigit low
    then u8 (charhex2bin high * 16 + charhex2bin low) ∷ rest
    else []

unfoldable pub hex2bin : List ℕ → ℕ → ℕ → List ℕ
hex2bin memory src length = hex2bin_from memory src 0 length

-- The loop, which goes down to the first byte.
unfoldable pub bin2hex_below : List ℕ → ℕ → ℕ → ℕ → List ℕ
bin2hex_below memory src dst zero = memory
bin2hex_below memory src dst (suc i) =
    let low = get_or hexadecimals (get_or memory (src + i) 0 % 16) 0 in
    let written = set memory (dst + (i * 2 + 1)) low in
    let high = get_or hexadecimals (get_or written (src + i) 0 / 16) 0 in
    bin2hex_below (set written (dst + i * 2) high) src dst i

unfoldable pub bin2hex : List ℕ → ℕ → ℕ → ℕ → List ℕ × ℕ
bin2hex memory src dst length =
    (set (bin2hex_below memory src dst length) (dst + length * 2) 0, length * 2)
