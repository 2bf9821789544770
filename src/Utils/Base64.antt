-- ===== src/Utils/Base64.antt =====
-- Base64 of src/utils.c, in tinc's order: the first character has the low six bits. Source and
-- destination are blocks apart. Plain `char` is signed, so -1 becomes 0xFFFFFFFF before the shift.
pub mod Letters
pub mod RoundTrip
use tinc_quic.Common.{ℕ, zero, suc, ◌+◌, ◌-◌, ◌*◌, ◌/◌, ◌%◌, ◌^◌, ◌≤◌, ◌<◌, bit_and, bit_or}
use tinc_quic.Common.{◌≡◌, refl, sym, ap, ◌∙◌, ◌≢◌, ◌↔◌, ◌⊎◌, inl, inr, arith, Bool, true}
use tinc_quic.Common.{false, ◌&&◌, ◌||◌, not, Option, none, some, List, [], ◌∷◌, ◌++◌, map, ltb}
use tinc_quic.Common.{leb, ◌==◌, if◌then◌else◌, ◌>>=◌, codes, get_or, u32, u8}

abbrev pub base64_original : List ℕ
base64_original = codes "ABCDEFGHIJKLMNOPQRSTUVWXYZabcdefghijklmnopqrstuvwxyz0123456789+/"

abbrev pub base64_urlsafe : List ℕ
base64_urlsafe = codes "ABCDEFGHIJKLMNOPQRSTUVWXYZabcdefghijklmnopqrstuvwxyz0123456789-_"

-- The table of the values of characters, by ranges: both alphabets are read.
unfoldable pub base64_decode : ℕ → ℕ
base64_decode c =
    if leb b'A' c && leb c b'Z'
    then c - b'A'
    else if leb b'a' c && leb c b'z'
    then c - b'a' + 26
    else if leb b'0' c && leb c b'9'
    then c - b'0' + 52
    else if c == b'+' || c == b'-'
    then 62
    else if c == b'/' || c == b'_'
    then 63
    else 0xFFFFFFFF

-- `triplet & 0xff000000U`
abbrev pub overflows : ℕ → Bool
overflows triplet = ltb 0 (triplet / 2 ^ 24 % 2 ^ 8)

-- The end of b64decode, with `i` characters read: what is left in `triplet`.
unfoldable pub finish : ℕ → ℕ → List ℕ → List ℕ
finish i triplet out =
    if overflows triplet
    then []
    else if i % 4 == 3
    then out ++ (u8 triplet ∷ u8 (triplet / 2 ^ 8) ∷ [])
    else if i % 4 == 2
    then out ++ (u8 triplet ∷ [])
    else out

unfoldable pub add_character : ℕ → ℕ → ℕ → ℕ
add_character triplet c i = bit_or triplet (u32 (base64_decode c * 2 ^ (6 * (i % 4))))

-- The loop, `length` characters to go at most; `out` is what was written, and [] is a returned 0.
unfoldable pub b64decode_from : List ℕ → ℕ → ℕ → ℕ → List ℕ → List ℕ
b64decode_from [] length i triplet out = finish i triplet out
b64decode_from (c ∷ src) zero i triplet out = finish i triplet out
b64decode_from (c ∷ src) (suc length) i triplet out =
    let triplet' = add_character triplet c i in
    let bytes = u8 triplet' ∷ u8 (triplet' / 2 ^ 8) ∷ u8 (triplet' / 2 ^ 16) ∷ [] in
    let next = b64decode_from src length (i + 1) triplet' out in
    let next_group = b64decode_from src length (i + 1) 0 (out ++ bytes) in
    if c == 0
    then finish i triplet out
    else if i % 4 == 3
    then if overflows triplet' then [] else next_group
    else next

-- `src` is the text up to its terminator.
unfoldable pub b64decode : List ℕ → ℕ → List ℕ
b64decode src length = b64decode_from src length 0 0 []

module _ (alphabet : List ℕ) where
  abbrev pub letter : ℕ → ℕ
  letter value = get_or alphabet value 0

  -- The one, two or no bytes behind the last whole group.
  unfoldable pub last_letters : List ℕ → ℕ → ℕ → List ℕ
  last_letters usrc si rest =
      let low = get_or usrc si 0 in
      let pair = bit_or low (get_or usrc (si + 1) 0 * 2 ^ 8) in
      if rest == 2
      then letter (pair % 64) ∷ letter (pair / 64 % 64) ∷ letter (pair / 64 / 64) ∷ []
      else if rest == 1
      then letter (low % 64) ∷ letter (low / 64) ∷ []
      else []

  unfoldable pub group_letters : List ℕ → ℕ → List ℕ
  group_letters usrc si =
      let low = bit_or (get_or usrc si 0) (get_or usrc (si + 1) 0 * 2 ^ 8) in
      let triplet = bit_or low (get_or usrc (si + 2) 0 * 2 ^ 16) in
      letter (triplet % 64)
      ∷ letter (triplet / 64 % 64)
      ∷ letter (triplet / 64 / 64 % 64)
      ∷ letter (triplet / 64 / 64 / 64)
      ∷ []

  -- The loop from the last whole group to the first; `text` is what stands behind them.
  unfoldable pub encode_groups : List ℕ → ℕ → List ℕ → List ℕ
  encode_groups usrc zero text = text
  encode_groups usrc (suc k) text = encode_groups usrc k (group_letters usrc (3 * k) ++ text)

  -- The text; its length is what is returned.
  unfoldable pub b64encode_internal : List ℕ → ℕ → List ℕ
  b64encode_internal src length =
      encode_groups src (length / 3) (last_letters src (length / 3 * 3) (length % 3))

unfoldable pub b64encode : List ℕ → ℕ → List ℕ
b64encode src length = b64encode_internal base64_original src length

unfoldable pub b64encode_urlsafe : List ℕ → ℕ → List ℕ
b64encode_urlsafe src length = b64encode_internal base64_urlsafe src length
