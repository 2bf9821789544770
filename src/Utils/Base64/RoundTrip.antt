-- ===== src/Utils/Base64/RoundTrip.antt =====
-- Decoding what was encoded, in either alphabet.
use tinc_quic.Common.{ℕ, zero, suc, ◌+◌, ◌-◌, ◌*◌, ◌/◌, ◌%◌, ◌^◌, ◌≤◌, ◌<◌, bit_or, ◌≡◌, refl}
use tinc_quic.Common.{sym, ap, ◌∙◌, arith, false, List, [], ◌∷◌, ◌++◌, All, IsByte, get_or}
use tinc_quic.Common.{bytes_at, get_or-lt, bit_or-above, bytes_at_split, u8}
use mathlib.Core.List.{append-nil, append_assoc}
use tinc_quic.Utils.Base64.{encode_groups, group_letters, b64decode_from, last_letters, finish}
use tinc_quic.Utils.Base64.{b64decode, b64encode, b64encode_internal, b64encode_urlsafe, letter}
use tinc_quic.Utils.Base64.{overflows, base64_original, base64_urlsafe}
use tinc_quic.Utils.Base64.Letters.{IsAlphabet, decode_group, two_letters, third_letter}
use tinc_quic.Utils.Base64.Letters.{original-IsAlphabet, urlsafe-IsAlphabet}

-- The text of `k` groups from group `j` on, with `text` behind it, from the front.
groups_from : List ℕ → List ℕ → ℕ → ℕ → List ℕ → List ℕ
groups_from alphabet src j zero text = text
groups_from alphabet src j (suc k) text =
    group_letters alphabet src (3 * j) ++ groups_from alphabet src (j + 1) k text

groups_from_snoc :
    (alphabet src : List ℕ) (j k : ℕ) (text : List ℕ)
    → groups_from alphabet src j (suc k) text
      ≡ groups_from alphabet src j k (group_letters alphabet src (3 * (j + k)) ++ text)
unfolding groups_from
groups_from_snoc alphabet src j zero text = let e : j + 0 ≡ j = omega arith in rw (e)
groups_from_snoc alphabet src j (suc k) text =
    let e : j + suc k ≡ j + 1 + k = omega arith in
    rw (e) (
      ap (λ r. group_letters alphabet src (3 * j) ++ r)
        (groups_from_snoc alphabet src (j + 1) k text))

encode_groups-groups_from :
    (alphabet src : List ℕ) (k : ℕ) (text : List ℕ)
    → encode_groups alphabet src k text ≡ groups_from alphabet src 0 k text
unfolding encode_groups groups_from
encode_groups-groups_from alphabet src zero text = refl
encode_groups-groups_from alphabet src (suc k) text =
    let e : 0 + k ≡ k = omega arith in
    encode_groups-groups_from alphabet src k (group_letters alphabet src (3 * k) ++ text)
    ∙ sym (
        groups_from_snoc alphabet src 0 k text
        ∙ ap (λ x. groups_from alphabet src 0 k (group_letters alphabet src (3 * x) ++ text)) e)

decode_nothing : (n i t : ℕ) (out : List ℕ) → b64decode_from [] n i t out ≡ finish i t out
unfolding b64decode_from
decode_nothing n i t out = refl

finish_whole : (i : ℕ) (out : List ℕ) → i % 4 ≡ 0 → finish i 0 out ≡ out
unfolding finish
finish_whole i out place = ground (arith, place)

finish_one :
    (i a : ℕ) (out : List ℕ) → i % 4 ≡ 0 → IsByte a → finish (i + 2) a out ≡ out ++ (a ∷ [])
unfolding finish
finish_one i a out place h =
    let byte : u8 a ≡ a = omega (arith, h) in ground (arith, place, ap (λ x. out ++ (x ∷ [])) byte)

finish_two :
    (i a b : ℕ) (out : List ℕ)
    → i % 4 ≡ 0
    → IsByte a
    → IsByte b
    → finish (i + 3) (a + b * 2 ^ 8) out ≡ out ++ (a ∷ b ∷ [])
unfolding finish
finish_two i a b out place ha hb =
    let first : u8 (a + b * 2 ^ 8) ≡ a = omega (arith, ha) in
    let second : u8 ((a + b * 2 ^ 8) / 2 ^ 8) ≡ b = omega (arith, ha, hb) in
    let place' : (i + 3) % 4 ≡ 3 = omega (arith, place) in
    let fits : overflows (a + b * 2 ^ 8) ≡ false = ground (arith, ha, hb) in
    rw (finish, fits, place', first, second)

module _ (alphabet : List ℕ) (ok : IsAlphabet alphabet) (src : List ℕ)
    (bytes : All IsByte src) where
  at-IsByte : (i : ℕ) → IsByte (get_or src i 0)
  at-IsByte i = get_or-lt 0x100 src i (omega arith) bytes

  triplet_sum :
      (si : ℕ)
      → bit_or
          (bit_or (get_or src si 0) (get_or src (si + 1) 0 * 2 ^ 8))
          (get_or src (si + 2) 0 * 2 ^ 16)
        ≡ get_or src si 0 + get_or src (si + 1) 0 * 2 ^ 8 + get_or src (si + 2) 0 * 2 ^ 16
  triplet_sum si =
      let a = get_or src si 0 in
      let b = get_or src (si + 1) 0 in
      let low : bit_or a (b * 2 ^ 8) ≡ a + b * 2 ^ 8 = bit_or-above 8 a b (at-IsByte si) in
      rw (low) (
        bit_or-above 16 (a + b * 2 ^ 8) (get_or src (si + 2) 0)
          (omega (arith, at-IsByte si, at-IsByte (si + 1))))

  decode_one :
      (si n i : ℕ) (text out : List ℕ)
      → i % 4 ≡ 0
      → b64decode_from (group_letters alphabet src si ++ text) (suc (suc (suc (suc n)))) i 0 out
        ≡ b64decode_from text n (i + 4) 0 (out ++ bytes_at src si 3)
  unfolding group_letters
  decode_one si n i text out place =
      let a = get_or src si 0 in
      let b = get_or src (si + 1) 0 in
      let c = get_or src (si + 2) 0 in
      let t = bit_or (bit_or a (b * 2 ^ 8)) (c * 2 ^ 16) in
      let e : si + 1 + 1 ≡ si + 2 = omega arith in
      decode_group alphabet ok a b c t text n i out (at-IsByte si) (at-IsByte (si + 1))
        (at-IsByte (si + 2)) place (triplet_sum si)
      ∙ rw (e)

  decode_groups :
      (j k n i : ℕ) (text out : List ℕ)
      → i % 4 ≡ 0
      → b64decode_from (groups_from alphabet src j k text) (k * 4 + n) i 0 out
        ≡ b64decode_from text n (i + k * 4) 0 (out ++ bytes_at src (3 * j) (3 * k))
  unfolding groups_from
  decode_groups j zero n i text out place =
      let e : 0 * 4 + n ≡ n = omega arith in
      let e' : i + 0 * 4 ≡ i = omega arith in rw (e, e', append-nil out)
  decode_groups j (suc k) n i text out place =
      let fuel : suc k * 4 + n ≡ suc (suc (suc (suc (k * 4 + n)))) = omega arith in
      let index : i + 4 + k * 4 ≡ i + suc k * 4 = omega arith in
      let count : 3 * suc k ≡ 3 + 3 * k = omega arith in
      let from : 3 * (j + 1) ≡ 3 * j + 3 = omega arith in
      let rest = groups_from alphabet src (j + 1) k text in
      let out' = out ++ bytes_at src (3 * j) 3 in
      rw (fuel, count, bytes_at_split src (3 * j) 3 (3 * k))
        (decode_one (3 * j) (k * 4 + n) i rest out place
          ∙ decode_groups (j + 1) k n (i + 4) text out' (omega (arith, place))
          ∙ ap (λ x. b64decode_from text n x 0 (out' ++ bytes_at src (3 * (j + 1)) (3 * k))) index
          ∙ ap (λ x. b64decode_from text n (i + suc k * 4) 0 (out' ++ bytes_at src x (3 * k))) from
          ∙ ap (λ x. b64decode_from text n (i + suc k * 4) 0 x)
              (append_assoc out (bytes_at src (3 * j) 3) (bytes_at src (3 * j + 3) (3 * k))))

  -- The letters behind the groups.
  decode_last :
      (si rest n i : ℕ) (out : List ℕ)
      → i % 4 ≡ 0
      → rest < 3
      → (rest * 4 + 2) / 3 ≤ n
      → b64decode_from (last_letters alphabet src si rest) n i 0 out ≡ out ++ bytes_at src si rest
  unfolding last_letters
  decode_last si zero n i out place h room =
      decode_nothing n i 0 out ∙ finish_whole i out place ∙ sym (append-nil out)
  decode_last si (suc zero) zero i out place h room = absurd (omega arith)
  decode_last si (suc zero) (suc zero) i out place h room = absurd (omega arith)
  decode_last si (suc zero) (suc (suc n)) i out place h room =
      let a = get_or src si 0 in
      let sum : a % 64 + a / 64 * 2 ^ 6 ≡ a = omega arith in
      two_letters alphabet ok [] n i (a % 64) (a / 64) out place (omega arith)
        (omega (arith, at-IsByte si))
      ∙ decode_nothing n (i + 2) (a % 64 + a / 64 * 2 ^ 6) out
      ∙ ap (λ t. finish (i + 2) t out) sum
      ∙ finish_one i a out place (at-IsByte si)
  decode_last si (suc (suc zero)) zero i out place h room = absurd (omega arith)
  decode_last si (suc (suc zero)) (suc zero) i out place h room = absurd (omega arith)
  decode_last si (suc (suc zero)) (suc (suc zero)) i out place h room = absurd (omega arith)
  decode_last si (suc (suc zero)) (suc (suc (suc n))) i out place h room =
      let a = get_or src si 0 in
      let b = get_or src (si + 1) 0 in
      let t = bit_or a (b * 2 ^ 8) in
      let pair : t ≡ a + b * 2 ^ 8 = bit_or-above 8 a b (at-IsByte si) in
      let v = t % 64 in
      let w = t / 64 % 64 in
      let x = t / 64 / 64 in
      let sum : v + w * 2 ^ 6 + x * 2 ^ 12 ≡ a + b * 2 ^ 8 = omega (arith, pair) in
      let small : x < 64 = omega (arith, pair, at-IsByte si, at-IsByte (si + 1)) in
      two_letters alphabet ok (letter alphabet x ∷ []) (suc n) i v w out place (omega arith)
        (omega arith)
      ∙ third_letter alphabet ok [] n i (v + w * 2 ^ 6) x out place (omega arith) small
      ∙ decode_nothing n (i + 3) (v + w * 2 ^ 6 + x * 2 ^ 12) out
      ∙ ap (λ t'. finish (i + 3) t' out) sum
      ∙ finish_two i a b out place (at-IsByte si) (at-IsByte (si + 1))
  decode_last si (suc (suc (suc rest))) n i out place h room = absurd (omega arith)

-- Decoding a text that was encoded with a sound alphabet gives the bytes that were encoded, if the
-- decoder may read all of the text.
b64decode-encode_internal :
    (alphabet : List ℕ) (ok : IsAlphabet alphabet) (src : List ℕ) (n room : ℕ)
    → All IsByte src
    → (n * 4 + 2) / 3 ≤ room
    → b64decode (b64encode_internal alphabet src n) room ≡ bytes_at src 0 n
unfolding b64decode b64encode_internal
b64decode-encode_internal alphabet ok src n room bytes enough =
    let k = n / 3 in
    let last = last_letters alphabet src (k * 3) (n % 3) in
    let fuel : k * 4 + (room - k * 4) ≡ room = omega (arith, enough) in
    let from : 3 * k ≡ k * 3 = omega arith in
    let start : 0 + 3 * k ≡ k * 3 = omega arith in
    let whole : 3 * k + n % 3 ≡ n = omega arith in
    rw (encode_groups-groups_from alphabet src k last, sym fuel)
      (decode_groups alphabet ok src bytes 0 k (room - k * 4) 0 last [] (omega arith)
        ∙ decode_last alphabet ok src bytes (k * 3) (n % 3) (room - k * 4) (0 + k * 4)
            (bytes_at src 0 (3 * k)) (omega arith) (omega arith) (omega (arith, enough))
        ∙ ap (λ p. bytes_at src 0 (3 * k) ++ bytes_at src p (n % 3)) (sym start)
        ∙ sym (bytes_at_split src 0 (3 * k) (n % 3))
        ∙ ap (λ m. bytes_at src 0 m) whole)

-- What b64encode and b64encode_urlsafe write for a block of bytes is decoded to that block, if the
-- decoder may read as many characters as the text has, which are (4 n + 2) / 3.
pub b64decode-b64encode :
    (src : List ℕ) (n room : ℕ)
    → All IsByte src
    → (n * 4 + 2) / 3 ≤ room
    → (b64decode (b64encode src n) room ≡ bytes_at src 0 n)
      × (b64decode (b64encode_urlsafe src n) room ≡ bytes_at src 0 n)
unfolding b64encode b64encode_urlsafe
b64decode-b64encode src n room bytes enough = (
  b64decode-encode_internal base64_original original-IsAlphabet src n room bytes enough,
  b64decode-encode_internal base64_urlsafe urlsafe-IsAlphabet src n room bytes enough,
)
