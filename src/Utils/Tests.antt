-- ===== src/Utils/Tests.antt =====
-- Runs of src/utils.c, and its theorems at concrete inputs.
use tinc_quic.Common.{ℕ, ◌≡◌, refl, inl, arith, true, none, some, List, [], ◌∷◌, All, IsByte}
use tinc_quic.Common.{bytes_at, codes, get_or}
use tinc_quic.Utils.Base64.{b64decode, b64encode, b64decode_from, b64encode_internal}
use tinc_quic.Utils.Base64.{add_character, b64encode_urlsafe, encode_groups, base64_decode}
use tinc_quic.Utils.Base64.{last_letters, finish}
use tinc_quic.Utils.Base64.RoundTrip.{b64decode-b64encode}
use tinc_quic.Utils.Hex.{bin2hex, hex2bin, bin2hex_below}
use tinc_quic.Utils.Hex.RoundTrip.{hex2bin-bin2hex}
use tinc_quic.Utils.Names.{System, check_id, id_characters}

-- A cookie of two bytes with room for its text.
abbrev cookie : List ℕ
cookie = 0x3F ∷ 0xA0 ∷ 7 ∷ 7 ∷ 7 ∷ []

cookie-IsByte : All IsByte cookie
cookie-IsByte = omega arith

bin2hex_runs : bin2hex cookie 0 0 2 ≡ (b'3' ∷ b'F' ∷ b'A' ∷ b'0' ∷ 0 ∷ [], 4)
unfolding bin2hex bin2hex_below
bin2hex_runs = refl

hex2bin-bin2hex_example :
    (hex2bin ((bin2hex cookie 0 0 2).0) 0 2 ≡ bytes_at cookie 0 2)
    × ((bin2hex cookie 0 0 2).1 ≡ 4)
    × (get_or ((bin2hex cookie 0 0 2).0) 4 0 ≡ 0)
hex2bin-bin2hex_example = hex2bin-bin2hex cookie 0 0 2 (omega arith) (inl refl) cookie-IsByte

b64encode_runs : b64encode cookie 2 ≡ codes "/AK"
unfolding b64encode b64encode_internal encode_groups last_letters
b64encode_runs = refl

b64decode_rejects : b64decode (codes "AB C") 4 ≡ []
unfolding b64decode b64decode_from add_character base64_decode finish
b64decode_rejects = refl

b64decode-b64encode_example :
    (b64decode (b64encode cookie 5) 7 ≡ bytes_at cookie 0 5)
    × (b64decode (b64encode_urlsafe cookie 5) 7 ≡ bytes_at cookie 0 5)
b64decode-b64encode_example = b64decode-b64encode cookie 5 7 cookie-IsByte (omega arith)

node_name : check_id (codes "node_1") ≡ true
unfolding check_id id_characters
node_name = refl

-- A system whose host has a name with a dash.
abbrev system : System
system = record { getenv = λ variable. none; gethostname = some (codes "my-host") }
