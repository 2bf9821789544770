-- ===== src/Utils/Names.antt =====
-- The rules for names in src/utils.c, and bitfield_to_int.
pub mod Laws
use tinc_quic.Common.{ℕ, zero, suc, ◌+◌, ◌-◌, ◌*◌, ◌/◌, ◌%◌, ◌^◌, ◌≤◌, ◌<◌, bit_and, bit_or}
use tinc_quic.Common.{◌≡◌, refl, sym, ap, ◌∙◌, ◌≢◌, ◌↔◌, ◌⊎◌, inl, inr, arith, Bool, true}
use tinc_quic.Common.{false, ◌&&◌, ◌||◌, not, Option, none, some, List, [], ◌∷◌, ◌++◌, map, ltb}
use tinc_quic.Common.{leb, ◌==◌, if◌then◌else◌, ◌>>=◌, bytes_eq, codes, get_or, take}
use tinc_quic.Utils.Hex.{isdigit, isupper, islower}

abbrev pub isalnum : ℕ → Bool
isalnum c = isdigit c || isupper c || islower c

abbrev pub iscntrl : ℕ → Bool
iscntrl c = ltb c 32 || c == 127

-- The characters in the loop of check_id.
unfoldable pub id_characters : List ℕ → Bool
id_characters [] = true
id_characters (c ∷ id) = (isalnum c || c == b'_') && id_characters id

unfoldable pub check_id : List ℕ → Bool
check_id [] = false
check_id (c ∷ id) = id_characters (c ∷ id)

-- `strchr`
pub strchr : List ℕ → ℕ → Bool
strchr [] c = false
strchr (x ∷ xs) c = x == c || strchr xs c

abbrev pub special_characters : List ℕ
special_characters = codes " $%<>:`\"|?*"

-- The characters in the loop of check_netname.
unfoldable pub netname_character : Bool → ℕ → Bool
netname_character strict c =
    if iscntrl c
    then false
    else if c == b'/' || c == b'\\'
    then false
    else not (strict && strchr special_characters c)

pub netname_characters : Bool → List ℕ → Bool
netname_characters strict [] = true
netname_characters strict (c ∷ netname) =
    netname_character strict c && netname_characters strict netname

unfoldable pub check_netname : List ℕ → Bool → Bool
check_netname [] strict = false
check_netname (c ∷ netname) strict =
    if c == b'.' then false else netname_characters strict (c ∷ netname)

-- The first `size` bytes, four at most, of a little-endian word.
pub bitfield_to_int : List ℕ → ℕ → ℕ
bitfield_to_int bitfield size =
    let size' = if ltb 4 size then 4 else size in
    get_or (take size' bitfield) 0 0
    + get_or (take size' bitfield) 1 0 * 2 ^ 8
    + get_or (take size' bitfield) 2 0 * 2 ^ 16
    + get_or (take size' bitfield) 3 0 * 2 ^ 24

-- The environment and the system's host name; `none` is a missing variable or a failed call.
pub record System : Type 0 where
  pub getenv : List ℕ → Option (List ℕ)
  pub gethostname : Option (List ℕ)

abbrev pub host_name_max : ℕ
host_name_max = 255

-- Where the name after a `$` comes from.
unfoldable pub environment_name : System → List ℕ → Option (List ℕ)
environment_name system variable = elim (system.getenv variable) [
  | some value ↦ some value
  | none ↦ if not (bytes_eq variable (codes "HOST")) then none else elim system.gethostname [
    | none ↦ none
    | some [] ↦ none
    | some (c ∷ hostname) ↦ some (take host_name_max (c ∷ hostname))
  ]
]

unfoldable pub to_identifier : ℕ → ℕ
to_identifier c = if isalnum c then c else b'_'

unfoldable pub own_name : System → List ℕ → Option (List ℕ)
own_name system [] = some []
own_name system (c ∷ name) =
    if c == b'$'
    then environment_name system name >>= (λ value. some (map to_identifier value))
    else some (c ∷ name)

unfoldable pub replace_name : System → List ℕ → Option (List ℕ)
replace_name system name = elim (own_name system name) [
  | none ↦ none
  | some ret_name ↦ if check_id ret_name then some ret_name else none
]
