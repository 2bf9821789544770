-- ===== src/Utils/Names/Laws.antt =====
-- What the checks of names promise one another.
use tinc_quic.Common.{ℕ, ◌<◌, ◌≡◌, refl, inl, inr, arith, Bool, true, false, ◌&&◌, ◌||◌, none}
use tinc_quic.Common.{some, List, [], ◌∷◌, map, ◌==◌, if◌then◌else◌, ◌>>=◌, table, table_sound}
use tinc_quic.Common.{&&-true, length, Option-cases}
use tinc_quic.Utils.Names.{check_id, id_characters, isalnum, netname_character, replace_name}
use tinc_quic.Utils.Names.{to_identifier, check_netname, netname_characters, own_name, strchr}
use tinc_quic.Utils.Names.{System, environment_name}

abbrev id_character : ℕ → Bool
id_character c = isalnum c || c == b'_'

id_character-lt : (c : ℕ) → id_character c ≡ true → c < 128
id_character-lt c h = ground (arith, h)

-- By evaluation over the characters below 128.
allowed : ℕ → Bool
allowed c = if id_character c then netname_character true c && netname_character false c else true

all_allowed : table allowed 128 ≡ true
unfolding table allowed netname_character strchr
all_allowed = refl

netname_allows : (strict : Bool) (c : ℕ) → id_character c ≡ true → netname_character strict c ≡ true
unfolding allowed
netname_allows true c h =
    ground (arith, table_sound allowed 128 all_allowed c (id_character-lt c h), h)
netname_allows false c h =
    ground (arith, table_sound allowed 128 all_allowed c (id_character-lt c h), h)

id_characters-netname_characters :
    (strict : Bool) (id : List ℕ) → id_characters id ≡ true → netname_characters strict id ≡ true
unfolding id_characters netname_characters
id_characters-netname_characters strict [] h = refl
id_characters-netname_characters strict (c ∷ id) h =
    let (first, rest) = &&-true (id_character c) (id_characters id) h in
    rw (netname_allows strict c first, id_characters-netname_characters strict id rest)

-- Every name that check_id accepts for a node is accepted by check_netname as a network's, strictly
-- or not.
pub check_id-check_netname :
    (id : List ℕ) (strict : Bool) → check_id id ≡ true → check_netname id strict ≡ true
unfolding check_id check_netname id_characters
check_id-check_netname [] strict h = cc
check_id-check_netname (c ∷ id) strict h =
    let (first, rest) = &&-true (id_character c) (id_characters id) h in
    let no_dot : (c == b'.') ≡ false = ground (arith, first) in
    rw (no_dot) (id_characters-netname_characters strict (c ∷ id) h)

to_identifier-id : (c : ℕ) → id_character (to_identifier c) ≡ true
unfolding to_identifier
to_identifier-id c = ground arith

identifiers : (value : List ℕ) → id_characters (map to_identifier value) ≡ true
unfolding id_characters
identifiers [] = refl
identifiers (c ∷ value) = rw (to_identifier-id c, identifiers value)

-- A name `$NAME` becomes the value that the environment, or for `$HOST` the host name, gives for it,
-- with every other character than a letter or digit turned into an underscore: that is accepted
-- whenever there is a value that is not empty, and refused otherwise.
pub replace_name_variable :
    (system : System) (variable : List ℕ)
    → replace_name system (b'$' ∷ variable) ≡ (
        environment_name system variable
        >>= (λ value. if length value == 0 then none else some (map to_identifier value)))
unfolding replace_name own_name check_id
replace_name_variable system variable = elim (Option-cases (environment_name system variable)) [
  | inl missing ↦ rw (missing, replace_name)
  | inr ([], e) ↦ rw (e, replace_name)
  | inr ((c ∷ value), e) ↦ rw (e, replace_name, identifiers (c ∷ value)) (ground arith)
]
