-- ===== src/Utils/Hex/Digits.antt =====
-- The digits that bin2hex writes.
use tinc_quic.Common.{ℕ, zero, suc, ◌+◌, ◌*◌, ◌/◌, ◌%◌, ◌≤◌, ◌<◌, ◌≡◌, refl, ◌∙◌, ◌≢◌, ◌⊎◌}
use tinc_quic.Common.{arith, List, ltb, ◌==◌, if◌then◌else◌, get_or, length, set, length-set}
use tinc_quic.Common.{get_or-set}
use tinc_quic.Utils.Hex.{bin2hex_below, hexadecimals}

-- The digit of a byte that stands at an even or odd place of the text.
unfoldable pub hex_digit : ℕ → ℕ → ℕ
hex_digit k byte = get_or hexadecimals (if k % 2 == 0 then byte / 16 else byte % 16) 0

-- The blocks are one and the same, or do not overlap.
abbrev pub Apart : ℕ → ℕ → ℕ → Type 0
Apart src dst n = (src ≡ dst) ⊎ ((src + n ≤ dst) ⊎ (dst + (n * 2 + 1) ≤ src))

pub length-bin2hex_below :
    (memory : List ℕ) (src dst i : ℕ) → length (bin2hex_below memory src dst i) ≡ length memory
unfolding bin2hex_below
length-bin2hex_below memory src dst zero = refl
length-bin2hex_below memory src dst (suc i) =
    let low = get_or hexadecimals (get_or memory (src + i) 0 % 16) 0 in
    let written = set memory (dst + (i * 2 + 1)) low in
    let high = get_or hexadecimals (get_or written (src + i) 0 / 16) 0 in
    length-bin2hex_below (set written (dst + i * 2) high) src dst i
    ∙ length-set written (dst + i * 2) high
    ∙ length-set memory (dst + (i * 2 + 1)) low

-- One round.
module _ (memory : List ℕ) (src dst i : ℕ) (room : dst + (i * 2 + 1) < length memory) where
  round : List ℕ
  round =
      let low = get_or hexadecimals (get_or memory (src + i) 0 % 16) 0 in
      let written = set memory (dst + (i * 2 + 1)) low in
      let high = get_or hexadecimals (get_or written (src + i) 0 / 16) 0 in
      set written (dst + i * 2) high

  get_or-round :
      (k : ℕ)
      → src + i ≢ dst + (i * 2 + 1)
      → get_or round k 0 ≡ (
          if k == dst + i * 2
          then get_or hexadecimals (get_or memory (src + i) 0 / 16) 0
          else if k == dst + (i * 2 + 1)
          then get_or hexadecimals (get_or memory (src + i) 0 % 16) 0
          else get_or memory k 0)
  unfolding round
  get_or-round k other =
      let low = get_or hexadecimals (get_or memory (src + i) 0 % 16) 0 in
      let written = set memory (dst + (i * 2 + 1)) low in
      let high = get_or hexadecimals (get_or written (src + i) 0 / 16) 0 in
      ground (
        arith,
        get_or-set memory (dst + (i * 2 + 1)) (src + i) low 0,
        get_or-set memory (dst + (i * 2 + 1)) k low 0,
        get_or-set written (dst + i * 2) k high 0,
        length-set memory (dst + (i * 2 + 1)) low,
      )

Apart-smaller : (src dst i : ℕ) → Apart src dst (suc i) → Apart src dst i
Apart-smaller src dst i apart = ground (arith, apart)

length-round :
    (memory : List ℕ) (src dst i : ℕ) (room : dst + (i * 2 + 1) < length memory)
    → length (round memory src dst i room) ≡ length memory
unfolding round
length-round memory src dst i room =
    length-set
      (set memory (dst + (i * 2 + 1)) (get_or hexadecimals (get_or memory (src + i) 0 % 16) 0))
      (dst + i * 2)
      (get_or hexadecimals
        (get_or
            (set memory (dst + (i * 2 + 1))
              (get_or hexadecimals (get_or memory (src + i) 0 % 16) 0))
            (src + i) 0
          / 16)
        0)
    ∙ length-set memory (dst + (i * 2 + 1)) (get_or hexadecimals (get_or memory (src + i) 0 % 16) 0)

-- What a round leaves at a place of the text, and where it still reads.
module _ (memory : List ℕ) (src dst i : ℕ) (room : dst + (i * 2 + 1) < length memory)
    (apart : Apart src dst (suc i)) where
  round_text :
      (k : ℕ)
      → get_or (round memory src dst i room) (dst + k) 0 ≡ (
          if ltb k (i * 2)
          then get_or memory (dst + k) 0
          else if ltb k (suc i * 2)
          then hex_digit k (get_or memory (src + k / 2) 0)
          else get_or memory (dst + k) 0)
  unfolding hex_digit
  round_text k =
      let other : src + i ≢ dst + (i * 2 + 1) = ground (arith, apart) in
      let e : k ≡ i * 2 → k / 2 ≡ i = λ h. omega (arith, h) in
      let e' : k ≡ i * 2 + 1 → k / 2 ≡ i = λ h. omega (arith, h) in
      ground (arith, get_or-round memory src dst i room (dst + k) other, e, e')

  round_source :
      (k : ℕ)
      → k < i * 2
      → get_or (round memory src dst i room) (src + k / 2) 0 ≡ get_or memory (src + k / 2) 0
  round_source k h =
      let other : src + i ≢ dst + (i * 2 + 1) = ground (arith, apart) in
      ground (arith, get_or-round memory src dst i room (src + k / 2) other, apart)

unfold_round :
    (memory : List ℕ) (src dst i : ℕ) (room : dst + (i * 2 + 1) < length memory) (k : ℕ)
    → get_or (bin2hex_below memory src dst (suc i)) (dst + k) 0
      ≡ get_or (bin2hex_below (round memory src dst i room) src dst i) (dst + k) 0
unfolding bin2hex_below round
unfold_round memory src dst i room k = refl

round_join :
    (memory : List ℕ) (src dst i : ℕ) (room : dst + (i * 2 + 1) < length memory) (k : ℕ)
    → get_or (round memory src dst i room) (dst + k) 0 ≡ (
        if ltb k (i * 2)
        then get_or memory (dst + k) 0
        else if ltb k (suc i * 2)
        then hex_digit k (get_or memory (src + k / 2) 0)
        else get_or memory (dst + k) 0)
    → (k < i * 2
        → get_or (round memory src dst i room) (src + k / 2) 0 ≡ get_or memory (src + k / 2) 0)
    → (if ltb k (i * 2)
        then hex_digit k (get_or (round memory src dst i room) (src + k / 2) 0)
        else get_or (round memory src dst i room) (dst + k) 0)
      ≡ (if ltb k (suc i * 2)
          then hex_digit k (get_or memory (src + k / 2) 0)
          else get_or memory (dst + k) 0)
round_join memory src dst i room k text source = ground (arith, text, source)

-- Every character of the text, and what stands in the text's place otherwise.
pub get_or-bin2hex_below :
    (memory : List ℕ) (src dst i k : ℕ)
    → dst + i * 2 ≤ length memory
    → Apart src dst i
    → get_or (bin2hex_below memory src dst i) (dst + k) 0 ≡ (
        if ltb k (i * 2)
        then hex_digit k (get_or memory (src + k / 2) 0)
        else get_or memory (dst + k) 0)
unfolding bin2hex_below
get_or-bin2hex_below memory src dst zero k room apart = ground arith
get_or-bin2hex_below memory src dst (suc i) k room apart =
    let inside : dst + (i * 2 + 1) < length memory = omega arith in
    let ih =
      get_or-bin2hex_below (round memory src dst i inside) src dst i k
        (omega (arith, length-round memory src dst i inside)) (Apart-smaller src dst i apart) in
    let text = round_text memory src dst i inside apart k in
    let source = round_source memory src dst i inside apart k in
    unfold_round memory src dst i inside k ∙ ih ∙ round_join memory src dst i inside k text source
