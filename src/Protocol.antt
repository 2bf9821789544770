-- ===== src/Protocol.antt =====
-- src/protocol.c: the requests of the metadata protocol. Requests are texts without their newline.
mod Tests
pub mod Dispatch
pub mod Past
use tinc_quic.Common.{ℕ, zero, suc, ◌+◌, ◌-◌, ◌*◌, ◌/◌, ◌%◌, ◌^◌, ◌≤◌, ◌<◌, bit_and, bit_or}
use tinc_quic.Common.{◌≡◌, refl, sym, ap, ◌∙◌, ◌≢◌, ◌↔◌, ◌⊎◌, inl, inr, arith, Bool, true}
use tinc_quic.Common.{false, ◌&&◌, ◌||◌, not, Option, none, some, List, [], ◌∷◌, ◌++◌, map, ltb}
use tinc_quic.Common.{leb, ◌==◌, if◌then◌else◌, ◌>>=◌, bytes_eq, codes, drop}
use Prim.Native.Nat.{min}
use tinc_quic.Common.Int.{ℤ, is_zero, pos, negsuc, to_int}

-- past_request_t
pub record PastRequest : Type 0 where
  pub request : List ℕ
  pub firstseen : ℕ

-- The tree of past requests is the list of its entries.
abbrev pub search_past : List ℕ → List PastRequest → Bool
search_past request [] = false
search_past request (p ∷ tree) = bytes_eq p.request request || search_past request tree

-- Entries older than `pinginterval` go. Timeouts are events of their own.
unfoldable pub age_past_requests : ℕ → ℕ → List PastRequest → List PastRequest
age_past_requests pinginterval now [] = []
age_past_requests pinginterval now (p ∷ tree) =
    let rest = age_past_requests pinginterval now tree in
    if leb (p.firstseen + pinginterval) now then rest else p ∷ rest

unfoldable pub seen_request : ℕ → List ℕ → List PastRequest → Bool × List PastRequest
seen_request now request tree =
    if search_past request tree
    then (true, tree)
    else (false, record { request = request; firstseen = now } ∷ tree)

-- `request_t`, from ID on; LAST is their number.
abbrev pub id_request : ℕ
id_request = 0

abbrev pub invite_join : ℕ
invite_join = 23

abbrev pub last_request : ℕ
last_request = 27

-- `request_handlers[reqno]` is not NULL.
unfoldable pub has_handler : ℕ → Bool
has_handler reqno =
    reqno == 0
    || reqno == 4
    || (leb 7 reqno && leb reqno 13)
    || reqno == 18
    || (leb 21 reqno && ltb reqno last_request)

abbrev pub isspace : ℕ → Bool
isspace c = c == 32 || (leb 9 c && leb c 13)

-- The digits that a text begins with, behind a value.
unfoldable pub digits_value : ℕ → List ℕ → ℕ
digits_value value [] = value
digits_value value (c ∷ text) = elim (leb b'0' c && leb c b'9') [
  | true ↦ digits_value (value * 10 + (c - b'0')) text
  | false ↦ value
]

-- The magnitude behind a minus sign.
abbrev pub negative : ℕ → ℤ
negative zero = pos 0
negative (suc n) = negsuc n

-- `strtol` in base 10, which stops at the ends of a `long` of 64 bits.
abbrev pub clamp_long : ℤ → ℤ
clamp_long (pos n) = pos (min n (2 ^ 63 - 1))
clamp_long (negsuc n) = negsuc (min n (2 ^ 63 - 1))

unfoldable pub strtol : List ℕ → ℤ
strtol [] = pos 0
strtol (c ∷ text) =
    let rest = strtol text in
    if isspace c
    then rest
    else if c == b'-'
    then clamp_long (negative (digits_value 0 text))
    else if c == b'+'
    then clamp_long (pos (digits_value 0 text))
    else clamp_long (pos (digits_value 0 (c ∷ text)))

-- `atoi` is `strtol`, cut to an `int`.
unfoldable pub atoi : List ℕ → ℤ
atoi text = to_int (strtol text)

-- What a connection may ask for: any request, or one.
pub data Allow : Type 0 where
  all_requests : Allow
  only : ℕ → Allow

-- `allow_request` lets a request through; INVITE_JOIN may stand for ID.
unfoldable pub authorized : Allow → ℕ → Bool
authorized all_requests reqno = true
authorized (only allowed) reqno =
    allowed == reqno || (allowed == id_request && reqno == invite_join)

-- strncasecmp and strncmp of the first bytes of a request with a text
unfoldable pub begins_with : List ℕ → List ℕ → Bool
begins_with [] request = true
begins_with (x ∷ text) [] = false
begins_with (x ∷ text) (c ∷ request) = x == c && begins_with text request

abbrev pub lower : ℕ → ℕ
lower c = if leb b'A' c && leb c b'Z' then c + 32 else c

-- The answers of an HTTP proxy: `some` is what is returned at once.
unfoldable pub proxy_answer : List ℕ → Option Bool
proxy_answer [] = some true
proxy_answer (c ∷ request) =
    if c == b'\r'
    then some true
    else if begins_with (codes "http/1.1 ") (map lower (c ∷ request))
    then some (begins_with (codes "200") (drop 9 (c ∷ request)))
    else none

-- A text that begins with 0 is a number, other texts are if their value is not 0.
abbrev pub is_number : ℤ → List ℕ → Bool
is_number reqno [] = not (is_zero reqno)
is_number reqno (c ∷ request) = not (is_zero reqno) || c == b'0'

abbrev pub waits_for_id : Allow → Bool
waits_for_id all_requests = false
waits_for_id (only allowed) = allowed == id_request

-- The state with the handlers, which are in other files: `handle` gives what they return.
module _ (State : Type 0) (allow_request : State → Allow)
    (handle : ℕ → State → List ℕ → Bool × State) where
  -- A number that is not negative.
  unfoldable pub handle_number : ℕ → State → List ℕ → Bool × State
  handle_number reqno s request =
      if leb last_request reqno || not (has_handler reqno)
      then (false, s)
      else if not (authorized (allow_request s) reqno)
      then (false, s)
      else handle reqno s request

  unfoldable pub handle_request : ℤ → State → List ℕ → Bool × State
  handle_request (pos reqno) s request = handle_number reqno s request
  handle_request (negsuc n) s request = (false, s)

  -- Behind the answer of a proxy, if there is one.
  unfoldable pub after_proxy : Option Bool → State → List ℕ → Bool × State
  after_proxy (some result) s request = (result, s)
  after_proxy none s request =
      let reqno = atoi request in
      if is_number reqno request then handle_request reqno s request else (false, s)

  -- `behind_proxy` is `c->outgoing && proxytype == PROXY_HTTP`.
  unfoldable pub receive_request : Bool → State → List ℕ → Bool × State
  receive_request behind_proxy s request =
      after_proxy
        (if behind_proxy && waits_for_id (allow_request s) then proxy_answer request else none) s
        request
