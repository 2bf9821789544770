-- ===== src/Protocol/Past.antt =====
-- How often a request is new to seen_request.
use tinc_quic.Common.{ℕ, ◌+◌, ◌≤◌, ◌<◌, ◌≡◌, refl, ap, ◌∙◌, ◌⊎◌, inl, inr, arith, true, false}
use tinc_quic.Common.{◌&&◌, not, List, [], ◌∷◌, leb, if◌then◌else◌, Bool-cases, bytes_eq}
use tinc_quic.Common.{&&-true, All, bytes_eq_sound}
use tinc_quic.Protocol.{PastRequest, age_past_requests, search_past, seen_request}

-- What happens to the tree of past requests, with its time.
pub data Event : Type 0 where
  seen : ℕ → List ℕ → Event
  aged : ℕ → Event

abbrev pub time : Event → ℕ
time (seen now request) = now
time (aged now) = now

-- How many of the events find `request` new, and so have it processed.
unfoldable pub times_new : ℕ → List ℕ → List PastRequest → List Event → ℕ
times_new pinginterval request tree [] = 0
times_new pinginterval request tree (seen now r ∷ events) =
    let (known, tree') = seen_request now r tree in
    (if bytes_eq r request && not known then 1 else 0) + times_new pinginterval request tree' events
times_new pinginterval request tree (aged now ∷ events) =
    times_new pinginterval request (age_past_requests pinginterval now tree) events

-- The request is known, since a time that is not before `from`.
Known : List ℕ → ℕ → List PastRequest → Type 0
Known request from [] = ⊥
Known request from (p ∷ tree) =
    ((bytes_eq p.request request ≡ true) × (from ≤ p.firstseen)) ⊎ Known request from tree

Known-search_past :
    (request : List ℕ) (from : ℕ) (tree : List PastRequest)
    → Known request from tree
    → search_past request tree ≡ true
unfolding Known
Known-search_past request from [] k = absurd k
Known-search_past request from (p ∷ tree) (inl (e, h)) = ground (arith, e)
Known-search_past request from (p ∷ tree) (inr k) =
    ground (arith, Known-search_past request from tree k)

Known-age_past_requests :
    (pinginterval now : ℕ) (request : List ℕ) (from : ℕ) (tree : List PastRequest)
    → now < from + pinginterval
    → Known request from tree
    → Known request from (age_past_requests pinginterval now tree)
unfolding Known age_past_requests
Known-age_past_requests pinginterval now request from [] young k = absurd k
Known-age_past_requests pinginterval now request from (p ∷ tree) young (inl (e, h)) =
    let stays : leb (p.firstseen + pinginterval) now ≡ false = ground (arith, h, young) in
    rw (stays) (inl (e, h))
Known-age_past_requests pinginterval now request from (p ∷ tree) young (inr k) =
    let rest = Known-age_past_requests pinginterval now request from tree young k in
    elim (Bool-cases (leb (p.firstseen + pinginterval) now)) [
      | inl goes ↦ rw (goes) rest
      | inr stays ↦ rw (stays) (inr rest)
    ]

-- The answer for a request that is known, and the tree, which loses nothing.
seen_request-Known :
    (now from : ℕ) (r request : List ℕ) (tree : List PastRequest)
    → Known request from tree
    → Known request from ((seen_request now r tree).1)
unfolding seen_request Known
seen_request-Known now from r request tree k = elim (Bool-cases (search_past r tree)) [
  | inl e ↦ rw (e) k
  | inr e ↦ rw (e) (inr k)
]

not_new :
    (now from : ℕ) (r request : List ℕ) (tree : List PastRequest)
    → Known request from tree
    → bytes_eq r request && not ((seen_request now r tree).0) ≡ false
unfolding seen_request
not_new now from r request tree k = elim (Bool-cases (bytes_eq r request)) [
  | inl e ↦
      let here : search_past r tree ≡ true =
        ap (λ x. search_past x tree) (bytes_eq_sound r request e)
        ∙ Known-search_past request from tree k in
      rw (here, e) refl
  | inr e ↦ rw (e) refl
]

abbrev pub InWindow : ℕ → ℕ → Event → Type 0
InWindow from pinginterval event = (from ≤ time event) × (time event < from + pinginterval)

Known-times_new :
    (pinginterval from : ℕ) (request : List ℕ) (tree : List PastRequest) (events : List Event)
    → All (InWindow from pinginterval) events
    → Known request from tree
    → times_new pinginterval request tree events ≡ 0
unfolding times_new
Known-times_new pinginterval from request tree [] window k = refl
Known-times_new pinginterval from request tree (seen now r ∷ events) window k =
    let rest =
      Known-times_new pinginterval from request ((seen_request now r tree).1) events (window.1)
        (seen_request-Known now from r request tree k) in
    rw (not_new now from r request tree k, rest) refl
Known-times_new pinginterval from request tree (aged now ∷ events) window k =
    Known-times_new pinginterval from request (age_past_requests pinginterval now tree) events
      (window.1) (Known-age_past_requests pinginterval now request from tree (window.0.1) k)

-- A request that is new is known afterwards.
new-Known :
    (now from : ℕ) (r request : List ℕ) (tree : List PastRequest)
    → from ≤ now
    → bytes_eq r request && not ((seen_request now r tree).0) ≡ true
    → Known request from ((seen_request now r tree).1)
unfolding seen_request Known
new-Known now from r request tree h new = elim (Bool-cases (search_past r tree)) [
  | inl e ↦ absurd (ground (arith, e, new))
  | inr e ↦
      let (eq, _) = &&-true (bytes_eq r request) (not ((seen_request now r tree).0)) new in
      rw (e) (inl (eq, h))
]

-- Whatever the tree of past requests holds, among events that all fall within one pinginterval,
-- lookups of any requests and ageings of the tree, a request is new at most once.
pub times_new_once :
    (pinginterval from : ℕ) (request : List ℕ) (tree : List PastRequest) (events : List Event)
    → All (InWindow from pinginterval) events
    → times_new pinginterval request tree events ≤ 1
unfolding times_new
times_new_once pinginterval from request tree [] window = omega arith
times_new_once pinginterval from request tree (seen now r ∷ events) window =
    let tree' = (seen_request now r tree).1 in
    let later = times_new_once pinginterval from request tree' events (window.1) in
    elim (Bool-cases (bytes_eq r request && not ((seen_request now r tree).0))) [
      | inl new ↦
          let none_later =
            Known-times_new pinginterval from request tree' events (window.1)
              (new-Known now from r request tree (window.0.0) new) in
          rw (new, none_later) (omega arith)
      | inr old ↦ rw (old) (omega (arith, later))
    ]
times_new_once pinginterval from request tree (aged now ∷ events) window =
    times_new_once pinginterval from request (age_past_requests pinginterval now tree) events
      (window.1)
