-- ===== src/Protocol/Dispatch.antt =====
-- Which requests receive_request passes to a handler.
use tinc_quic.Common.{ℕ, ◌<◌, ◌≡◌, refl, ◌⊎◌, inl, inr, arith, Bool, true, false, ◌&&◌, ◌||◌}
use tinc_quic.Common.{not, Option, none, some, List, leb, Bool-cases, Option-cases, ◌==◌, ◌↔◌}
use tinc_quic.Common.{==_iff, ap}
use tinc_quic.Common.Int.{ℤ, pos, negsuc}
use tinc_quic.Protocol.{Allow, handle_number, handle_request, has_handler, receive_request}
use tinc_quic.Protocol.{atoi, last_request, waits_for_id, authorized, proxy_answer, is_number}
use tinc_quic.Protocol.{after_proxy, all_requests, only, id_request, invite_join}

-- The connection may ask for any request, for this one, or for ID and this is INVITE_JOIN.
abbrev pub Permitted : Allow → ℕ → Type 0
Permitted allow reqno =
    (allow ≡ all_requests)
    ⊎ (allow ≡ only reqno)
    ⊎ ((allow ≡ only id_request) × (reqno ≡ invite_join))

only_allowed : Allow → ℕ
only_allowed all_requests = 0
only_allowed (only n) = n

only-Permitted :
    (allowed reqno : ℕ) → Permitted (only allowed) reqno → authorized (only allowed) reqno ≡ true
unfolding authorized only_allowed
only-Permitted allowed reqno (inl e) = absurd cc
only-Permitted allowed reqno (inr (inl e)) = rw ((==_iff allowed reqno).1 (ap only_allowed e)) refl
only-Permitted allowed reqno (inr (inr (e, f))) =
    rw ((==_iff allowed id_request).1 (ap only_allowed e), (==_iff reqno invite_join).1 f)
      (ground arith)

authorized-Permitted :
    (allow : Allow) (reqno : ℕ) → (authorized allow reqno ≡ true) ↔ Permitted allow reqno
unfolding authorized
authorized-Permitted all_requests reqno = (λ h. inl refl, λ h. refl)
authorized-Permitted (only allowed) reqno = (
  λ h. elim (Bool-cases (allowed == reqno)) [
    | inl e ↦ inr (inl (ap only ((==_iff allowed reqno).0 e)))
    | inr e ↦ inr (
        inr (
          ap only ((==_iff allowed id_request).0 (ground (arith, h, e))),
          (==_iff reqno invite_join).0 (ground (arith, h, e)),
        ))
  ],
  only-Permitted allowed reqno,
)

module _ (State : Type 0) (allow_request : State → Allow)
    (handle : ℕ → State → List ℕ → Bool × State) where
  -- A handler was called that exists and that the connection may ask for.
  abbrev pub Passed : State → List ℕ → Bool × State → Type 0
  Passed s request result =
      (reqno : ℕ) × (has_handler reqno ≡ true)
      × (reqno < last_request)
      × Permitted (allow_request s) reqno
      × (atoi request ≡ pos reqno)
      × (result ≡ handle reqno s request)

  abbrev Handled : State → List ℕ → Bool × State → Type 0
  Handled s request result = (result ≡ (false, s)) ⊎ Passed s request result

  handle_number-Handled :
      (reqno : ℕ) (s : State) (request : List ℕ)
      → atoi request ≡ pos reqno
      → Handled s request (handle_number State allow_request handle reqno s request)
  unfolding handle_number
  handle_number-Handled reqno s request e =
      elim (Bool-cases (leb last_request reqno || not (has_handler reqno))) [
        | inl unknown ↦ rw (unknown) (inl refl)
        | inr known ↦ elim (Bool-cases (authorized (allow_request s) reqno)) [
          | inl allowed ↦
              rw (known, allowed)
                (inr (
                  reqno,
                  ground (arith, known),
                  ground (arith, known),
                  (authorized-Permitted (allow_request s) reqno).0 allowed,
                  e,
                  refl,
                ))
          | inr refused ↦ rw (known, refused) (inl refl)
        ]
      ]

  handle_request-Handled :
      (reqno : ℤ) (s : State) (request : List ℕ)
      → atoi request ≡ reqno
      → Handled s request (handle_request State allow_request handle reqno s request)
  unfolding handle_request
  handle_request-Handled (pos reqno) s request e = handle_number-Handled reqno s request e
  handle_request-Handled (negsuc n) s request e = inl refl

  after_proxy-Handled :
      (answer : Option Bool) (s : State) (request : List ℕ)
      → answer ≡ none
      → Handled s request (after_proxy State allow_request handle answer s request)
  unfolding after_proxy
  after_proxy-Handled (some result) s request e = absurd cc
  after_proxy-Handled none s request e = elim (Bool-cases (is_number (atoi request) request)) [
    | inl number ↦ rw (number) (handle_request-Handled (atoi request) s request refl)
    | inr bogus ↦ rw (bogus) (inl refl)
  ]

  handle_number_passes :
      (reqno : ℕ) (s : State) (request : List ℕ)
      → has_handler reqno ≡ true
      → reqno < last_request
      → Permitted (allow_request s) reqno
      → handle_number State allow_request handle reqno s request ≡ handle reqno s request
  unfolding handle_number
  handle_number_passes reqno s request there below allowed =
      let known : leb last_request reqno || not (has_handler reqno) ≡ false =
        ground (arith, there, below) in
      rw (known, (authorized-Permitted (allow_request s) reqno).1 allowed) refl

  -- A request whose number has a handler, which the connection may ask for, and which is no answer of
  -- a proxy.
  abbrev pub Due : Bool → State → List ℕ → ℕ → Type 0
  Due behind_proxy s request reqno =
      (behind_proxy && waits_for_id (allow_request s) ≡ false)
      × (atoi request ≡ pos reqno)
      × (is_number (pos reqno) request ≡ true)
      × (has_handler reqno ≡ true)
      × (reqno < last_request)
      × Permitted (allow_request s) reqno

  Due-passes :
      (behind_proxy : Bool) (s : State) (request : List ℕ) (reqno : ℕ)
      → Due behind_proxy s request reqno
      → receive_request State allow_request handle behind_proxy s request ≡ handle reqno s request
  unfolding receive_request after_proxy handle_request
  Due-passes behind_proxy s request reqno (direct, e, number, there, below, allowed) =
      rw (direct, e, number) (handle_number_passes reqno s request there below allowed)

  -- receive_request fails and leaves the state as it is, or takes the answer of a proxy while an ID is
  -- waited for and leaves the state as it is, or returns what the handler of the request's number
  -- returns: that handler exists, and the connection may ask for it, because it may ask for any
  -- request, for this one, or for ID and this is INVITE_JOIN. It does return what the handler returns
  -- if no answer of a proxy is waited for, the request begins with its number, and the handler exists
  -- and may be asked for.
  pub receive_request-authorized :
      (behind_proxy : Bool) (s : State) (request : List ℕ)
      → (((receive_request State allow_request handle behind_proxy s request ≡ (false, s))
            ⊎ Passed s request (receive_request State allow_request handle behind_proxy s request))
          ⊎ ((behind_proxy && waits_for_id (allow_request s) ≡ true)
              × ((receive_request State allow_request handle behind_proxy s request).1 ≡ s)))
        × ((reqno : ℕ)
            → Due behind_proxy s request reqno
            → receive_request State allow_request handle behind_proxy s request
              ≡ handle reqno s request)
  unfolding receive_request after_proxy
  receive_request-authorized behind_proxy s request = (
    elim (Bool-cases (behind_proxy && waits_for_id (allow_request s))) [
      | inl proxy ↦ elim (Option-cases (proxy_answer request)) [
        | inl e ↦ rw (proxy, e) (inl (after_proxy-Handled none s request refl))
        | inr (result, e) ↦ rw (proxy, e) (inr (refl, refl))
      ]
      | inr direct ↦ rw (direct) (inl (after_proxy-Handled none s request refl))
    ],
    λ reqno due. Due-passes behind_proxy s request reqno due,
  )
