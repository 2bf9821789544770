-- ===== src/Protocol/Tests.antt =====
-- Runs of the dispatch and of the past requests, and their theorems at them.
use tinc_quic.Common.{ℕ, ◌+◌, ◌≤◌, ◌≡◌, refl, ◌⊎◌, arith, Bool, true, false, ◌&&◌, List, []}
use tinc_quic.Common.{◌∷◌, codes, bytes_eq}
use tinc_quic.Common.Int.{to_int, negsuc, pos}
use tinc_quic.Protocol.{Allow, receive_request, handle_request, only, seen_request}
use tinc_quic.Protocol.{age_past_requests, handle_number, id_request, atoi, has_handler}
use tinc_quic.Protocol.{authorized, proxy_answer, begins_with, digits_value, after_proxy}
use tinc_quic.Protocol.{waits_for_id, strtol}
use tinc_quic.Protocol.Dispatch.{receive_request-authorized, Passed, Due}
use tinc_quic.Protocol.Past.{Event, times_new, seen, aged, times_new_once}

-- A connection that waits for an ID counts the calls of handlers.
abbrev waits : ℕ → Allow
waits n = only id_request

abbrev counts : ℕ → ℕ → List ℕ → Bool × ℕ
counts reqno n request = (true, n + 1)

runs :
    (receive_request ℕ waits counts false 5 (codes "0 alice 17.7") ≡ (true, 6))
    × (receive_request ℕ waits counts false 5 (codes "10 1234 alice") ≡ (false, 5))
    × (receive_request ℕ waits counts false 5 (codes "23 token") ≡ (true, 6))
    × (receive_request ℕ waits counts false 5 (codes "hello") ≡ (false, 5))
    × (receive_request ℕ waits counts true 5 (codes "HTTP/1.1 200 OK") ≡ (true, 5))
    × (receive_request ℕ waits counts false 5 (codes "4294967319 token") ≡ (true, 6))
unfolding receive_request after_proxy handle_request handle_number atoi strtol to_int has_handler
    authorized proxy_answer begins_with digits_value
runs = (refl, refl, refl, refl, refl, refl)

receive_request-authorized_example :
    (((receive_request ℕ waits counts false 5 (codes "23 token") ≡ (false, 5))
        ⊎ Passed ℕ waits counts 5
            (codes "23 token")
            (receive_request ℕ waits counts false 5 (codes "23 token")))
      ⊎ ((false && waits_for_id (waits 5) ≡ true)
          × ((receive_request ℕ waits counts false 5 (codes "23 token")).1 ≡ 5)))
    × ((reqno : ℕ)
        → Due ℕ waits counts false 5 (codes "23 token") reqno
        → receive_request ℕ waits counts false 5 (codes "23 token")
          ≡ counts reqno 5 (codes "23 token"))
receive_request-authorized_example =
    receive_request-authorized ℕ waits counts false 5 (codes "23 token")

abbrev events : List Event
events = seen 7 (codes "12 a b") ∷ aged 8 ∷ seen 9 (codes "12 a b") ∷ seen 9 (codes "13 a b") ∷ []

events_run : times_new 60 (codes "12 a b") [] events ≡ 1
unfolding times_new seen_request age_past_requests bytes_eq
events_run = refl

times_new_once_example : times_new 60 (codes "12 a b") [] events ≤ 1
times_new_once_example = times_new_once 60 5 (codes "12 a b") [] events (omega arith)

-- A number that does not fit an int is cut to one.
atoi_cut : atoi (codes "4294967297 x") ≡ pos 1
unfolding atoi strtol to_int digits_value
atoi_cut = refl

atoi_largest : atoi (codes "99999999999999999999") ≡ negsuc 0
unfolding atoi strtol to_int digits_value
atoi_largest = refl
