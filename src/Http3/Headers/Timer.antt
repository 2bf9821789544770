-- ===== src/Http3/Headers/Timer.antt =====
-- How often HEADERS frames are sent.
use tinc_quic.Common.{ℕ, ◌+◌, ◌-◌, ◌/◌, ◌≤◌, ◌<◌, ◌≡◌, ◌≢◌, arith, true, false}
use tinc_quic.Http3.Headers.{http3_should_send_headers, http3_update_headers_timer}

-- After a HEADERS frame at time `sent`, no other is due before 80 % of the interval has passed, and
-- one is due from 120 % on, whatever `rand()` returns. The clock does not run backwards.
pub headers_interval_window :
    (sent headers_interval random now : ℕ)
    → sent ≢ 0
    → sent ≤ now
    → (now - sent < headers_interval - headers_interval / 5
        → http3_should_send_headers (http3_update_headers_timer sent) headers_interval random now
          ≡ false)
      × (headers_interval + headers_interval / 5 ≤ now - sent
          → http3_should_send_headers (http3_update_headers_timer sent) headers_interval random now
            ≡ true)
unfolding http3_should_send_headers http3_update_headers_timer
headers_interval_window sent headers_interval random now started clock =
    (λ early. ground arith, λ late. ground arith)
