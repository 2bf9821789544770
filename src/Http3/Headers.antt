-- ===== src/Http3/Headers.antt =====
-- The HEADERS frame, its text, and when it is sent (src/http3_frames.c). Strings are lists of
-- bytes without the terminating zero; the values that `rand()` and `time()` return are arguments.
pub mod Size
pub mod Timer
mod Tests
use tinc_quic.Common.{ℕ, ◌+◌, ◌-◌, ◌*◌, ◌/◌, ◌%◌, ◌≤◌, Option, none, some, List, [], ◌∷◌, ◌++◌}
use tinc_quic.Common.{ltb, leb, ◌==◌, if◌then◌else◌, length, get_or, codes, map, Bool, ◌||◌}
use tinc_quic.Common.{◌>>=◌}
use Prim.Native.String.{String}
use tinc_quic.Http3.Frame.{http3_encode_frame_header, frame_headers}

abbrev pub max_header_size : ℕ
max_header_size = 2048

pub data UserAgentType : Type 0 where
  ua_chrome ua_firefox ua_safari ua_edge ua_random : UserAgentType

pub data HttpMethod : Type 0 where
  http_get http_post : HttpMethod

-- `http3_config_t`; `none` is a NULL pointer.
pub record Http3Config : Type 0 where
  pub enabled : Bool
  pub user_agent : UserAgentType
  pub custom_user_agent : Option (List ℕ)
  pub url_paths : Option (List (List ℕ))

user_agent_strings : List String
user_agent_strings =
    "Mozilla/5.0 (Windows NT 10.0; Win64; x64) AppleWebKit/537.36 (KHTML, like Gecko) Chrome/120.0.0.0 Safari/537.36"
    ∷ "Mozilla/5.0 (Windows NT 10.0; Win64; x64; rv:121.0) Gecko/20100101 Firefox/121.0"
    ∷ "Mozilla/5.0 (Macintosh; Intel Mac OS X 14_1) AppleWebKit/605.1.15 (KHTML, like Gecko) Version/17.1 Safari/605.1.15"
    ∷ "Mozilla/5.0 (Windows NT 10.0; Win64; x64) AppleWebKit/537.36 (KHTML, like Gecko) Chrome/120.0.0.0 Safari/537.36 Edg/120.0.0.0"
    ∷ []

default_url_paths : List String
default_url_paths =
    "/api/v1/data" ∷ "/static/js/main.js" ∷ "/static/css/style.css" ∷ "/images/logo.png"
    ∷ "/fonts/roboto.woff2" ∷ "/api/user/profile" ∷ "/api/messages" ∷ "/api/notifications"
    ∷ "/assets/bundle.js" ∷ "/metrics" ∷ []

agent_index : UserAgentType → ℕ → ℕ
agent_index ua_chrome random = 0
agent_index ua_firefox random = 1
agent_index ua_safari random = 2
agent_index ua_edge random = 3
agent_index ua_random random = random % 4

-- The configuration, the type asked for, and what `rand()` returns.
unfoldable pub http3_get_user_agent : Http3Config → UserAgentType → ℕ → List ℕ
unfolding agent_index user_agent_strings
http3_get_user_agent config type random = elim config.custom_user_agent [
  | some agent ↦ agent
  | none ↦ get_or (map codes user_agent_strings) (agent_index type random) []
]

-- `http3_init_url_paths`
unfoldable pub http3_init_url_paths : Http3Config → Http3Config
unfolding default_url_paths
http3_init_url_paths config = elim config.url_paths [
  | none ↦ record config { url_paths = some (map codes default_url_paths) }
  | some _ ↦ config
]

-- `http3_cleanup_url_paths`
unfoldable pub http3_cleanup_url_paths : Http3Config → Http3Config
http3_cleanup_url_paths config = record config { url_paths = none; custom_user_agent = none }

-- The path at `rand()` in the list in use: the configured one unless it is missing or empty.
unfoldable pub http3_get_random_path : Http3Config → ℕ → List ℕ
unfolding default_url_paths
http3_get_random_path config random =
    let default = map codes default_url_paths in
    let paths : List (List ℕ) = elim config.url_paths [
      | none ↦ default
      | some configured ↦ if length configured == 0 then default else configured
    ] in
    get_or paths (random % length paths) []

abbrev pub crlf : List ℕ
crlf = 0x0D ∷ 0x0A ∷ []

-- `name: value\r\n`
line : List ℕ → List ℕ → List ℕ
line name value = name ++ (codes ": " ++ (value ++ crlf))

method_str : HttpMethod → List ℕ
method_str http_get = codes "GET"
method_str http_post = codes "POST"

pseudo_headers : HttpMethod → List ℕ → List ℕ → List ℕ
unfolding line method_str
pseudo_headers method path authority =
    line (codes ":method") (method_str method)
    ++ (line (codes ":scheme") (codes "https")
        ++ (line (codes ":authority") authority ++ line (codes ":path") path))

real_headers : List ℕ → List ℕ
unfolding line
real_headers agent =
    line (codes "user-agent") agent
    ++ (line (codes "accept") (codes "text/html,application/json,*/*")
        ++ (line (codes "accept-language") (codes "en-US,en;q=0.9")
            ++ (line (codes "accept-encoding") (codes "gzip, deflate, br")
                ++ (line (codes "cache-control") (codes "no-cache")
                    ++ (line (codes "sec-fetch-dest") (codes "empty")
                        ++ (line (codes "sec-fetch-mode") (codes "cors")
                            ++ line (codes "sec-fetch-site") (codes "same-origin")))))))

content_type : List ℕ
unfolding line
content_type = line (codes "content-type") (codes "application/octet-stream")

-- `snprintf(headers + offset, remaining, text)` with the test that follows each call: the text has
-- to leave room for the terminating zero.
pub print_at : List ℕ → List ℕ → Option (List ℕ)
print_at headers text =
    if leb (max_header_size - length headers) (length text) then none else some (headers ++ text)

-- The Content-Type line, for POST only.
type_line : HttpMethod → List ℕ → Option (List ℕ)
type_line http_post headers = print_at headers content_type
type_line http_get headers = some headers

-- The text of the headers, as it is built up in `headers[HTTP3_MAX_HEADER_SIZE]`.
pub headers_text : HttpMethod → List ℕ → List ℕ → List ℕ → Option (List ℕ)
headers_text method path authority agent = do
  first ← print_at [] (pseudo_headers method path authority)
  second ← print_at first (real_headers agent)
  third ← type_line method second
  print_at third crlf

-- Path, authority, User-Agent and the size of the output buffer; the frame written.
pub http3_create_headers_frame : HttpMethod → List ℕ → List ℕ → List ℕ → ℕ → Option (List ℕ)
http3_create_headers_frame method path authority agent frame_size =
    if ltb frame_size max_header_size then none else do
      headers ← headers_text method path authority agent
      header ← http3_encode_frame_header frame_headers (length headers) frame_size
      some (header ++ headers)

-- The state is `last_headers_time`; the interval, `rand()` and `time(NULL)` are arguments.
unfoldable pub http3_should_send_headers : ℕ → ℕ → ℕ → ℕ → Bool
http3_should_send_headers last_headers_time headers_interval random now =
    let jitter = headers_interval * 20 / 100 in
    let min_interval = headers_interval - jitter in
    let max_interval = headers_interval + jitter in
    let interval = min_interval + random % (max_interval - min_interval + 1) in
    last_headers_time == 0 || leb (last_headers_time + interval) now

-- The new `last_headers_time`.
unfoldable pub http3_update_headers_timer : ℕ → ℕ
http3_update_headers_timer now = now
