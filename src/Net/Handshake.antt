-- ===== src/Net/Handshake.antt =====
-- net/websocket_handshake.cpp: the request to upgrade, the reading of the response and its checks. The key
-- and the value to expect for it, which are made of random bytes and of SHA-1, are arguments, and so
-- are the pieces of the response, as the transport gives them.
pub mod Headers
use cpp_trading_engine.Base.{
  ℕ, zero, suc, ◌+◌, Bool, true, false, ◌&&◌, ◌||◌, not, Option, none, some, List, [], ◌∷◌, ◌++◌,
  if◌then◌else◌, ltb, leb, ◌==◌, take, drop, length, map, Text, codes, is_empty, text_eq, Result,
  ok, err, out_of_fuel, stream_ended, upgrade_refused, accept_missing, accept_wrong, ◌>>=◌,
}
use cpp_trading_engine.Json.Scan.{starts_with}

-- `kCrLf` and `kHeaderTerminator`
abbrev pub cr_lf : Text
cr_lf = 13 ∷ 10 ∷ []

abbrev pub header_terminator : Text
header_terminator = 13 ∷ 10 ∷ 13 ∷ 10 ∷ []

-- `ToLower`
abbrev pub lower_byte : ℕ → ℕ
lower_byte c = if leb 65 c && leb c 90 then c + 32 else c

abbrev pub to_lower : Text → Text
to_lower text = map lower_byte text

-- Whether `find` finds it
unfoldable pub contains_text : Text → Text → Bool
unfolding starts_with
contains_text pattern_text [] = false
contains_text pattern_text (c ∷ cs) =
    let later = contains_text pattern_text cs in starts_with pattern_text (c ∷ cs) || later

abbrev pub one_further : Option ℕ → Option ℕ
one_further none = none
one_further (some i) = some (suc i)

-- `find`
unfoldable pub find_text : Text → Text → Option ℕ
unfolding starts_with
find_text pattern_text [] = none
find_text pattern_text (c ∷ cs) =
    let later = one_further (find_text pattern_text cs) in
    if starts_with pattern_text (c ∷ cs) then some 0 else later

-- `ReadHandshakeResponse`, for the pieces that come
unfoldable pub read_handshake_response : List Text → Text → Result Text
unfolding contains_text
read_handshake_response [] response =
    if contains_text header_terminator response then ok response else err stream_ended
read_handshake_response (chunk ∷ chunks) response =
    let later = read_handshake_response chunks (response ++ chunk) in
    if contains_text header_terminator response then ok response else later

unfoldable pub skip_spaces : Text → Text
skip_spaces [] = []
skip_spaces (c ∷ cs) = let later = skip_spaces cs in if c == 32 then later else c ∷ cs

abbrev pub value_behind : Text → Text → Option ℕ → Option Text
value_behind name line none = none
value_behind name line (some colon) =
    if text_eq (to_lower (take colon line)) name
    then some (skip_spaces (drop (colon + 1) line))
    else none

-- The value of a line that has the name
unfoldable pub header_value : Text → Text → Option Text
unfolding find_text skip_spaces text_eq
header_value name line = value_behind name line (find_text (58 ∷ []) line)

abbrev pub or_later : Option Text → Result (Option Text) → Result (Option Text)
or_later (some value) later = ok (some value)
or_later none later = later

abbrev pub of_line : Text → Text → Result (Option Text) → Result (Option Text)
of_line name line later = if is_empty line then ok none else or_later (header_value name line) later

-- A line without an end is the rest, and the position behind it wraps round to 1.
abbrev pub at_line :
    (Text → Result (Option Text)) → Text → Text → Text → Option ℕ → Result (Option Text)
at_line again response name rest none = of_line name rest (again (drop 1 response))
at_line again response name rest (some k) = of_line name (take k rest) (again (drop (k + 2) rest))

-- `FindHeader` from a position on, which is given by the rest of the response
unfoldable pub find_header_from : ℕ → Text → Text → Text → Result (Option Text)
unfolding find_text header_value
find_header_from zero response name rest = err out_of_fuel
find_header_from (suc passes) response name rest =
    if is_empty rest
    then ok none
    else at_line (find_header_from passes response name) response name rest (find_text cr_lf rest)

-- `FindHeader`, with more passes than there are bytes
unfoldable pub find_header : Text → Text → Result (Option Text)
unfolding find_header_from
find_header response name = find_header_from (suc (length response)) response name response

abbrev pub add_headers : List Text → Text
add_headers [] = []
add_headers (header ∷ headers) = header ++ (cr_lf ++ add_headers headers)

-- The request of `PerformWebSocketHandshake`
abbrev pub request_text : Text → Text → Text → List Text → Text
request_text host path key extra_headers =
    codes "GET "
    ++ (path
        ++ (codes " HTTP/1.1\r\nHost: "
            ++ (host
                ++ (codes "\r\nUpgrade: websocket\r\nConnection: Upgrade\r\nSec-WebSocket-Key: "
                    ++ (key
                        ++ (codes "\r\nSec-WebSocket-Version: 13\r\n"
                            ++ (add_headers extra_headers ++ cr_lf)))))))

abbrev pub verified : Text → Option Text → Result (Unit {0})
verified expected none = err accept_missing
verified expected (some value) = if text_eq value expected then ok tt else err accept_wrong

-- What `PerformWebSocketHandshake` does with the response
unfoldable pub check_response : Text → Text → Result (Unit {0})
unfolding starts_with find_header text_eq
check_response expected response =
    if starts_with (codes "HTTP/1.1 101") response
    then (find_header response (codes "sec-websocket-accept") >>= verified expected)
    else err upgrade_refused

-- `PerformWebSocketHandshake` behind the write of the request
unfoldable pub perform_web_socket_handshake : Text → List Text → Result (Unit {0})
unfolding read_handshake_response check_response
perform_web_socket_handshake expected chunks =
    read_handshake_response chunks [] >>= check_response expected
