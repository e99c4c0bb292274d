-- ===== src/Mux.antt =====
-- sbc/main.go: handleTCPConn, which tells WebSocket upgrades from plain HTTP, and rawResponseWriter. What
-- http.ReadRequest makes of the bytes that arrive, and the text of a status, are parameters.
mod Tests
pub mod Upgrade
use comcent_ce.Common.{
  ℕ, zero, suc, ◌+◌, ◌-◌, Bool, true, false, ◌&&◌, ◌||◌, List, [], ◌∷◌, ◌++◌, Option, none, some,
  Text, text, text_eq, length, leb, if◌then◌else◌,
}
use comcent_ce.Go.Strings.{has_prefix, contains, to_lower, equal_fold}
use comcent_ce.Go.Strconv.{itoa}
use comcent_ce.PipeListener.Prefix.{PrefixConn, new_prefix_conn}

-- An http.Request. A key has its values in order; the keys stand in the order in which the map is ranged
-- over.
pub record HttpRequest : Type 0 where
  pub method : Text
  pub request_uri : Text
  pub proto : Text
  pub host : Text
  pub headers : List (Text × List Text)

-- A request, the bytes behind it that the reader has taken from the connection already, and those that the
-- connection still holds.
pub record Parsed : Type 0 where
  pub request : HttpRequest
  pub buffered : Text
  pub unread : Text

abbrev first_value : List Text → Text
first_value [] = []
first_value (v ∷ vs) = v

-- Header.Get(key), for a key in its canonical form
header_value : Text → List (Text × List Text) → Text
header_value key [] = []
header_value key ((k, vs) ∷ headers) =
    if text_eq k key then first_value vs else header_value key headers

pub is_websocket_upgrade : HttpRequest → Bool
unfolding header_value
is_websocket_upgrade r =
    equal_fold (header_value (text "Upgrade") r.headers) (text "websocket")
    && contains (to_lower (header_value (text "Connection") r.headers)) (text "upgrade")

abbrev crlf : Text
crlf = 13 ∷ 10 ∷ []

header_lines : Text → List Text → Text
header_lines k [] = []
header_lines k (v ∷ vs) = k ++ (text ": " ++ (v ++ (crlf ++ header_lines k vs)))

-- The lines of all keys but those that `skipped` names.
all_lines : (Text → Bool) → List (Text × List Text) → Text
unfolding header_lines
all_lines skipped [] = []
all_lines skipped ((k, vs) ∷ headers) =
    let rest = all_lines skipped headers in if skipped k then rest else header_lines k vs ++ rest

-- The request as text, for sipgo's WebSocket handler.
pub request_text : HttpRequest → Text
unfolding all_lines
request_text r =
    let host : Text = if text_eq r.host [] then [] else text "Host: " ++ (r.host ++ crlf) in
    r.method
    ++ (b' '
        ∷ (r.request_uri
            ++ (b' '
                ∷ (r.proto
                    ++ (crlf
                        ++ (host
                            ++ (all_lines (λ k. equal_fold k (text "Host")) r.headers ++ crlf)))))))

pub data Outcome : Type 0 where
  closes : Outcome
  -- Inject of the connection
  injects : PrefixConn → Outcome
  -- ServeHTTP, whose response is written before the connection is closed
  serves : HttpRequest → Outcome

abbrev upper : ℕ → ℕ
upper c = if leb b'a' c && leb c b'z' then c - 32 else c

-- strings.ToUpper
pub to_upper : Text → Text
to_upper [] = []
to_upper (c ∷ s) = upper c ∷ to_upper s

module _ (read_request : Text → Option Parsed) where
  on_request : Option Parsed → Outcome
  unfolding request_text is_websocket_upgrade
  on_request none = closes
  on_request (some p) =
      if is_websocket_upgrade p.request
      then injects (new_prefix_conn p.unread (request_text p.request))
      else serves p.request

  -- handleTCPConn, on the bytes that arrive until the connection ends. Fewer than four end Peek with an
  -- error.
  pub handle_tcp_conn : Text → Outcome
  unfolding on_request to_upper
  handle_tcp_conn incoming =
      let first = to_upper incoming in
      if leb 4 (length incoming)
        && (has_prefix first (text "GET ") || has_prefix first (text "POST"))
      then on_request (read_request incoming)
      else closes

pub record RawResponseWriter : Type 0 where
  pub headers : List (Text × List Text)
  pub status_code : ℕ
  pub written : Bool
  pub body : Text

pub new_response_writer : RawResponseWriter
new_response_writer = record { headers = []; status_code = 200; written = false; body = [] }

write_header : RawResponseWriter → ℕ → RawResponseWriter
write_header w code = record w { status_code = code }

pub write : RawResponseWriter → Text → RawResponseWriter
write w b = record w { written = true; body = w.body ++ b }

-- finish: what it writes to the connection.
pub finish : (ℕ → Text) → RawResponseWriter → Text
unfolding all_lines
finish status_text w =
    text "HTTP/1.1 "
    ++ (itoa w.status_code
        ++ (b' '
            ∷ (status_text w.status_code
                ++ (crlf
                    ++ (text "Content-Length: "
                        ++ (itoa (length w.body)
                            ++ (crlf
                                ++ (text "Connection: close"
                                    ++ (crlf
                                        ++ (all_lines (λ k. false) w.headers
                                            ++ (crlf ++ w.body)))))))))))

-- The handler of /health
pub serve_health : RawResponseWriter → RawResponseWriter
unfolding write write_header
serve_health w = write (write_header w 200) (text "OK")
