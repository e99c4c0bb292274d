-- ===== src/Mux/Tests.antt =====
-- sbc/main.go: an upgrade, and a plain request.
use comcent_ce.Common.{◌≡◌, refl, [], ◌∷◌, ◌++◌, Option, some, Text, text}
use comcent_ce.PipeListener.Prefix.{PrefixConn, read_all, stream}
use comcent_ce.Mux.{
  HttpRequest, Parsed, request_text, closes, injects, handle_tcp_conn, new_response_writer,
  serve_health, finish,
}
use comcent_ce.Mux.Upgrade.{handle_tcp_conn-stream}

abbrev upgrade : HttpRequest
upgrade = record {
  method = text "GET";
  request_uri = text "/";
  proto = text "HTTP/1.1";
  host = text "sbc";
  headers =
      (text "Connection", text "keep-alive, Upgrade" ∷ [])
      ∷ (text "Upgrade", text "websocket" ∷ [])
      ∷ [];
}

-- A frame that came with the request is in the reader.
abbrev parsed : Parsed
parsed = record { request = upgrade; buffered = text "frame1"; unread = text "frame2" }

abbrev read_request : Text → Option Parsed
read_request incoming = some parsed

abbrev incoming : Text
incoming = text "GET / HTTP/1.1"

abbrev injected : PrefixConn
injected = record { prefix = request_text upgrade; unread = text "frame2" }

is_injected : handle_tcp_conn read_request incoming ≡ injects injected
unfolding handle_tcp_conn comcent_ce.Go.Strings.has_prefix comcent_ce.Go.Strings.equal_fold
    comcent_ce.Go.Strings.contains comcent_ce.PipeListener.Prefix.new_prefix_conn
is_injected = refl

too_short : handle_tcp_conn read_request (text "GET") ≡ closes
unfolding handle_tcp_conn
too_short = refl

not_http : handle_tcp_conn read_request (text "REGISTER sip:x SIP/2.0") ≡ closes
unfolding handle_tcp_conn comcent_ce.Go.Strings.has_prefix
not_http = refl

health :
    finish (λ n. text "OK") (serve_health new_response_writer)
    ≡ text "HTTP/1.1 200 OK"
      ++ (13
          ∷ 10
          ∷ (text "Content-Length: 2"
              ++ (13 ∷ 10 ∷ (text "Connection: close" ++ (13 ∷ 10 ∷ 13 ∷ 10 ∷ text "OK")))))
unfolding finish comcent_ce.Go.Strconv.itoa serve_health new_response_writer
health = refl

handle_tcp_conn-stream_example :
    (read_all ((4, 10) ∷ (500, 2) ∷ (9, 3) ∷ []) injected).0
      ++ stream (read_all ((4, 10) ∷ (500, 2) ∷ (9, 3) ∷ []) injected).1
    ≡ request_text upgrade ++ text "frame2"
handle_tcp_conn-stream_example =
    handle_tcp_conn-stream read_request incoming parsed injected ((4, 10) ∷ (500, 2) ∷ (9, 3) ∷ [])
      refl is_injected
