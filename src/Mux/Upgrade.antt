-- ===== src/Mux/Upgrade.antt =====
-- sbc/main.go: what the WebSocket handler reads of an upgraded connection.
use comcent_ce.Common.{
  ℕ, ◌≡◌, inl, inr, ◌&&◌, ◌||◌, List, ◌++◌, Option, none, some, Text, text, length, leb, Bool-cases,
}
use mathlib.Core.Path.{subst}
use comcent_ce.Go.Strings.{has_prefix}
use comcent_ce.PipeListener.Prefix.{PrefixConn, new_prefix_conn, read_all, stream, read_all-stream}
use comcent_ce.Mux.{
  Parsed, is_websocket_upgrade, request_text, Outcome, closes, injects, serves, to_upper,
  on_request, handle_tcp_conn,
}

-- The connection that is injected, if one is.
abbrev injected_by : Outcome → Option PrefixConn
injected_by closes = none
injected_by (injects c) = some c
injected_by (serves r) = none

-- What is injected gives the text of the request and then what the connection holds.
abbrev Gives : Text → Text → Option PrefixConn → Type 0
Gives raw unread none = Unit {0}
Gives raw unread (some c) =
    (reads : List (ℕ × ℕ)) → (read_all reads c).0 ++ stream (read_all reads c).1 ≡ raw ++ unread

on_request-Gives :
    (read_request : Text → Option Parsed) (p : Parsed)
    → Gives (request_text p.request) p.unread (injected_by (on_request read_request (some p)))
unfolding on_request new_prefix_conn
on_request-Gives read_request p = elim (Bool-cases (is_websocket_upgrade p.request)) [
  | inl e ↦
      rw (e, on_request)
        (λ reads. read_all-stream reads (new_prefix_conn p.unread (request_text p.request)))
  | inr e ↦ rw (e, on_request) tt
]

handle-Gives :
    (read_request : Text → Option Parsed) (incoming : Text) (p : Parsed)
    → read_request incoming ≡ some p
    → Gives (request_text p.request) p.unread (injected_by (handle_tcp_conn read_request incoming))
unfolding handle_tcp_conn
handle-Gives read_request incoming p e =
    elim (Bool-cases (
      leb 4 (length incoming)
      && (has_prefix (to_upper incoming) (text "GET ")
          || has_prefix (to_upper incoming) (text "POST")))) [
            | inl f ↦ rw (f, e) (on_request-Gives read_request p)
            | inr f ↦ rw f tt
          ]

-- Whatever reads the WebSocket handler makes of a connection that is injected for it, they give, with what
-- they leave, the text of the request and behind it what the connection still held when the request was
-- read; what the reader had taken from the connection behind the request is not among it.
pub handle_tcp_conn-stream :
    (read_request : Text → Option Parsed) (incoming : Text) (p : Parsed) (c : PrefixConn)
    (reads : List (ℕ × ℕ))
    → read_request incoming ≡ some p
    → handle_tcp_conn read_request incoming ≡ injects c
    → (read_all reads c).0 ++ stream (read_all reads c).1 ≡ request_text p.request ++ p.unread
handle_tcp_conn-stream read_request incoming p c reads e f =
    subst (λ (o : Outcome). Gives (request_text p.request) p.unread (injected_by o)) f
      (handle-Gives read_request incoming p e) reads
