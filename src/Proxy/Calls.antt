-- ===== src/Proxy/Calls.antt =====
-- sbc/proxy.go: the call table, the relaying of an INVITE to FreeSWITCH, and the ACK. A response is
-- listed with the table at the moment at which it is sent, for what another goroutine can read then.
mod Tests
pub mod Recorded
pub mod Settled
pub mod Acks
pub mod Active
pub mod Frame
use comcent_ce.Common.{
  Bool, true, false, ◌&&◌, List, [], ◌∷◌, ◌++◌, Option, none, some, ℕ, Text, text, text_eq, Dict,
  lookup, store, delete, leb, ltb, ◌==◌, if◌then◌else◌,
}
use comcent_ce.Common.Int.{ℤ}
use comcent_ce.Sip.{Sipgo, Uri, Address, Request, Response, get_header}
use comcent_ce.Contact.Targets.{
  before_colon, parse_port, strip_sip_prefix, is_webrtc_transport, message_contact_uri,
  normalized_contact,
}
use comcent_ce.Forward.{
  build_forward, build_in_dialog, shift_cseq, Ports, add_record_route, copy_response_headers,
  replace_contact_header,
}
use comcent_ce.Forward.Route.{RouteConfig}
use comcent_ce.Dispatcher.{Dispatcher}
use comcent_ce.Proxy.Affinity.{
  comcent_users, select_target_for_users, save_affinity, delete_affinity,
}

pub record CallState : Type 0 where
  pub fs_addr : Text
  pub fs_uri : Text
  pub user_addr : Text
  pub user_uri : Text
  pub user_aors : List Text
  pub is_webrtc : Bool
  pub spoofed_user : Text
  pub fs_cseq_offset : ℕ

-- p.calls, p.activeTx with the forwarded requests, and p.affinity.
pub record Calls : Type 0 where
  pub calls : Dict CallState
  pub active : Dict Request
  pub affinity : Dict (Dict Text)

-- What the client transaction brings: a response, the end of its channel, or its end, with an error or
-- without.
pub data Event : Type 0 where
  responds : Response → Event
  closed : Event
  done : Bool → Event

-- Whether the handler has returned, and with a call established.
pub data Status : Type 0 where
  waiting : Status
  ended : Bool → Status

-- The table, the responses sent, each with the table at that moment, and the status.
abbrev pub Trace : Type 0
Trace = Calls × List (Calls × Response) × Status

abbrev pub is_success : ℕ → Bool
is_success n = leb 200 n && ltb n 300

pub relay_response : Sipgo → Request → Text → Response → Response
relay_response sip req fs_addr resp =
    let relay = sip.new_response req resp.status resp.reason resp.body in
    record relay {
      headers =
          replace_contact_header sip
            (normalized_contact sip (get_header sip (text "Contact") resp.headers) fs_addr)
            (copy_response_headers sip resp.headers relay.headers);
    }

pub new_call : Sipgo → Request → Address → Text → List Text → Response → CallState
new_call sip req from fs_addr users resp = record {
  fs_addr = fs_addr;
  fs_uri =
      message_contact_uri sip resp.headers
        (record { user = []; host = before_colon fs_addr; port = parse_port fs_addr; params = [] });
  user_addr = req.source;
  user_uri = message_contact_uri sip req.headers from.uri;
  user_aors = users;
  is_webrtc = is_webrtc_transport req.transport;
  spoofed_user = [];
  fs_cseq_offset = 0;
}

abbrev before_trace : Calls × Response → Trace → Trace
before_trace sent (s, rest, status) = (s, sent ∷ rest, status)

module _ (sip : Sipgo) (req : Request) (from : Address) (id fs_addr : Text)
    (users : List Text) where
  -- The table when the response is relayed: a 2xx is recorded first.
  pub recorded : Calls → Response → Calls
  unfolding new_call
  recorded s resp =
      if is_success resp.status
      then record s { calls = store id (new_call sip req from fs_addr users resp) s.calls }
      else s

  -- The loop of handleInviteToFS.
  relay : List Event → Calls → Trace
  relay [] s = (s, [], waiting)
  relay (closed ∷ events) s = (s, [], ended false)
  relay (done failed ∷ events) s = (
    s,
    if failed then (s, sip.new_response req 408 (text "Request Timeout") []) ∷ [] else [],
    ended false,
  )
  relay (responds resp ∷ events) s =
      let rest = relay events s in
      let sent : Calls × Response = (recorded s resp, relay_response sip req fs_addr resp) in
      let next = before_trace sent (relay events (recorded s resp)) in
      if resp.status == 100
      then rest
      else if leb 200 resp.status
      then (recorded s resp, sent ∷ [], ended (is_success resp.status))
      else next

  -- The deferred call on the affinity.
  abbrev drop_unless : Bool → Calls → Calls
  drop_unless established s =
      if established then s else record s { affinity = delete_affinity id users s.affinity }

  -- The deferred calls behind a TransactionRequest, last first.
  leave : Trace → Trace
  leave (s, sent, waiting) = (s, sent, waiting)
  leave (s, sent, ended established) =
      (drop_unless established (record s { active = delete id s.active }), sent, ended established)

  abbrev give_up : Calls → ℕ → Text → Trace
  give_up s status reason =
      (drop_unless false s, (s, sip.new_response req status reason []) ∷ [], ended false)

  -- From the TransactionRequest on; `connected` says that it gives no error.
  pub forward_to_fs : Calls → Request → Bool → List Event → Trace
  unfolding relay leave
  forward_to_fs s fwd connected events =
      if connected
      then leave (relay events (record s { active = store id fwd s.active }))
      else give_up s 502 (text "Bad Gateway")

  -- From where the target is chosen.
  pub invite_fs : RouteConfig → Ports → Calls → Bool → List Event → Trace
  unfolding forward_to_fs
  invite_fs cfg ports s connected events =
      let s' = record s { affinity = save_affinity id fs_addr users s.affinity } in
      before_trace (s', sip.new_response req 100 (text "Trying") [])
        (elim (build_forward sip cfg req req.recipient []) [
          | none ↦ give_up s' 483 (text "Too Many Hops")
          | some fwd ↦
              forward_to_fs s'
                (add_record_route ports
                  (record fwd { destination = fs_addr; transport = text "udp" }) true)
                connected events
        ])

-- On the target that was chosen, if there is one.
invite_target :
    Sipgo
    → Request
    → Address
    → Text
    → List Text
    → RouteConfig
    → Ports
    → Calls
    → Bool
    → List Event
    → Option Text
    → Trace
unfolding invite_fs
invite_target sip req from id users cfg ports s connected events none =
    (s, (s, sip.new_response req 503 (text "Service Unavailable") []) ∷ [], ended false)
invite_target sip req from id users cfg ports s connected events (some t) =
    invite_fs sip req from id (strip_sip_prefix t) users cfg ports s connected events

-- handleInviteToFS behind its authentication, on what From(), To() and CallID() return.
unfoldable pub invite_to_fs :
    Sipgo
    → RouteConfig
    → Ports
    → Text
    → ℕ
    → Dispatcher
    → Calls
    → Request
    → Address
    → Address
    → Text
    → Bool
    → List Event
    → Dispatcher × Trace
unfolding invite_target
invite_to_fs sip cfg ports root chance d s req from to id connected events =
    let users = comcent_users root from.uri to.uri in
    let (d', target) = select_target_for_users chance s.affinity d users in
    (d', invite_target sip req from id users cfg ports s connected events target)

-- What is sent on for a request in a dialog: of FreeSWITCH to the user, and of the user to FreeSWITCH.
pub dialog_from_fs : Sipgo → RouteConfig → CallState → Request → Option Request
dialog_from_fs sip cfg state req = elim (build_in_dialog sip cfg req state.user_uri []) [
  | none ↦ none
  | some fwd ↦
      let shifted = shift_cseq fwd state.fs_cseq_offset in
      some (
        if text_eq state.user_addr [] then shifted else record shifted {
          destination = state.user_addr;
          transport = if state.is_webrtc then text "ws" else shifted.transport;
        })
]

unfoldable pub dialog_to_fs : Sipgo → RouteConfig → CallState → Request → Option Request
dialog_to_fs sip cfg state req = elim (build_in_dialog sip cfg req [] []) [
  | none ↦ none
  | some fwd ↦ some (record fwd { destination = state.fs_addr; transport = text "udp" })
]

-- handleAck: the request that is sent on, if one is.
pub handle_ack : Sipgo → RouteConfig → Calls → Bool → Text → Request → Option Request
unfolding dialog_from_fs dialog_to_fs
handle_ack sip cfg s from_fs id req = elim (lookup id s.calls) [
  | none ↦ none
  | some state ↦
      if from_fs then dialog_from_fs sip cfg state req else dialog_to_fs sip cfg state req
]
