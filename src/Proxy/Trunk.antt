-- ===== src/Proxy/Trunk.antt =====
-- sbc/proxy.go: the INVITE of FreeSWITCH to a trunk. `digest` is what DoDigestAuth returns for the
-- request, the challenge, the user and the password, `none` for an error; `lookup_host` is
-- net.LookupHost.
mod Tests
pub mod Spoofed
pub mod Recorded
pub mod Acknowledged
pub mod Frame
use comcent_ce.Common.{
  ℕ, Bool, true, false, not, ◌&&◌, ◌||◌, List, [], ◌∷◌, Option, none, some, Text, text, text_eq,
  Dict, store, delete, leb, ◌==◌, if◌then◌else◌,
}
use comcent_ce.Common.Int.{pos}
use comcent_ce.Sip.{Sipgo, Uri, Address, Request, Response, get_header, from_address, cseq_number}
use comcent_ce.Contact.Targets.{
  before_colon, parse_port, split_host_port_or, resolve_host, message_contact_uri, spoof_cache_key,
}
use comcent_ce.Forward.{build_forward, Ports, add_record_route, digest_cseq_offset}
use comcent_ce.Forward.Route.{RouteConfig}
use comcent_ce.Api.{IpNet, Api, Reply, Outcome, found, not_found, failed, TrunkData, get_sip_trunk}
use comcent_ce.Proxy.Calls.{
  CallState, Calls, Event, responds, closed, done, Status, waiting, ended, is_success,
}
use comcent_ce.Proxy.Fork.{plain, relayed_response}

-- The state that the handler changes besides the caches of the server's answers.
pub record Outbound : Type 0 where
  pub table : Calls
  pub spoof_cache : Dict Text

-- What the handler does, in order, with the table at that moment: a response to FreeSWITCH, and a call of
-- DoDigestAuth with the challenge.
pub data Action : Type 0 where
  replies : Calls → Response → Action
  authenticates : Calls → Response → Action

abbrev pub Trace : Type 0
Trace = Outbound × List Action × Status

abbrev pub before_trace : Action → Trace → Trace
before_trace a (s, rest, status) = (s, a ∷ rest, status)

-- What the trunk's data says of where the call goes.
pub record Route : Type 0 where
  pub uri : Uri
  pub dest : Text
  pub outbound_user : Text
  pub outbound_pass : Text

pub trunk_route : (Text → List Text) → TrunkData → Text → Route
trunk_route lookup_host trunk user =
    let (host, port) = split_host_port_or trunk.outbound_contact (pos 5060) in
    record {
      uri = record { user = user; host = host; port = port; params = [] };
      dest = resolve_host lookup_host trunk.outbound_contact;
      outbound_user = trunk.outbound_user;
      outbound_pass = trunk.outbound_pass;
    }

abbrev pub differing : Text → Text → Text
differing number user = if text_eq user [] || text_eq user number then [] else user

-- The user of From, if it is another than the trunk's number.
pub spoofed_user_of : Option Address → Text → Text
spoofed_user_of none number = []
spoofed_user_of (some from) number = differing number from.uri.user

abbrev pub is_challenge : ℕ → Bool
is_challenge n = n == 401 || n == 407

module _ (sip : Sipgo) (req : Request) (id number spoofed : Text) (route : Route) where
  pub trunk_call : Response → ℕ → CallState
  trunk_call resp offset = record {
    fs_addr = req.source;
    fs_uri = message_contact_uri sip req.headers (record {
      user = [];
      host = before_colon req.source;
      port = parse_port req.source;
      params = [];
    });
    user_addr = route.dest;
    user_uri = message_contact_uri sip resp.headers route.uri;
    user_aors = [];
    is_webrtc = false;
    spoofed_user = spoofed;
    fs_cseq_offset = offset;
  }

  -- The state when the response is relayed: a 2xx is recorded first.
  pub record_call : ℕ → Response → Outbound → Outbound
  unfolding trunk_call
  record_call offset resp s =
      if is_success resp.status
      then record s {
        table = record s.table { calls = store id (trunk_call resp offset) s.table.calls };
      }
      else s

  abbrev pub drop_transaction : Outbound → Outbound
  drop_transaction s = record s { table = record s.table { active = delete id s.table.active } }

  -- From what DoDigestAuth returns on; the transaction is gone by then.
  pub on_digest : Option Response → Outbound → Trace
  unfolding record_call
  on_digest none s = (s, replies s.table (plain sip req 502 (text "Bad Gateway")) ∷ [], ended false)
  on_digest (some resp) s =
      let t =
        record_call (digest_cseq_offset (cseq_number resp.headers) (cseq_number req.headers)) resp
          s in
      (t, replies t.table (relayed_response sip req resp) ∷ [], ended (is_success resp.status))

  module _ (digest : Request → Response → Text → Text → Option Response) (fwd : Request) where
    pub on_challenge : Response → Outbound → Trace
    on_challenge resp s =
        let t = drop_transaction s in
        before_trace (authenticates t.table resp)
          (on_digest (digest fwd resp route.outbound_user route.outbound_pass) t)

    -- The loop of handleInviteFromFSToTrunk.
    pub relay : List Event → Outbound → Trace
    relay [] s = (s, [], waiting)
    relay (closed ∷ events) s = (s, [], ended false)
    relay (done has_error ∷ events) s = (
      s,
      if has_error then replies s.table (plain sip req 408 (text "Request Timeout")) ∷ [] else [],
      ended false,
    )
    relay (responds resp ∷ events) s =
        let rest = relay events s in
        let sent = replies (record_call 0 resp s).table (relayed_response sip req resp) in
        let next = before_trace sent (relay events (record_call 0 resp s)) in
        if resp.status == 100
        then rest
        else if is_challenge resp.status
        then on_challenge resp s
        else if leb 200 resp.status
        then (record_call 0 resp s, sent ∷ [], ended (is_success resp.status))
        else next

  -- The deferred call on the spoof cache.
  abbrev pub forget_unless : Bool → Outbound → Outbound
  forget_unless established s =
      if not established && not (text_eq spoofed [])
      then record s { spoof_cache = delete (spoof_cache_key id spoofed) s.spoof_cache }
      else s

  -- The deferred calls behind a TransactionRequest, last first.
  pub leave : Trace → Trace
  leave (s, acts, waiting) = (s, acts, waiting)
  leave (s, acts, ended established) =
      (forget_unless established (drop_transaction s), acts, ended established)

  pub remember : Outbound → Outbound
  remember s =
      if text_eq spoofed []
      then s
      else record s { spoof_cache = store (spoof_cache_key id spoofed) number s.spoof_cache }

  -- From the TransactionRequest on; `connected` says that it gives no error.
  pub forward_to_trunk :
      (Request → Response → Text → Text → Option Response)
      → Request
      → Bool
      → List Event
      → Outbound
      → Trace
  unfolding relay leave
  forward_to_trunk digest fwd connected events s =
      if connected
      then leave (
          relay digest fwd events
            (record s { table = record s.table { active = store id fwd s.table.active } }))
      else (
        forget_unless false s,
        replies s.table (plain sip req 502 (text "Bad Gateway")) ∷ [],
        ended false,
      )

  abbrev pub outgoing : Ports → Request → Request
  outgoing ports fwd = add_record_route ports (record fwd { destination = route.dest }) false

  -- From the 100 on.
  pub invite_route :
      (Request → Response → Text → Text → Option Response)
      → RouteConfig
      → Ports
      → Bool
      → List Event
      → Outbound
      → Trace
  unfolding forward_to_trunk remember
  invite_route digest cfg ports connected events s =
      before_trace (replies s.table (plain sip req 100 (text "Trying")))
        (elim (build_forward sip cfg req route.uri []) [
          | none ↦ (s, replies s.table (plain sip req 483 (text "Too Many Hops")) ∷ [], ended false)
          | some fwd ↦ forward_to_trunk digest (outgoing ports fwd) connected events (remember s)
        ])

module _ (net : IpNet) (sip : Sipgo) (digest : Request → Response → Text → Text → Option Response)
    (lookup_host : Text → List Text) (cfg : RouteConfig) (ports : Ports) where
  -- On the result of the lookup, whose new caches are kept.
  pub on_trunk :
      Request → Text → Text → Text → Bool → List Event → Outbound → Outcome TrunkData → Trace
  unfolding invite_route
  on_trunk req id user number connected events s (found trunk) =
      invite_route sip req id number (spoofed_user_of (from_address req.headers) number)
        (trunk_route lookup_host trunk user) digest cfg ports connected events s
  on_trunk req id user number connected events s error =
      (s, replies s.table (plain sip req 500 (text "Server Error")) ∷ [], ended false)

  -- handleInviteFromFSToTrunk. `reply` is what the server would answer about the number's trunk.
  pub invite_to_trunk :
      Api net
      → ℕ
      → Reply TrunkData
      → Request
      → Text
      → Text
      → Bool
      → List Event
      → Outbound
      → Api net × Trace
  invite_to_trunk api now reply req id user connected events s =
      elim (get_header sip (text "X-Trunk-Number") req.headers) [
        | none ↦ (
          api,
          (
            s,
            replies s.table (plain sip req 400 (text "Missing X-Trunk-Number")) ∷ [],
            ended false,
          ),
        )
        | some number ↦
            let (api', outcome, asked) = get_sip_trunk net api now number reply in
            (api', on_trunk req id user number connected events s outcome)
      ]
