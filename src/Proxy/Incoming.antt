-- ===== src/Proxy/Incoming.antt =====
-- sbc/proxy.go: where an INVITE goes, handleInviteToFS with its authentication, and the requests that are
-- answered at once or passed on in their dialog. `is_from_fs` is what the dispatcher says of the source.
mod Tests
pub mod Authentic
use comcent_ce.Common.{
  ℕ, Bool, true, false, not, List, [], ◌∷◌, ◌++◌, Option, none, some, Text, text, text_eq, Dict,
  if◌then◌else◌,
}
use comcent_ce.Go.Strings.{has_suffix}
use comcent_ce.Sip.{Sipgo, Address, Request, Response, generic_header}
use comcent_ce.Forward.{Ports, too_many_hops}
use comcent_ce.Forward.Route.{RouteConfig}
use comcent_ce.Dispatcher.{Dispatcher}
use comcent_ce.Api.{IpNet, Reply, TrunkData}
use comcent_ce.Proxy.{Proxy, Effect}
use comcent_ce.Proxy.Access.{authenticate_external}
use comcent_ce.Proxy.Calls.{CallState, Calls, Event, Status, ended, Trace, invite_to_fs}

-- The handler that an INVITE is given to, or the response to it.
pub data Handling : Type 0 where
  refuses : Response → Handling
  relays_in_dialog : Handling
  -- handleInviteFromFSToUser, with the user and the domain
  invites_user : Text → Text → Handling
  -- handleInviteFromFSToTrunk, with the user
  invites_trunk : Text → Handling
  invites_fs : Handling

-- handleInviteFromFS
handle_invite_from_fs : Text → Address → Handling
handle_invite_from_fs root to =
    if has_suffix to.uri.host root
    then invites_user to.uri.user to.uri.host
    else invites_trunk to.uri.user

-- handleInvite, on what To() returns
pub handle_invite : Sipgo → Text → Bool → Request → Address → Handling
unfolding handle_invite_from_fs
handle_invite sip root is_from_fs req to =
    if too_many_hops req
    then refuses (sip.new_response req 483 (text "Too Many Hops") [])
    else if not (text_eq to.tag [])
    then relays_in_dialog
    else if is_from_fs
    then handle_invite_from_fs root to
    else invites_fs

-- handleOptions
handle_options : Sipgo → Request → Response
handle_options sip req =
    let resp = sip.new_response req 200 (text "OK") [] in
    record resp {
      headers =
          resp.headers
          ++ generic_header (text "Allow")
              (text "INVITE, ACK, CANCEL, BYE, OPTIONS, REGISTER, REFER, INFO, UPDATE, NOTIFY")
            ∷ [];
    }

module _ (net : IpNet) (sip : Sipgo) (md5_hex : Text → Text) (cfg : RouteConfig)
    (ports : Ports) where
  -- The tables of calls and transactions with the affinity, which the proxy keeps.
  abbrev tables_of : Proxy net → Dict CallState → Dict Request → Calls
  tables_of p calls active = record { calls = calls; active = active; affinity = p.affinity }

  -- The new proxy, the responses of the authentication, and what the rest of the handler does, nothing if
  -- the request is refused.
  abbrev Invited : Type 0
  Invited = Proxy net × List Effect × Trace

  -- The rest of the handler.
  proceed :
      Proxy net
      → List Effect
      → ℕ
      → Dict CallState
      → Dict Request
      → Request
      → Address
      → Address
      → Text
      → Bool
      → List Event
      → Invited
  proceed p effects chance calls active req from to id connected events =
      let (d, trace) =
        invite_to_fs sip cfg ports p.sip_user_root_domain chance p.dispatcher
          (tables_of p calls active) req from to id connected events in
      (record p { dispatcher = d; affinity = trace.0.affinity }, effects, trace)

  -- On the result of authenticateExternalRequest.
  pub if_authenticated :
      Proxy net × List Effect × Bool
      → ℕ
      → Dict CallState
      → Dict Request
      → Request
      → Address
      → Address
      → Text
      → Bool
      → List Event
      → Invited
  unfolding proceed
  if_authenticated (p, effects, authenticated) chance calls active req from to id connected events =
      if authenticated
      then proceed p effects chance calls active req from to id connected events
      else (p, effects, (tables_of p calls active, [], ended false))

  -- handleInviteToFS, on what From(), To() and CallID() return. The replies are what the server would
  -- answer.
  pub handle_invite_to_fs :
      Proxy net
      → ℕ
      → Reply Text
      → Reply TrunkData
      → Text
      → ℕ
      → Dict CallState
      → Dict Request
      → Request
      → Address
      → Address
      → Text
      → Text
      → Bool
      → List Event
      → Invited
  handle_invite_to_fs p now cred_reply trunk_reply nonce chance calls active req from to id source
        connected events =
      if_authenticated
        (authenticate_external net sip md5_hex p now cred_reply trunk_reply nonce req from to id
          source)
        chance calls active req from to id connected events
