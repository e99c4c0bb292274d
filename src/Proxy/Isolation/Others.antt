-- ===== src/Proxy/Isolation/Others.antt =====
-- sbc/proxy.go: a call while the handlers of other calls run. Each handler is taken with the events that it
-- has had so far, one handler after another; those of different calls write different entries.
use comcent_ce.Common.{ℕ, ◌≡◌, ◌≢◌, ◌∙◌, refl, Bool, List, Option, Text, Dict, lookup}
use comcent_ce.Sip.{Sipgo, Address, Request, Response}
use comcent_ce.Forward.{Ports}
use comcent_ce.Forward.Route.{RouteConfig}
use comcent_ce.Dispatcher.{Dispatcher}
use comcent_ce.Api.{IpNet, Api, Reply, TrunkData}
use comcent_ce.Proxy.Calls.{Calls, Event, invite_to_fs, handle_ack}
use comcent_ce.Proxy.Calls.Frame.{handle_ack-same, invite_to_fs-Apart}
use comcent_ce.Proxy.Cancel.{cancel_outgoing}
use comcent_ce.Proxy.Dialog.{relay_in_dialog}
use comcent_ce.Proxy.Dialog.Frame.{relay_in_dialog-same, relay_in_dialog-Apart}
use comcent_ce.Proxy.Fork.{Result, Shared, invite_to_user}
use comcent_ce.Proxy.Fork.Frame.{invite_to_user-Apart}
use comcent_ce.Proxy.Trunk.{Outbound, invite_to_trunk}
use comcent_ce.Proxy.Trunk.Frame.{invite_to_trunk-Apart}
use comcent_ce.Proxy.Isolation.{Apart}

module _ (net : IpNet) (sip : Sipgo) (digest : Request → Response → Text → Text → Option Response)
    (lookup_host : Text → List Text) (cfg : RouteConfig) (ports : Ports) where
  -- What a handler makes of the tables, for a message of the call.
  pub data Handled : Text → Calls → Calls → Type 0 where
    invites_fs :
        (s : Calls) {id : Text} (root : Text) (chance : ℕ) (d : Dispatcher) (req : Request)
        (from to : Address) (connected : Bool) (events : List Event)
        → Handled id s
            (invite_to_fs sip cfg ports root chance d s req from to id connected events).1.0
    invites_user :
        (s : Shared) {id : Text} (now : ℕ) (req : Request) (user domain : Text)
        (results : List Result)
        → Handled id s.table (invite_to_user sip cfg ports now req id user domain results s).0.table
    invites_trunk :
        (s : Outbound) {id : Text} (api : Api net) (now : ℕ) (reply : Reply TrunkData)
        (req : Request) (user : Text) (connected : Bool) (events : List Event)
        → Handled id s.table
            (invite_to_trunk net sip digest lookup_host cfg ports api now reply req id user
              connected events s).1.0.table
    relays_in_dialog :
        (s : Calls) {id : Text} (req : Request) (spoof_cache : Dict Text) (from_fs : Bool)
        (authorized : Bool × List Response) (answer : Option Response)
        → Handled id s
            (relay_in_dialog sip req cfg s spoof_cache from_fs authorized id answer).table

  -- Handlers of calls other than `id`, one after another.
  pub data Meanwhile : Text → Calls → Calls → Type 0 where
    quiet : {id : Text} {s : Calls} → Meanwhile id s s
    another :
        {id other : Text} {s t u : Calls}
        → Meanwhile id s t
        → other ≢ id
        → Handled other t u
        → Meanwhile id s u

  Handled-Apart : {id : Text} {s t : Calls} → Handled id s t → Apart id s t
  Handled-Apart {id} (invites_fs s root chance d req from to connected events) =
      invite_to_fs-Apart sip cfg ports root chance d s req from to id connected events
  Handled-Apart {id} (invites_user s now req user domain results) =
      invite_to_user-Apart sip cfg ports now req id user domain results s
  Handled-Apart {id} (invites_trunk s api now reply req user connected events) =
      invite_to_trunk-Apart net sip digest lookup_host cfg ports api now reply req id user connected
        events s
  Handled-Apart {id} (relays_in_dialog s req spoof_cache from_fs authorized answer) =
      relay_in_dialog-Apart sip req cfg s spoof_cache from_fs authorized id answer

  Meanwhile-same :
      {id : Text} {s t : Calls}
      → Meanwhile id s t
      → (lookup id t.calls ≡ lookup id s.calls) × (lookup id t.active ≡ lookup id s.active)
  Meanwhile-same quiet = (refl, refl)
  Meanwhile-same {id} (another m n h) =
      let (a, b) = Meanwhile-same m in let (c, d) = Handled-Apart h id n in (c ∙ a, d ∙ b)

-- Whatever the handlers of other calls do meanwhile, an ACK, a CANCEL and a request in the dialog of a call
-- are sent on as they would have been before: the same request, and the same responses.
pub Meanwhile-undisturbed :
    (net : IpNet) (sip : Sipgo) (digest : Request → Response → Text → Text → Option Response)
    (lookup_host : Text → List Text) (cfg : RouteConfig) (ports : Ports) (id : Text) (s t : Calls)
    (req : Request) (from_fs : Bool) (spoof_cache : Dict Text) (authorized : Bool × List Response)
    (answer : Option Response)
    → Meanwhile net sip digest lookup_host cfg ports id s t
    → let before = relay_in_dialog sip req cfg s spoof_cache from_fs authorized id answer in
      let after = relay_in_dialog sip req cfg t spoof_cache from_fs authorized id answer in
      (handle_ack sip cfg t from_fs id req ≡ handle_ack sip cfg s from_fs id req)
      × (cancel_outgoing t id ≡ cancel_outgoing s id)
      × (after.forwarded ≡ before.forwarded)
      × (after.responses ≡ before.responses)
unfolding cancel_outgoing
Meanwhile-undisturbed net sip digest lookup_host cfg ports id s t req from_fs spoof_cache authorized
      answer m =
    let (calls, active) = Meanwhile-same net sip digest lookup_host cfg ports m in
    let (forwarded, responses) =
      relay_in_dialog-same sip req cfg s t spoof_cache from_fs authorized id answer calls in
    (
      handle_ack-same sip cfg s t from_fs id req calls,
      rw (cancel_outgoing, active) refl,
      forwarded,
      responses,
    )
