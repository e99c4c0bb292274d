-- ===== src/Proxy/Cancel/Propagated.antt =====
-- sbc/proxy.go: what a CANCEL does while handleInviteToFS runs, and behind it.
use comcent_ce.Common.{ℕ, ◌≡◌, refl, Bool, List, [], Option, none, some, Text, lookup}
use comcent_ce.Sip.{Sipgo, Address, Request, cancel}
use comcent_ce.Contact.Targets.{strip_sip_prefix}
use comcent_ce.Forward.{Ports}
use comcent_ce.Forward.Route.{RouteConfig}
use comcent_ce.Dispatcher.{Dispatcher}
use comcent_ce.Proxy.Affinity.{comcent_users, select_target_for_users}
use comcent_ce.Proxy.Calls.{Calls, Event, waiting, ended, Trace, invite_to_fs}
use comcent_ce.Proxy.Calls.Active.{Tracks, invite_to_fs-Tracks}
use comcent_ce.Proxy.Cancel.{cancel_request, cancel_outgoing}

-- While the handler waits, a CANCEL goes to the chosen target; behind it, none goes anywhere.
abbrev pub Cancels : Text → Option Text → Trace → Type 0
Cancels id chosen (s, sent, waiting) =
    (target : Text) × (chosen ≡ some target)
    × (c : Request) × (cancel_outgoing s id ≡ some c)
    × (c.method ≡ cancel)
    × (c.destination ≡ strip_sip_prefix target)
Cancels id chosen (s, sent, ended established) = cancel_outgoing s id ≡ none

Tracks-Cancels :
    (id : Text) (chosen : Option Text) (t : Trace) → Tracks id chosen t → Cancels id chosen t
unfolding cancel_outgoing cancel_request
Tracks-Cancels id chosen (s, sent, waiting) (target, same, fwd, e, d) =
    (target, same, cancel_request fwd [], rw (e, cancel_outgoing) refl, refl, d)
Tracks-Cancels id chosen (s, sent, ended established) e = rw (e, cancel_outgoing) refl

-- As long as the handler of a caller's INVITE waits, cancelling the call sends a CANCEL to the FreeSWITCH
-- that was chosen; once it has returned, cancelling sends nothing. That is, if the call has no transaction
-- before.
pub invite_to_fs-Cancels :
    (sip : Sipgo) (cfg : RouteConfig) (ports : Ports) (root : Text) (chance : ℕ) (d : Dispatcher)
    (s : Calls) (req : Request) (from to : Address) (id : Text) (connected : Bool)
    (events : List Event)
    → lookup id s.active ≡ none
    → Cancels id
        (select_target_for_users chance s.affinity d (comcent_users root from.uri to.uri)).1
        (invite_to_fs sip cfg ports root chance d s req from to id connected events).1
invite_to_fs-Cancels sip cfg ports root chance d s req from to id connected events e =
    Tracks-Cancels id
      (select_target_for_users chance s.affinity d (comcent_users root from.uri to.uri)).1
      (invite_to_fs sip cfg ports root chance d s req from to id connected events).1
      (invite_to_fs-Tracks sip cfg ports root chance d s req from to id connected events e)
