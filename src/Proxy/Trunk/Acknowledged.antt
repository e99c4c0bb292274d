-- ===== src/Proxy/Trunk/Acknowledged.antt =====
-- sbc/proxy.go: the ACK and the CANCEL of FreeSWITCH for a call to a trunk.
use comcent_ce.Common.{
  ℕ, ◌≡◌, ◌⊎◌, refl, sym, ◌∙◌, inl, inr, Bool, true, false, List, [], ◌∷◌, Option, none, some, Text,
  text, lookup, In, All, All-In, All-map, Option-cases,
}
use mathlib.Core.Path.{subst}
use mathlib.Core.Bool.{true≢false}
use comcent_ce.Sip.{Sipgo, Request, Response, get_header, from_address, cseq_number}
use comcent_ce.Contact.Targets.{resolve_host}
use comcent_ce.Forward.{build_forward, Ports, too_many_hops}
use comcent_ce.Forward.Route.{RouteConfig}
use comcent_ce.Api.{IpNet, Api, Reply, Outcome, found, not_found, failed, TrunkData, get_sip_trunk}
use comcent_ce.Proxy.Calls.{Calls, Event, is_success}
use comcent_ce.Proxy.Calls.Recorded.{KeepsStatus}
use comcent_ce.Proxy.Cancel.{cancel_outgoing}
use comcent_ce.Proxy.Fork.{plain}
use comcent_ce.Proxy.Trunk.{
  Outbound, Action, replies, authenticates, Trace, Route, trunk_route, spoofed_user_of, remember,
  forward_to_trunk, outgoing, invite_route, on_trunk, invite_to_trunk,
}
use comcent_ce.Proxy.Trunk.Recorded.{
  CountsUp, IsRetried, IsAcknowledged, IsSound, forward-AllSound, acknowledged,
}

-- The ACK of FreeSWITCH, with the number of its INVITE.
abbrev pub IsAckOf : Request → Request → ℕ → Type 0
IsAckOf req a f =
    (cseq_number req.headers ≡ some f)
    × (cseq_number a.headers ≡ some f)
    × (too_many_hops a ≡ false)

module _ (sip : Sipgo) (keeps : KeepsStatus sip) (cfg : RouteConfig) (req : Request) (id : Text)
    (digest : Request → Response → Text → Text → Option Response) (events : List Event)
    (Holds : Text → Text → Text → Action → Type 0)
    (of_plain : (dest name pass : Text) (t : Calls) (n : ℕ) (reason : Text)
      → is_success n ≡ false
      → Holds dest name pass (replies t (plain sip req n reason)))
    (of_sound : (number spoofed : Text) (route : Route) (fwd : Request) (act : Action)
      → IsSound sip req id number spoofed route digest fwd events act
      → Holds route.dest route.outbound_user route.outbound_pass act) where
  -- The address of the trunk, and its user and password.
  abbrev AllHold : Text → Text → Text → Trace → Type 0
  AllHold dest name pass t = All (Holds dest name pass) t.1

  module _ (number spoofed : Text) (route : Route) where
    forward-AllHold :
        (fwd : Request) (connected : Bool) (s : Outbound)
        → AllHold route.dest route.outbound_user route.outbound_pass
            (forward_to_trunk sip req id number spoofed route digest fwd connected events s)
    forward-AllHold fwd connected s =
        All-map _ _ _ (of_sound number spoofed route fwd)
          (forward-AllSound sip req id number spoofed route digest fwd events keeps connected s)

    route-AllHold :
        (ports : Ports) (connected : Bool) (s : Outbound)
        → AllHold route.dest route.outbound_user route.outbound_pass
            (invite_route sip req id number spoofed route digest cfg ports connected events s)
    unfolding invite_route
    route-AllHold ports connected s = elim (Option-cases (build_forward sip cfg req route.uri [])) [
      | inl e ↦
          rw (e, invite_route)
            (
              of_plain route.dest route.outbound_user route.outbound_pass s.table 100
                  (text "Trying") refl,
              (
                of_plain route.dest route.outbound_user route.outbound_pass s.table 483
                    (text "Too Many Hops") refl,
                tt,
              ),
            )
      | inr (fwd, e) ↦
          rw (e, invite_route)
            (
              of_plain route.dest route.outbound_user route.outbound_pass s.table 100
                  (text "Trying") refl,
              forward-AllHold (outgoing sip req id number spoofed route ports fwd) connected
                  (remember sip req id number spoofed route s),
            )
    ]

  module _ (net : IpNet) (lookup_host : Text → List Text) (ports : Ports) (user number : Text)
      (connected : Bool) (s : Outbound) where
    abbrev on_outcome : Outcome TrunkData → Trace
    on_outcome = on_trunk net sip digest lookup_host cfg ports req id user number connected events s

    trunk-AllHold :
        (trunk : TrunkData)
        → AllHold
            (resolve_host lookup_host trunk.outbound_contact)
            trunk.outbound_user
            trunk.outbound_pass
            (on_outcome (found trunk))
    unfolding on_trunk trunk_route
    trunk-AllHold trunk =
        route-AllHold number (spoofed_user_of (from_address req.headers) number)
          (trunk_route lookup_host trunk user) ports connected s

    -- Of an action for every destination.
    outcome-AllHold :
        (act : Action) (P : Type 0)
        → ((dest name pass : Text) → Holds dest name pass act → P)
        → (outcome : Outcome TrunkData) → In act (on_outcome outcome).1
        → P
    unfolding on_trunk
    outcome-AllHold act P f (found trunk) m =
        f _ _ _ (All-In _ act (on_outcome (found trunk)).1 (trunk-AllHold trunk) m)
    outcome-AllHold act P f not_found m = f [] [] [] (
        All-In (Holds [] [] []) act (on_outcome not_found).1
          (of_plain [] [] [] s.table 500 (text "Server Error") refl, tt) m)
    outcome-AllHold act P f failed m = f [] [] [] (
        All-In (Holds [] [] []) act (on_outcome failed).1
          (of_plain [] [] [] s.table 500 (text "Server Error") refl, tt) m)

module _ (sip : Sipgo) (keeps : KeepsStatus sip) (cfg : RouteConfig) (req a : Request) (id : Text)
    (f : ℕ) (digest : Request → Response → Text → Text → Option Response)
    (events : List Event) where
  -- A 2xx that is sent is acknowledged.
  abbrev IsAnswerable : Text → Text → Text → Action → Type 0
  IsAnswerable dest name pass (replies t r) =
      (is_success r.status ≡ false)
      ⊎ IsAcknowledged sip cfg req id t r a f dest events (IsRetried digest name pass events)
  IsAnswerable dest name pass (authenticates t challenge) = Unit {0}

  plain-IsAnswerable :
      (dest name pass : Text) (t : Calls) (n : ℕ) (reason : Text)
      → is_success n ≡ false
      → IsAnswerable dest name pass (replies t (plain sip req n reason))
  plain-IsAnswerable dest name pass t n reason e = inl (rw (keeps req n reason []) e)

  sound-IsAnswerable :
      CountsUp digest f
      → IsAckOf req a f
      → (number spoofed : Text) (route : Route) (fwd : Request) (act : Action)
      → IsSound sip req id number spoofed route digest fwd events act
      → IsAnswerable route.dest route.outbound_user route.outbound_pass act
  sound-IsAnswerable up is_ack number spoofed route fwd (replies t r) (inl e) = inl e
  sound-IsAnswerable up is_ack number spoofed route fwd (replies t r) (inr known) = inr (
      acknowledged sip req id number spoofed route digest fwd events cfg t r a f known up is_ack.0
        is_ack.1 is_ack.2)
  sound-IsAnswerable up is_ack number spoofed route fwd (authenticates t challenge) e = tt

  -- A retry finds no transaction.
  abbrev IsUnknown : Text → Text → Text → Action → Type 0
  IsUnknown dest name pass (replies t r) = Unit {0}
  IsUnknown dest name pass (authenticates t challenge) = lookup id t.active ≡ none

  sound-IsUnknown :
      (number spoofed : Text) (route : Route) (fwd : Request) (act : Action)
      → IsSound sip req id number spoofed route digest fwd events act
      → IsUnknown route.dest route.outbound_user route.outbound_pass act
  sound-IsUnknown number spoofed route fwd (replies t r) h = tt
  sound-IsUnknown number spoofed route fwd (authenticates t challenge) e = e

-- Whenever a 2xx to FreeSWITCH's INVITE to a trunk is sent, it relays an answer of the trunk, and an ACK of
-- FreeSWITCH that arrives at that moment with the INVITE's number is sent on to the trunk's address; with
-- the same number, where the trunk gave that answer to the INVITE as it was sent on, and with the number
-- of the answer, where that is what DoDigestAuth returned for a 401 or 407 of the trunk with the trunk's
-- user and password. That is, if the trunk is found, the ACK's
-- hop limit is not used up, the answer to a retry is numbered from the INVITE's number on in a uint32, and
-- sipgo gives a response the status that it is built with.
pub invite_to_trunk-IsAcknowledged :
    (net : IpNet) (sip : Sipgo) (digest : Request → Response → Text → Text → Option Response)
    (lookup_host : Text → List Text) (cfg : RouteConfig) (ports : Ports) (api : Api net) (now : ℕ)
    (reply : Reply TrunkData) (req a : Request) (id user number : Text) (connected : Bool)
    (events : List Event) (s : Outbound) (trunk : TrunkData) (f : ℕ) (t : Calls) (r : Response)
    → KeepsStatus sip
    → CountsUp digest f
    → IsAckOf req a f
    → get_header sip (text "X-Trunk-Number") req.headers ≡ some number
    → (get_sip_trunk net api now number reply).1 ≡ found trunk
    → In
        (replies t r)
        (invite_to_trunk net sip digest lookup_host cfg ports api now reply req id user connected
          events s).1.1
    → is_success r.status ≡ true
    → IsAcknowledged sip cfg req id t r a f
        (resolve_host lookup_host trunk.outbound_contact)
        events
        (IsRetried digest trunk.outbound_user trunk.outbound_pass events)
unfolding invite_to_trunk
invite_to_trunk-IsAcknowledged net sip digest lookup_host cfg ports api now reply req a id user
      number connected events s trunk f t r keeps up is_ack e g m success =
    let acts =
      (on_trunk net sip digest lookup_host cfg ports req id user number connected events s
        (found trunk)).1 in
    let found_in : In (replies t r) acts =
      subst
        (λ (o : Outcome TrunkData).
          In (replies t r)
            (on_trunk net sip digest lookup_host cfg ports req id user number connected events s
              o).1)
        g (rw (e, invite_to_trunk) at m) in
    elim (All-In _ (replies t r) acts
      (trunk-AllHold sip keeps cfg req id digest events
        (IsAnswerable sip keeps cfg req a id f digest events)
        (plain-IsAnswerable sip keeps cfg req a id f digest events)
        (sound-IsAnswerable sip keeps cfg req a id f digest events up is_ack) net lookup_host ports
        user number connected s trunk)
      found_in) [ inl fails ↦ absurd (true≢false (sym success ∙ fails)) | inr done ↦ done ]

not_reply :
    (t u : Calls) (challenge r : Response) → ¬ In (authenticates t challenge) (replies u r ∷ [])
not_reply t u challenge r (inl e) = cc
not_reply t u challenge r (inr m) = m

nothing_to_cancel :
    (t : Calls) (id : Text) → lookup id t.active ≡ none → cancel_outgoing t id ≡ none
unfolding cancel_outgoing
nothing_to_cancel t id e = rw (e, cancel_outgoing) refl

-- While the retry of FreeSWITCH's INVITE with credentials is under way, a CANCEL of FreeSWITCH has nothing
-- to cancel and none is sent to the trunk; if sipgo gives a response the status that it is built with.
pub invite_to_trunk-uncancelled :
    (net : IpNet) (sip : Sipgo) (digest : Request → Response → Text → Text → Option Response)
    (lookup_host : Text → List Text) (cfg : RouteConfig) (ports : Ports) (api : Api net) (now : ℕ)
    (reply : Reply TrunkData) (req : Request) (id user : Text) (connected : Bool)
    (events : List Event) (s : Outbound) (t : Calls) (challenge : Response)
    → KeepsStatus sip
    → In
        (authenticates t challenge)
        (invite_to_trunk net sip digest lookup_host cfg ports api now reply req id user connected
          events s).1.1
    → cancel_outgoing t id ≡ none
unfolding invite_to_trunk
invite_to_trunk-uncancelled net sip digest lookup_host cfg ports api now reply req id user connected
      events s t challenge keeps m =
    elim (Option-cases (get_header sip (text "X-Trunk-Number") req.headers)) [
      | inl e ↦ absurd (not_reply t s.table challenge _ (rw (e, invite_to_trunk) at m))
      | inr (number, e) ↦
          outcome-AllHold sip keeps cfg req id digest events
            (IsUnknown sip keeps cfg req req id 0 digest events) (λ dest name pass u n reason h. tt)
            (sound-IsUnknown sip keeps cfg req req id 0 digest events) net lookup_host ports user
            number connected s (authenticates t challenge) (cancel_outgoing t id ≡ none)
            (λ dest name pass h. nothing_to_cancel t id h)
            (get_sip_trunk net api now number reply).1 (rw (e, invite_to_trunk) at m)
    ]
