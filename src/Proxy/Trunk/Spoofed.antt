-- ===== src/Proxy/Trunk/Spoofed.antt =====
-- sbc/proxy.go: the spoof cache behind FreeSWITCH's INVITE to a trunk.
use comcent_ce.Common.{
  ℕ, ◌≡◌, refl, ap, ◌∙◌, inl, inr, Bool, true, false, not, ◌&&◌, List, [], ◌∷◌, Option, none, some,
  arith, Text, text, text_eq, text_eq_iff, Dict, lookup, lookup-store, lookup-delete, leb, ◌==◌,
  if◌then◌else◌, Bool-cases, Option-cases,
}
use comcent_ce.Sip.{Sipgo, Address, Request, Response, get_header, from_address}
use comcent_ce.Contact.Targets.{spoof_cache_key}
use comcent_ce.Forward.{build_forward, Ports}
use comcent_ce.Forward.Route.{RouteConfig}
use comcent_ce.Api.{IpNet, Api, Reply, Outcome, found, not_found, failed, TrunkData, get_sip_trunk}
use comcent_ce.Proxy.{Proxy}
use comcent_ce.Proxy.Access.{trunk_number}
use comcent_ce.Proxy.Calls.{Event, responds, closed, done, waiting, ended}
use comcent_ce.Proxy.Trunk.{
  Outbound, Trace, Route, trunk_route, differing, spoofed_user_of, is_challenge, record_call,
  drop_transaction, on_digest, on_challenge, relay, forget_unless, leave, remember,
  forward_to_trunk, outgoing, invite_route, on_trunk, invite_to_trunk,
}

abbrev is_key : Text → Text → Text → Bool
is_key id spoofed k = not (text_eq spoofed []) && text_eq (spoof_cache_key id spoofed) k

-- The entry of the call for a user that is not empty.
abbrev pub cached : Text → Text → Dict Text → Option Text
cached id spoofed cache =
    if text_eq spoofed [] then none else lookup (spoof_cache_key id spoofed) cache

-- The handler waits; or it has returned with the call, and its key leads to the number; or without the
-- call, and the cache is as it was at every key.
abbrev SpoofKept : Text → Text → Text → Text → Dict Text → Trace → Type 0
SpoofKept id number spoofed k before (s, acts, waiting) = Unit {0}
SpoofKept id number spoofed k before (s, acts, ended true) =
    lookup k s.spoof_cache ≡ (if is_key id spoofed k then some number else lookup k before)
SpoofKept id number spoofed k before (s, acts, ended false) =
    lookup k s.spoof_cache ≡ lookup k before

module _ (sip : Sipgo) (req : Request) (id number spoofed k : Text) (route : Route) where
  cache-record_call :
      (offset : ℕ) (resp : Response) (s : Outbound)
      → (record_call sip req id number spoofed route offset resp s).spoof_cache ≡ s.spoof_cache
  unfolding record_call
  cache-record_call offset resp s = ground arith

  cache-on_digest :
      (answer : Option Response) (s : Outbound)
      → (on_digest sip req id number spoofed route answer s).0.spoof_cache ≡ s.spoof_cache
  unfolding on_digest
  cache-on_digest none s = refl
  cache-on_digest (some resp) s = cache-record_call _ resp s

  module _ (digest : Request → Response → Text → Text → Option Response) (fwd : Request) where
    cache-on_challenge :
        (resp : Response) (s : Outbound)
        → (on_challenge sip req id number spoofed route digest fwd resp s).0.spoof_cache
          ≡ s.spoof_cache
    unfolding on_challenge
    cache-on_challenge resp s =
        cache-on_digest (digest fwd resp route.outbound_user route.outbound_pass)
          (drop_transaction sip req id number spoofed route s)

    cache-relay :
        (events : List Event) (s : Outbound)
        → (relay sip req id number spoofed route digest fwd events s).0.spoof_cache ≡ s.spoof_cache
    unfolding relay
    cache-relay [] s = refl
    cache-relay (closed ∷ events) s = refl
    cache-relay (done has_error ∷ events) s = refl
    cache-relay (responds resp ∷ events) s = elim (Bool-cases (resp.status == 100)) [
      | inl e ↦ rw e (cache-relay events s)
      | inr e ↦ elim (Bool-cases (is_challenge resp.status)) [
        | inl f ↦ rw (e, f) (cache-on_challenge resp s)
        | inr f ↦ elim (Bool-cases (leb 200 resp.status)) [
          | inl g ↦ rw (e, f, g) (cache-record_call 0 resp s)
          | inr g ↦
              rw (e, f, g)
                (cache-relay events (record_call sip req id number spoofed route 0 resp s)
                  ∙ cache-record_call 0 resp s)
        ]
      ]
    ]

  cache-remember :
      (s : Outbound)
      → lookup k (remember sip req id number spoofed route s).spoof_cache
        ≡ (if is_key id spoofed k then some number else lookup k s.spoof_cache)
  unfolding remember
  cache-remember s =
      ground (arith, lookup-store (spoof_cache_key id spoofed) k number s.spoof_cache)

  forgotten :
      (s : Outbound) (before : Dict Text)
      → cached id spoofed before ≡ none
      → lookup k s.spoof_cache ≡ (if is_key id spoofed k then some number else lookup k before)
      → lookup k (forget_unless sip req id number spoofed route false s).spoof_cache
        ≡ lookup k before
  forgotten s before absent h = ground (
    arith,
    lookup-delete (spoof_cache_key id spoofed) k s.spoof_cache,
    text_eq_iff (spoof_cache_key id spoofed) k,
  )

  leave-SpoofKept :
      (t : Trace) (before : Dict Text)
      → cached id spoofed before ≡ none
      → lookup k t.0.spoof_cache ≡ (if is_key id spoofed k then some number else lookup k before)
      → SpoofKept id number spoofed k before (leave sip req id number spoofed route t)
  unfolding leave
  leave-SpoofKept (s, acts, waiting) before absent h = tt
  leave-SpoofKept (s, acts, ended true) before absent h = h
  leave-SpoofKept (s, acts, ended false) before absent h =
      forgotten (drop_transaction sip req id number spoofed route s) before absent h

  module _ (digest : Request → Response → Text → Text → Option Response) where
    forward-SpoofKept :
        (fwd : Request) (connected : Bool) (events : List Event) (s : Outbound)
        → cached id spoofed s.spoof_cache ≡ none
        → SpoofKept id number spoofed k s.spoof_cache (
            forward_to_trunk sip req id number spoofed route digest fwd connected events
              (remember sip req id number spoofed route s))
    unfolding forward_to_trunk
    forward-SpoofKept fwd false events s absent =
        forgotten (remember sip req id number spoofed route s) s.spoof_cache absent
          (cache-remember s)
    forward-SpoofKept fwd true events s absent =
        leave-SpoofKept _ s.spoof_cache absent
          (ap (lookup k) (cache-relay digest fwd events _) ∙ cache-remember s)

    route-SpoofKept :
        (cfg : RouteConfig) (ports : Ports) (connected : Bool) (events : List Event) (s : Outbound)
        → cached id spoofed s.spoof_cache ≡ none
        → SpoofKept id number spoofed k s.spoof_cache
            (invite_route sip req id number spoofed route digest cfg ports connected events s)
    unfolding invite_route
    route-SpoofKept cfg ports connected events s absent =
        elim (Option-cases (build_forward sip cfg req route.uri [])) [
          | inl e ↦ rw (e, invite_route) refl
          | inr (fwd, e) ↦
              rw (e, invite_route)
                (forward-SpoofKept (outgoing sip req id number spoofed route ports fwd) connected
                  events s absent)
        ]

-- The user of From, which is empty where there is no From.
abbrev from_user : Request → Text
from_user req = elim (from_address req.headers) [ none ↦ [] | some from ↦ from.uri.user ]

abbrev pub spoofed_in : Request → Text → Text
spoofed_in req number = spoofed_user_of (from_address req.headers) number

module _ (net : IpNet) (sip : Sipgo) (digest : Request → Response → Text → Text → Option Response)
    (lookup_host : Text → List Text) (cfg : RouteConfig) (ports : Ports) where
  on_trunk-SpoofKept :
      (req : Request) (id user number k : Text) (connected : Bool) (events : List Event)
      (s : Outbound) (outcome : Outcome TrunkData)
      → cached id (spoofed_in req number) s.spoof_cache ≡ none
      → SpoofKept id number (spoofed_in req number) k s.spoof_cache (
          on_trunk net sip digest lookup_host cfg ports req id user number connected events s
            outcome)
  unfolding on_trunk
  on_trunk-SpoofKept req id user number k connected events s (found trunk) absent =
      route-SpoofKept sip req id number (spoofed_in req number) k
        (trunk_route lookup_host trunk user) digest cfg ports connected events s absent
  on_trunk-SpoofKept req id user number k connected events s not_found absent = refl
  on_trunk-SpoofKept req id user number k connected events s failed absent = refl

-- When the handler of FreeSWITCH's INVITE to a trunk has returned without a call, the spoof cache is as it
-- was at every key; with a call, it has the trunk's number at the call's and the From user's key, where
-- that user is not empty and not the number, and is as it was at every other key. That is, if the call
-- has no entry before.
invite_to_trunk-SpoofKept :
    (net : IpNet) (sip : Sipgo) (digest : Request → Response → Text → Text → Option Response)
    (lookup_host : Text → List Text) (cfg : RouteConfig) (ports : Ports) (api : Api net) (now : ℕ)
    (reply : Reply TrunkData) (req : Request) (id user number k : Text) (connected : Bool)
    (events : List Event) (s : Outbound)
    → get_header sip (text "X-Trunk-Number") req.headers ≡ some number
    → cached id (spoofed_in req number) s.spoof_cache ≡ none
    → SpoofKept id number
        (spoofed_in req number)
        k
        s.spoof_cache
        (invite_to_trunk net sip digest lookup_host cfg ports api now reply req id user connected
          events s).1
unfolding invite_to_trunk
invite_to_trunk-SpoofKept net sip digest lookup_host cfg ports api now reply req id user number k
      connected events s e absent =
    rw (e, invite_to_trunk)
      (on_trunk-SpoofKept net sip digest lookup_host cfg ports req id user number k connected events
        s (get_sip_trunk net api now number reply).1 absent)

-- The user is looked up as the number.
numbered :
    (net : IpNet) (p : Proxy net) (id number user : Text) (before : Dict Text)
    → text_eq user [] ≡ false
    → lookup (spoof_cache_key id user) before ≡ none
    → lookup (spoof_cache_key id user) p.spoof_cache ≡ (
        if is_key id (differing number user) (spoof_cache_key id user)
        then some number
        else lookup (spoof_cache_key id user) before)
    → trunk_number net p id user ≡ number
unfolding trunk_number
numbered net p id number user before e absent h = ground (
  arith,
  text_eq_iff user number,
  text_eq_iff (spoof_cache_key id user) (spoof_cache_key id user),
)

kept_call :
    (id number spoofed k : Text) (before : Dict Text) (t : Trace)
    → SpoofKept id number spoofed k before t
    → t.2 ≡ ended true
    → lookup k t.0.spoof_cache ≡ (if is_key id spoofed k then some number else lookup k before)
kept_call id number spoofed k before (s, acts, waiting) h e = cc
kept_call id number spoofed k before (s, acts, ended true) h e = h
kept_call id number spoofed k before (s, acts, ended false) h e = cc

-- Once FreeSWITCH's INVITE to a trunk has established a call, a request of the trunk that names the user of
-- the INVITE's From is looked up by the trunk's number, as long as the spoof cache is as the handler left
-- it; if that user is not empty and had no entry for the call.
pub invite_to_trunk-trunk_number :
    (net : IpNet) (sip : Sipgo) (digest : Request → Response → Text → Text → Option Response)
    (lookup_host : Text → List Text) (cfg : RouteConfig) (ports : Ports) (api : Api net) (now : ℕ)
    (reply : Reply TrunkData) (req : Request) (from : Address) (id user number : Text)
    (connected : Bool) (events : List Event) (s : Outbound) (p : Proxy net)
    → get_header sip (text "X-Trunk-Number") req.headers ≡ some number
    → from_address req.headers ≡ some from
    → text_eq from.uri.user [] ≡ false
    → lookup (spoof_cache_key id from.uri.user) s.spoof_cache ≡ none
    → (invite_to_trunk net sip digest lookup_host cfg ports api now reply req id user connected
        events s).1.2
      ≡ ended true
    → p.spoof_cache
      ≡ (invite_to_trunk net sip digest lookup_host cfg ports api now reply req id user connected
          events s).1.0.spoof_cache
    → trunk_number net p id from.uri.user ≡ number
unfolding spoofed_user_of
invite_to_trunk-trunk_number net sip digest lookup_host cfg ports api now reply req from id user
      number connected events s p e f g absent status same =
    let key = spoof_cache_key id from.uri.user in
    let t : Trace =
      (invite_to_trunk net sip digest lookup_host cfg ports api now reply req id user connected
        events s).1 in
    let spoofed : spoofed_in req number ≡ differing number from.uri.user = rw f refl in
    let none_yet : cached id (spoofed_in req number) s.spoof_cache ≡ none =
      rw spoofed (ground (arith, text_eq_iff from.uri.user number, (text_eq_iff [] []).1 refl)) in
    numbered net p id number from.uri.user s.spoof_cache g absent (
      ap (lookup key) same
      ∙ kept_call id number (spoofed_in req number) key s.spoof_cache t
          (invite_to_trunk-SpoofKept net sip digest lookup_host cfg ports api now reply req id user
            number key connected events s e none_yet)
          status
      ∙ rw spoofed refl)
