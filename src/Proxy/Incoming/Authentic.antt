-- ===== src/Proxy/Incoming/Authentic.antt =====
-- sbc/proxy.go: what an INVITE from outside can change.
use comcent_ce.Common.{
  ℕ, ◌≡◌, ◌≢◌, ◌⊎◌, inl, inr, refl, Bool, true, false, List, ◌∷◌, ◌++◌, Text, Dict, if◌then◌else◌,
}
use comcent_ce.Go.Strings.{has_suffix}
use comcent_ce.Sip.{Sipgo, Address, Request}
use comcent_ce.Forward.{Ports}
use comcent_ce.Forward.Route.{RouteConfig}
use comcent_ce.Api.{IpNet, Reply, TrunkData, get_user_password, get_sip_trunk}
use comcent_ce.Proxy.{Proxy, Effect}
use comcent_ce.Proxy.Access.{trunk_number, authenticate_external}
use comcent_ce.Proxy.Access.Kept.{affinity-authenticate_external}
use comcent_ce.Proxy.Access.Decided.{FitsPassword, FitsTrunk, authenticate_external_iff}
use comcent_ce.Proxy.Calls.{CallState, Event, Trace}
use comcent_ce.Proxy.Incoming.{if_authenticated, handle_invite_to_fs}

-- The tables or the proxy's affinity are not those from before.
abbrev Changes :
    (net : IpNet)
    → Proxy net
    → Dict CallState
    → Dict Request
    → Proxy net × List Effect × Trace
    → Type 0
Changes net p calls active (q, effects, trace) =
    (trace.0.calls ≢ calls)
    ⊎ (trace.0.active ≢ active)
    ⊎ (trace.0.affinity ≢ p.affinity)
    ⊎ (q.affinity ≢ p.affinity)

authenticated-Changes :
    (net : IpNet) (sip : Sipgo) (md5_hex : Text → Text) (cfg : RouteConfig) (ports : Ports)
    (p : Proxy net) (checked : Proxy net × List Effect × Bool) (chance : ℕ) (calls : Dict CallState)
    (active : Dict Request) (req : Request) (from to : Address) (id : Text) (connected : Bool)
    (events : List Event)
    → checked.0.affinity ≡ p.affinity
    → Changes net p calls active (
        if_authenticated net sip md5_hex cfg ports checked chance calls active req from to id
          connected events)
    → checked.2 ≡ true
unfolding if_authenticated
authenticated-Changes net sip md5_hex cfg ports p (q, effects, true) chance calls active req from to
      id connected events e n =
    refl
authenticated-Changes net sip md5_hex cfg ports p (q, effects, false) chance calls active req from
      to id connected events e n =
    elim n [
      | inl a ↦ absurd (a refl)
      | inr (inl a) ↦ absurd (a refl)
      | inr (inr (inl a)) ↦ absurd (a e)
      | inr (inr (inr a)) ↦ absurd (a e)
    ]

-- An INVITE from outside changes the call table, the transactions or the proxy's affinity only if its
-- credentials fit the password of the user in From, where that is a user of the controller's domain, and
-- otherwise only if the trunk of the called number may be called from the source.
pub handle_invite_to_fs-authentic :
    (net : IpNet) (sip : Sipgo) (md5_hex : Text → Text) (cfg : RouteConfig) (ports : Ports)
    (p : Proxy net) (now : ℕ) (cred_reply : Reply Text) (trunk_reply : Reply TrunkData)
    (nonce : Text) (chance : ℕ) (calls : Dict CallState) (active : Dict Request) (req : Request)
    (from to : Address) (id source : Text) (connected : Bool) (events : List Event)
    → Changes net p calls active (
        handle_invite_to_fs net sip md5_hex cfg ports p now cred_reply trunk_reply nonce chance
          calls active req from to id source connected events)
    → (if has_suffix from.uri.host p.sip_user_root_domain
        then FitsPassword net sip md5_hex req
            (get_user_password net p.api now (from.uri.user ++ (b'@' ∷ from.uri.host)) cred_reply).1
        else FitsTrunk net sip md5_hex source
            (get_sip_trunk net p.api now (trunk_number net p id to.uri.user) trunk_reply).1)
unfolding handle_invite_to_fs
handle_invite_to_fs-authentic net sip md5_hex cfg ports p now cred_reply trunk_reply nonce chance
      calls active req from to id source connected events n =
    (authenticate_external_iff net sip md5_hex p now cred_reply trunk_reply nonce req from to id
        source).0
      (authenticated-Changes net sip md5_hex cfg ports p
        (authenticate_external net sip md5_hex p now cred_reply trunk_reply nonce req from to id
          source)
        chance calls active req from to id connected events
        (affinity-authenticate_external net sip md5_hex p now cred_reply trunk_reply nonce req from
          to id source)
        n)
