-- ===== src/Proxy.antt =====
-- sbc/proxy.go, with the proxy's part of sbc/ip_ban.go: the proxy's state and its guards. A handler
-- takes the proxy, the time of its calls of time.Now(), and what the server would answer; it returns
-- the new proxy and, in order, the responses that it sends and the presence updates that it starts.
mod Tests
pub mod Protected
pub mod Access
pub mod Register
pub mod Affinity
pub mod Calls
pub mod Dialog
pub mod Cancel
pub mod Fork
pub mod Trunk
pub mod Isolation
pub mod Incoming
pub mod Keepalive
use comcent_ce.Common.{
  ℕ, Bool, true, false, not, ◌&&◌, ◌||◌, List, [], ◌∷◌, ◌++◌, Option, none, some, Text, text,
  text_eq, Dict, lookup, ◌==◌, any, if◌then◌else◌,
}
use comcent_ce.Common.Int.{ℤ, pos, negsuc}
use comcent_ce.Go.Strings.{has_suffix, equal_fold}
use comcent_ce.Go.Strconv.{itoa_ℤ}
use comcent_ce.Go.Net.{split_host_port}
use comcent_ce.Sip.{
  Sipgo, Uri, Address, Request, Response, get_header, from_address, to_address, call_id, invite,
}
use comcent_ce.Registrar.{Registrar, has_source_ip}
use comcent_ce.IpBan.{IpBan, fail, banned}
use comcent_ce.IpBan.Rejected.{RejectedCalls, add_rejected}
use comcent_ce.Dispatcher.{Dispatcher, is_from_fs}
use comcent_ce.Api.{
  IpNet, Reply, Outcome, found, not_found, failed, Api, TrunkData, get_user_password, get_sip_trunk,
  is_trunk_ip,
}
use comcent_ce.Api.Trunks.{is_ip_allowed}
use comcent_ce.Auth.{validate_digest_auth, auth_challenge}
use comcent_ce.Contact.Targets.{spoof_cache_key}

-- The settings that the handlers here read.
pub record Settings : Type 0 where
  pub sip_user_root_domain : Text
  pub nat_max_expires : ℤ

pub data Effect : Type 0 where
  respond : Response → Effect
  -- UpdateUserPresence(subdomain, status, user)
  update_presence : Text → Text → Text → Effect

unfoldable pub source_ip : Request → Text
source_ip req = elim (split_host_port req.source) [ none ↦ req.source | some (host, port) ↦ host ]

-- behindNAT, in sbc/nat_keepalive.go
unfoldable pub behind_nat : Sipgo → Text → Text → Bool
behind_nat sip contact_uri source = elim (sip.parse_uri contact_uri) [
  | none ↦ true
  | some uri ↦ elim (split_host_port source) [
    | none ↦ true
    | some (host, port) ↦
        let contact_port : ℤ = elim uri.port [
          | pos n ↦ if n == 0 then pos 5060 else pos n
          | negsuc n ↦ negsuc n
        ] in
        not (text_eq uri.host host) || not (text_eq (itoa_ℤ contact_port) port)
  ]
]

module _ (net : IpNet) where
  pub record Proxy : Type 0 where
    pub settings : Settings
    pub open settings use *
    pub reg : Registrar
    pub api : Api net
    pub dispatcher : Dispatcher
    pub ban : Option IpBan
    pub rejected : RejectedCalls
    pub spoof_cache : Dict Text
    pub affinity : Dict (Dict Text)

  abbrev special : net.Ip → Bool
  special ip =
      net.is_private ip
      || net.is_loopback ip
      || net.is_link_local_unicast ip
      || net.is_unspecified ip

  pub never_ban : Proxy → ℕ → Text → Bool
  never_ban p now ip = elim (net.parse_ip ip) [
    | none ↦ true
    | some parsed ↦
        special parsed
        || (is_from_fs p.dispatcher ip || is_trunk_ip net p.api ip || has_source_ip p.reg now ip)
  ]

  -- Proxy.failed
  pub count_failed : Proxy → ℕ → Request → Proxy
  unfolding never_ban
  count_failed p now req = record p {
    ban = fail p.ban now (never_ban p now (source_ip req)) (source_ip req);
  }

  -- A lookup error that wraps errNotFound, or none, counts.
  abbrev pub counts : Outcome Text → Bool
  counts (found password) = true
  counts not_found = true
  counts failed = false

  pub failed_auth : Sipgo → Proxy → ℕ → Request → Outcome Text → Proxy
  unfolding count_failed
  failed_auth sip p now req error = elim (get_header sip (text "Authorization") req.headers) [
    | none ↦ p
    | some credentials ↦ if counts error then count_failed p now req else p
  ]

  pub reject_call : Proxy → ℕ → Request → Proxy
  reject_call p now req = record p {
    rejected = add_rejected p.rejected now (text_eq req.method invite) (call_id req.headers);
  }
