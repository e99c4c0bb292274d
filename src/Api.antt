-- ===== src/Api.antt =====
-- sbc/api.go: the caches in front of the internal API. `reply` is what the server would answer to
-- the query of a call; a method says whether it asked. Go's sync.Map operations are single steps;
-- the calls here do not overlap.
mod Tests
pub mod Credentials
pub mod Trunks
use comcent_ce.Common.{
  ℕ, ◌+◌, ◌*◌, Bool, true, false, ◌||◌, List, [], ◌∷◌, ◌++◌, Option, none, some, Text, text,
  text_eq, Dict, lookup, store, delete, any, ◌==◌, if◌then◌else◌,
}
use comcent_ce.Clock.{before, minute}

-- Package net: addresses and networks, which the controller only compares.
pub record IpNet : Type 1 where
  pub Ip : Type 0
  pub Network : Type 0
  pub parse_ip : Text → Option Ip
  pub parse_cidr : Text → Option Network
  pub contains : Network → Ip → Bool
  pub is_private : Ip → Bool
  pub is_loopback : Ip → Bool
  pub is_link_local_unicast : Ip → Bool
  pub is_unspecified : Ip → Bool

-- A POST: no answer, or a status with the decoded body, `none` where decoding fails.
pub data Reply (A : Type 0) : Type 0 where
  unreachable : Reply A
  answer : ℕ → Option A → Reply A

-- A result, or an error that wraps errNotFound or does not.
pub data Outcome (A : Type 0) : Type 0 where
  found : A → Outcome A
  not_found : Outcome A
  failed : Outcome A

pub record TrunkData : Type 0 where
  pub inbound_ips : List Text
  pub outbound_contact : Text
  pub outbound_user : Text
  pub outbound_pass : Text

pub record CredEntry : Type 0 where
  pub password : Text
  pub expires_at : ℕ

-- `none` caches a number that the server doesn't know.
pub record TrunkEntry : Type 0 where
  pub trunk : Option TrunkData
  pub expires_at : ℕ

abbrev pub cache_ttl : ℕ
cache_ttl = 5 * minute

abbrev unknown_trunk_ttl : ℕ
unknown_trunk_ttl = minute

-- Whether an entry is there that may still be used.
abbrev fresh_cred : ℕ → Option CredEntry → Option CredEntry
fresh_cred now none = none
fresh_cred now (some e) = if before now e.expires_at then some e else none

abbrev fresh_trunk : ℕ → Option TrunkEntry → Option TrunkEntry
fresh_trunk now none = none
fresh_trunk now (some e) = if before now e.expires_at then some e else none

module _ (net : IpNet) where
  pub record Api : Type 0 where
    pub cred_cache : Dict CredEntry
    pub trunk_cache : Dict TrunkEntry
    pub trunk_nets : Dict net.Network

  unfoldable pub new_api : Api
  new_api = record { cred_cache = []; trunk_cache = []; trunk_nets = [] }

  -- A result of a method: the new state, the outcome, and whether the server was asked.
  abbrev Asked : Type 0 → Type 0
  Asked A = Api × Outcome A × Bool

  cred_reply : Api → ℕ → Text → Reply Text → Asked Text
  cred_reply api now key unreachable = (api, failed, true)
  cred_reply api now key (answer status body) =
      if status == 404
      then (api, not_found, true)
      else if status == 200
      then elim body [
        | none ↦ (api, failed, true)
        | some p ↦ if text_eq p [] then (api, failed, true) else (
          record api {
            cred_cache =
                store key (record { password = p; expires_at = now + cache_ttl }) api.cred_cache;
          },
          found p,
          true,
        )
      ]
      else (api, failed, true)

  -- GetUserPassword, for the key user@domain. An entry that ran out is deleted.
  pub get_user_password : Api → ℕ → Text → Reply Text → Asked Text
  unfolding cred_reply
  get_user_password api now key reply = elim (fresh_cred now (lookup key api.cred_cache)) [
    | some e ↦ (api, found e.password, false)
    | none ↦ cred_reply (record api { cred_cache = delete key api.cred_cache }) now key reply
  ]

  -- The loop of rememberTrunkNets.
  pub remember_nets : List Text → Dict net.Network → Dict net.Network
  remember_nets [] nets = nets
  remember_nets (cidr ∷ cidrs) nets = remember_nets cidrs (elim (lookup cidr nets) [
    | some known ↦ nets
    | none ↦ elim (net.parse_cidr cidr) [ none ↦ nets | some network ↦ store cidr network nets ]
  ])

  abbrev trunk_outcome : Option TrunkData → Outcome TrunkData
  trunk_outcome none = not_found
  trunk_outcome (some t) = found t

  trunk_reply : Api → ℕ → Text → Reply TrunkData → Asked TrunkData
  unfolding remember_nets
  trunk_reply api now number unreachable = (api, failed, true)
  trunk_reply api now number (answer status body) =
      if status == 404
      then (
        record api {
          trunk_cache =
              store number (record { trunk = none; expires_at = now + unknown_trunk_ttl })
                api.trunk_cache;
        },
        not_found,
        true,
      )
      else if status == 200
      then elim body [
        | none ↦ (api, failed, true)
        | some t ↦ (
          record api {
            trunk_cache =
                store number (record { trunk = some t; expires_at = now + cache_ttl })
                  api.trunk_cache;
            trunk_nets = remember_nets t.inbound_ips api.trunk_nets;
          },
          found t,
          true,
        )
      ]
      else (api, failed, true)

  -- GetSIPTrunk
  unfoldable pub get_sip_trunk : Api → ℕ → Text → Reply TrunkData → Asked TrunkData
  unfolding trunk_reply
  get_sip_trunk api now number reply = elim (fresh_trunk now (lookup number api.trunk_cache)) [
    | some e ↦ (api, trunk_outcome e.trunk, false)
    | none ↦
        trunk_reply (record api { trunk_cache = delete number api.trunk_cache }) now number reply
  ]

  -- IsTrunkIP
  pub is_trunk_ip : Api → Text → Bool
  is_trunk_ip api ip = elim (net.parse_ip ip) [
    | none ↦ false
    | some parsed ↦ any (λ e. net.contains e.1 parsed) api.trunk_nets
  ]

  invalidate_cred_cache : Api → Text → Api
  invalidate_cred_cache api key = record api { cred_cache = delete key api.cred_cache }

  invalidate_trunk_cache : Api → Text → Api
  invalidate_trunk_cache api number = record api { trunk_cache = delete number api.trunk_cache }
