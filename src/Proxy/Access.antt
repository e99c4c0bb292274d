-- ===== src/Proxy/Access.antt =====
-- sbc/proxy.go: authenticateExternalRequest and authorizeExternalInDialog.
pub mod Decided
pub mod Kept
use comcent_ce.Common.{
  ℕ, Bool, true, false, not, ◌&&◌, ◌||◌, List, [], ◌∷◌, ◌++◌, Option, none, some, Text, text,
  text_eq, lookup, if◌then◌else◌,
}
use comcent_ce.Go.Strings.{has_suffix}
use comcent_ce.Sip.{Sipgo, Address, Request}
use comcent_ce.Api.{
  IpNet, Reply, Outcome, found, not_found, failed, Api, TrunkData, get_user_password, get_sip_trunk,
}
use comcent_ce.Api.Trunks.{is_ip_allowed}
use comcent_ce.Auth.{validate_digest_auth, auth_challenge}
use comcent_ce.Contact.Targets.{spoof_cache_key}
use comcent_ce.Proxy.{Effect, respond, Proxy, count_failed, failed_auth, reject_call}

module _ (net : IpNet) where
  abbrev Checked : Type 0
  Checked = Proxy net × List Effect × Bool

  -- A rejection of a call with a challenge: failedAuth, rejected.add and sendAuthChallenge.
  challenge_call : Sipgo → Proxy net → ℕ → Text → Request → Text → Outcome Text → Checked
  unfolding failed_auth reject_call
  challenge_call sip p now nonce req domain error = (
    reject_call net (failed_auth net sip p now req error) now req,
    respond (auth_challenge sip req domain nonce) ∷ [],
    false,
  )

  abbrev forbidden : Sipgo → Request → List Effect
  forbidden sip req = respond (sip.new_response req 403 (text "Forbidden") []) ∷ []

  check_user :
      Sipgo → (Text → Text) → Proxy net → ℕ → Text → Request → Text → Outcome Text → Checked
  unfolding challenge_call
  check_user sip md5_hex p now nonce req domain (found password) =
      if text_eq password [] || not (validate_digest_auth md5_hex sip req password)
      then challenge_call sip p now nonce req domain (found password)
      else (p, [], true)
  check_user sip md5_hex p now nonce req domain error =
      challenge_call sip p now nonce req domain error

  check_trunk : Sipgo → Proxy net → ℕ → Request → Text → Outcome TrunkData → Checked
  unfolding count_failed reject_call
  check_trunk sip p now req source (found trunk) =
      if is_ip_allowed net source trunk.inbound_ips
      then (p, [], true)
      else (reject_call net (count_failed net p now req) now req, forbidden sip req, false)
  check_trunk sip p now req source not_found =
      (reject_call net (count_failed net p now req) now req, forbidden sip req, false)
  check_trunk sip p now req source failed = (reject_call net p now req, forbidden sip req, false)

  -- The check on the result of the lookup, whose new caches the proxy keeps.
  with_user :
      Sipgo
      → (Text → Text)
      → Proxy net
      → ℕ
      → Text
      → Request
      → Text
      → Api net × Outcome Text × Bool
      → Checked
  unfolding check_user
  with_user sip md5_hex p now nonce req domain (api, password, asked) =
      check_user sip md5_hex (record p { api = api }) now nonce req domain password

  with_trunk : Sipgo → Proxy net → ℕ → Request → Text → Api net × Outcome TrunkData × Bool → Checked
  unfolding check_trunk
  with_trunk sip p now req source (api, trunk, asked) =
      check_trunk sip (record p { api = api }) now req source trunk

  -- The number whose trunk is looked up.
  unfoldable pub trunk_number : Proxy net → Text → Text → Text
  trunk_number p id number = elim (lookup (spoof_cache_key id number) p.spoof_cache) [
    | none ↦ number
    | some cached ↦ cached
  ]

  -- authenticateExternalRequest, on what From(), To() and CallID() return. The replies are what the
  -- server would answer.
  unfoldable pub authenticate_external :
      Sipgo
      → (Text → Text)
      → Proxy net
      → ℕ
      → Reply Text
      → Reply TrunkData
      → Text
      → Request
      → Address
      → Address
      → Text
      → Text
      → Checked
  unfolding with_user with_trunk trunk_number
  authenticate_external sip md5_hex p now cred_reply trunk_reply nonce req from to id source =
      if has_suffix from.uri.host p.sip_user_root_domain
      then with_user sip md5_hex p now nonce req from.uri.host
          (get_user_password net p.api now (from.uri.user ++ (b'@' ∷ from.uri.host)) cred_reply)
      else with_trunk sip p now req source
          (get_sip_trunk net p.api now (trunk_number p id to.uri.user) trunk_reply)

  -- authorizeExternalInDialog, with the address of the call's user
  authorize_in_dialog :
      Sipgo
      → (Text → Text)
      → Proxy net
      → ℕ
      → Reply Text
      → Reply TrunkData
      → Text
      → Request
      → Address
      → Address
      → Text
      → Text
      → Text
      → Checked
  unfolding authenticate_external
  authorize_in_dialog sip md5_hex p now cred_reply trunk_reply nonce req from to id source
        user_addr =
      let authenticated =
        authenticate_external sip md5_hex p now cred_reply trunk_reply nonce req from to id
          source in
      if has_suffix from.uri.host p.sip_user_root_domain
        && (not (text_eq user_addr []) && text_eq req.source user_addr)
      then (p, [], true)
      else authenticated
