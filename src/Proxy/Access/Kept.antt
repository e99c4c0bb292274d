-- ===== src/Proxy/Access/Kept.antt =====
-- sbc/proxy.go: what authenticateExternalRequest leaves alone.
use comcent_ce.Common.{
  ℕ, ◌≡◌, inl, inr, refl, not, ◌||◌, [], ◌++◌, ◌∷◌, Text, text, text_eq, Option-cases, Bool-cases,
}
use comcent_ce.Go.Strings.{has_suffix}
use comcent_ce.Sip.{Sipgo, Address, Request, get_header}
use comcent_ce.Auth.{validate_digest_auth}
use comcent_ce.Api.{
  IpNet, Reply, Outcome, found, not_found, failed, TrunkData, get_user_password, get_sip_trunk,
}
use comcent_ce.Api.Trunks.{is_ip_allowed}
use comcent_ce.Proxy.{Proxy, counts, count_failed, failed_auth, reject_call}
use comcent_ce.Proxy.Access.{
  challenge_call, check_user, check_trunk, with_user, with_trunk, trunk_number,
  authenticate_external,
}

module _ (net : IpNet) (sip : Sipgo) (md5_hex : Text → Text) (p : Proxy net) (now : ℕ)
    (req : Request) where
  affinity-failed_auth :
      (error : Outcome Text) → (failed_auth net sip p now req error).affinity ≡ p.affinity
  unfolding failed_auth count_failed
  affinity-failed_auth error =
      elim (Option-cases (get_header sip (text "Authorization") req.headers)) [
        | inl e ↦ rw (e, failed_auth) refl
        | inr (c, e) ↦ elim (Bool-cases (counts net error)) [
          | inl f ↦ rw (e, failed_auth, f) refl
          | inr f ↦ rw (e, failed_auth, f) refl
        ]
      ]

  affinity-challenge_call :
      (nonce domain : Text) (error : Outcome Text)
      → (challenge_call net sip p now nonce req domain error).0.affinity ≡ p.affinity
  unfolding challenge_call reject_call
  affinity-challenge_call nonce domain error = affinity-failed_auth error

  affinity-check_user :
      (nonce domain : Text) (o : Outcome Text)
      → (check_user net sip md5_hex p now nonce req domain o).0.affinity ≡ p.affinity
  unfolding check_user
  affinity-check_user nonce domain (found password) =
      elim (Bool-cases
        (text_eq password [] || not (validate_digest_auth md5_hex sip req password))) [
          | inl e ↦ rw e (affinity-challenge_call nonce domain (found password))
          | inr e ↦ rw e refl
        ]
  affinity-check_user nonce domain not_found = affinity-challenge_call nonce domain not_found
  affinity-check_user nonce domain failed = affinity-challenge_call nonce domain failed

  affinity-check_trunk :
      (source : Text) (o : Outcome TrunkData)
      → (check_trunk net sip p now req source o).0.affinity ≡ p.affinity
  unfolding check_trunk count_failed reject_call
  affinity-check_trunk source (found trunk) =
      elim (Bool-cases (is_ip_allowed net source trunk.inbound_ips)) [
        | inl e ↦ rw e refl
        | inr e ↦ rw e refl
      ]
  affinity-check_trunk source not_found = refl
  affinity-check_trunk source failed = refl

-- The affinity of users stays as it is, whether the request is let through or not.
pub affinity-authenticate_external :
    (net : IpNet) (sip : Sipgo) (md5_hex : Text → Text) (p : Proxy net) (now : ℕ)
    (cred_reply : Reply Text) (trunk_reply : Reply TrunkData) (nonce : Text) (req : Request)
    (from to : Address) (id source : Text)
    → (authenticate_external net sip md5_hex p now cred_reply trunk_reply nonce req from to id
        source).0.affinity
      ≡ p.affinity
unfolding authenticate_external with_user with_trunk
affinity-authenticate_external net sip md5_hex p now cred_reply trunk_reply nonce req from to id
      source =
    let user =
      get_user_password net p.api now (from.uri.user ++ (b'@' ∷ from.uri.host)) cred_reply in
    let trunk = get_sip_trunk net p.api now (trunk_number net p id to.uri.user) trunk_reply in
    elim (Bool-cases (has_suffix from.uri.host p.sip_user_root_domain)) [
      | inl e ↦ rw e (
          affinity-check_user net sip md5_hex (record p { api = user.0 }) now req nonce
            from.uri.host user.1)
      | inr e ↦
          rw e (
            affinity-check_trunk net sip md5_hex (record p { api = trunk.0 }) now req source
              trunk.1)
    ]
