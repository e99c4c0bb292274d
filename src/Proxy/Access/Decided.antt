-- ===== src/Proxy/Access/Decided.antt =====
-- sbc/proxy.go: whom authenticateExternalRequest lets through.
use comcent_ce.Common.{
  ℕ, ◌≡◌, ◌≢◌, ◌↔◌, inl, inr, refl, Bool, true, [], ◌∷◌, ◌++◌, arith, Text, text_eq, text_eq_iff,
  if◌then◌else◌, Bool-cases,
}
use comcent_ce.Go.Strings.{has_suffix}
use comcent_ce.Sip.{Sipgo, Request, Address}
use comcent_ce.Api.{
  IpNet, Api, Reply, Outcome, found, not_found, failed, TrunkData, get_user_password, get_sip_trunk,
}
use comcent_ce.Api.Trunks.{is_ip_allowed}
use comcent_ce.Auth.{validate_digest_auth}
use comcent_ce.Proxy.{Proxy}
use comcent_ce.Proxy.Access.{
  check_user, check_trunk, with_user, with_trunk, trunk_number, challenge_call,
  authenticate_external,
}

module _ (net : IpNet) (sip : Sipgo) (md5_hex : Text → Text) where
  -- The password of the result is not empty and the request's credentials fit it.
  abbrev pub FitsPassword : Request → Outcome Text → Type 0
  FitsPassword req outcome =
      (password : Text) × (outcome ≡ found password)
      × (password ≢ [])
      × (validate_digest_auth md5_hex sip req password ≡ true)

  -- The trunk of the result may be called from the source.
  abbrev pub FitsTrunk : Text → Outcome TrunkData → Type 0
  FitsTrunk source outcome =
      (trunk : TrunkData) × (outcome ≡ found trunk)
      × (is_ip_allowed net source trunk.inbound_ips ≡ true)

  user_iff :
      (p : Proxy net) (now : ℕ) (nonce : Text) (req : Request) (domain : Text)
      (r : Api net × Outcome Text × Bool)
      → ((with_user net sip md5_hex p now nonce req domain r).2 ≡ true) ↔ FitsPassword req r.1
  unfolding with_user check_user challenge_call
  user_iff p now nonce req domain (api, not_found, asked) = (λ e. cc, λ (password, e, n, v). cc)
  user_iff p now nonce req domain (api, failed, asked) = (λ e. cc, λ (password, e, n, v). cc)
  user_iff p now nonce req domain (api, found password, asked) = (
    λ e. (
      password,
      refl,
      λ q. let empty = (text_eq_iff password []).1 q in ground arith,
      ground arith,
    ),
    λ (other, e, n, v).
        let same : password ≡ other = cc in
        let valid : validate_digest_auth md5_hex sip req password ≡ true = rw same v in
        let some_password : password ≢ [] = rw same n in
        elim (Bool-cases (text_eq password [])) [
          | inl q ↦ absurd (some_password ((text_eq_iff password []).0 q))
          | inr q ↦ rw (q, valid) refl
        ],
  )

  trunk_iff :
      (p : Proxy net) (now : ℕ) (req : Request) (source : Text)
      (r : Api net × Outcome TrunkData × Bool)
      → ((with_trunk net sip p now req source r).2 ≡ true) ↔ FitsTrunk source r.1
  unfolding with_trunk check_trunk
  trunk_iff p now req source (api, not_found, asked) = (λ e. cc, λ (trunk, e, v). cc)
  trunk_iff p now req source (api, failed, asked) = (λ e. cc, λ (trunk, e, v). cc)
  trunk_iff p now req source (api, found trunk, asked) = (
    λ e. (trunk, refl, ground arith),
    λ (other, e, v).
        let same : trunk ≡ other = cc in
        let allowed : is_ip_allowed net source trunk.inbound_ips ≡ true = rw same v in
        rw allowed refl,
  )

-- A request from outside is let through exactly when its credentials fit the password of the user in
-- From, if that is a user of the controller's domain, and otherwise when the trunk of the called
-- number may be called from the source.
pub authenticate_external_iff :
    (net : IpNet) (sip : Sipgo) (md5_hex : Text → Text) (p : Proxy net) (now : ℕ)
    (cred_reply : Reply Text) (trunk_reply : Reply TrunkData) (nonce : Text) (req : Request)
    (from to : Address) (id source : Text)
    → ((authenticate_external net sip md5_hex p now cred_reply trunk_reply nonce req from to id
          source).2
        ≡ true)
      ↔ (if has_suffix from.uri.host p.sip_user_root_domain
          then FitsPassword net sip md5_hex req
              (get_user_password net p.api now
                (from.uri.user ++ (b'@' ∷ from.uri.host))
                cred_reply).1
          else FitsTrunk net sip md5_hex source
              (get_sip_trunk net p.api now (trunk_number net p id to.uri.user) trunk_reply).1)
unfolding authenticate_external
authenticate_external_iff net sip md5_hex p now cred_reply trunk_reply nonce req from to id source =
    elim (Bool-cases (has_suffix from.uri.host p.sip_user_root_domain)) [
      | inl h ↦
          rw (h, authenticate_external)
            (user_iff net sip md5_hex p now nonce req from.uri.host (
              get_user_password net p.api now (from.uri.user ++ (b'@' ∷ from.uri.host)) cred_reply))
      | inr h ↦
          rw (h, authenticate_external)
            (trunk_iff net sip md5_hex p now req source
              (get_sip_trunk net p.api now (trunk_number net p id to.uri.user) trunk_reply))
    ]
