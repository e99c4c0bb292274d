-- ===== src/Proxy/Register/Authentic.antt =====
-- sbc/proxy.go: who can change the registrar with a REGISTER.
use comcent_ce.Common.{
  ℕ, ◌≡◌, ◌≢◌, ◌⊎◌, inl, inr, refl, Bool, true, not, ◌||◌, List, [], ◌∷◌, none, some, arith, Text,
  text_eq, text_eq_iff, Option-cases, Bool-cases,
}
use comcent_ce.Go.Strings.{has_suffix}
use comcent_ce.Sip.{Sipgo, Request, Response, Address, from_address}
use comcent_ce.Api.{IpNet, Api, Reply, Outcome, found, not_found, failed, get_user_password}
use comcent_ce.Auth.{validate_digest_auth}
use comcent_ce.Proxy.{Effect, respond, Proxy}
use comcent_ce.Proxy.Protected.{reg-count_failed, reg-failed_auth}
use comcent_ce.Proxy.Register.{
  aor_of, accept_register, challenge_register, check_register, with_password, handle_register,
}

module _ (net : IpNet) (sip : Sipgo) (md5_hex : Text → Text) where
  -- The registrar is as before, and the answer is one response.
  abbrev pub Refused : Proxy net → Proxy net × List Effect → Type 0
  Refused p (q, effects) = (q.reg ≡ p.reg) × (res : Response) × (effects ≡ respond res ∷ [])

  -- The credentials of the request fit the password that the server has for the user in From, whose
  -- domain is the controller's.
  abbrev pub IsUser : Proxy net → ℕ → Reply Text → Request → Address → Type 0
  IsUser p now reply req from =
      (from_address req.headers ≡ some from)
      × (has_suffix from.uri.host p.sip_user_root_domain ≡ true)
      × (password : Text) × ((get_user_password net p.api now (aor_of from.uri.user from.uri.host)
            reply).1
          ≡ found password)
      × (password ≢ [])
      × (validate_digest_auth md5_hex sip req password ≡ true)

  refused-challenge :
      (p : Proxy net) (now : ℕ) (nonce : Text) (req : Request) (domain : Text)
      (error : Outcome Text)
      → Refused p (challenge_register net sip p now nonce req domain error)
  unfolding challenge_register
  refused-challenge p now nonce req domain error =
      (reg-failed_auth net sip p now req error, _, refl)

  checked :
      (p : Proxy net) (now : ℕ) (nonce : Text) (req : Request) (user domain : Text)
      (outcome : Outcome Text)
      → Refused p (check_register net sip md5_hex p now nonce req user domain outcome)
        ⊎ ((check_register net sip md5_hex p now nonce req user domain outcome
              ≡ accept_register net sip p now req user domain)
            × (password : Text) × (outcome ≡ found password)
            × (password ≢ [])
            × (validate_digest_auth md5_hex sip req password ≡ true))
  unfolding check_register
  checked p now nonce req user domain not_found =
      inl (refused-challenge p now nonce req domain not_found)
  checked p now nonce req user domain failed = inl (refused-challenge p now nonce req domain failed)
  checked p now nonce req user domain (found password) =
      elim (Bool-cases
        (text_eq password [] || not (validate_digest_auth md5_hex sip req password))) [
          | inl e ↦ inl (rw e (refused-challenge p now nonce req domain (found password)))
          | inr e ↦ inr (
            rw e refl,
            password,
            refl,
            λ q. let empty = (text_eq_iff password []).1 q in ground arith,
            ground arith,
          )
        ]

  looked_up :
      (p : Proxy net) (now : ℕ) (nonce : Text) (req : Request) (user domain : Text)
      (r : Api net × Outcome Text × Bool)
      → Refused p (with_password net sip md5_hex p now nonce req user domain r)
        ⊎ ((password : Text) × (r.1 ≡ found password)
            × (password ≢ [])
            × (validate_digest_auth md5_hex sip req password ≡ true)
            × (with_password net sip md5_hex p now nonce req user domain r
                ≡ accept_register net sip (record p { api = r.0 }) now req user domain))
  unfolding with_password
  looked_up p now nonce req user domain (api, outcome, asked) =
      elim (checked (record p { api = api }) now nonce req user domain outcome) [
        | inl refused ↦ inl refused
        | inr (same, password, e, some_password, valid) ↦
            inr (password, e, some_password, valid, same)
      ]

  not_from :
      (p : Proxy net) (now : ℕ) (reply : Reply Text) (nonce : Text) (req : Request)
      → from_address req.headers ≡ none
      → Refused p (handle_register net sip md5_hex p now reply nonce req)
  unfolding handle_register
  not_from p now reply nonce req e = rw (e, handle_register) (refl, _, refl)

  handled :
      (p : Proxy net) (now : ℕ) (reply : Reply Text) (nonce : Text) (req : Request) (from : Address)
      → from_address req.headers ≡ some from
      → Refused p (handle_register net sip md5_hex p now reply nonce req)
        ⊎ (IsUser p now reply req from
            × (handle_register net sip md5_hex p now reply nonce req
                ≡ accept_register net sip
                    (record p {
                      api =
                          (get_user_password net p.api now
                            (aor_of from.uri.user from.uri.host)
                            reply).0;
                    })
                    now
                    req
                    from.uri.user
                    from.uri.host))
  unfolding handle_register
  handled p now reply nonce req from e =
      elim (Bool-cases (has_suffix from.uri.host p.sip_user_root_domain)) [
        | inr h ↦ inl (rw (e, handle_register, h) (reg-count_failed net p now req, _, refl))
        | inl h ↦
            elim (looked_up p now nonce req from.uri.user from.uri.host
              (get_user_password net p.api now (aor_of from.uri.user from.uri.host) reply)) [
                | inl refused ↦ inl (rw (e, handle_register, h) refused)
                | inr (password, o, some_password, valid, same) ↦
                    inr ((e, h, password, o, some_password, valid), rw (e, handle_register, h) same)
              ]
      ]

-- A REGISTER either leaves the registrar as it is, answered by one response and no presence update, or
-- it carries credentials that fit the password of the user in From, in the controller's domain, and
-- is handled as that user's registration.
pub handle_register-authentic :
    (net : IpNet) (sip : Sipgo) (md5_hex : Text → Text) (p : Proxy net) (now : ℕ)
    (reply : Reply Text) (nonce : Text) (req : Request)
    → Refused net sip md5_hex p (handle_register net sip md5_hex p now reply nonce req)
      ⊎ ((from : Address) × IsUser net sip md5_hex p now reply req from
          × (handle_register net sip md5_hex p now reply nonce req
              ≡ accept_register net sip
                  (record p {
                    api =
                        (get_user_password net p.api now
                          (aor_of from.uri.user from.uri.host)
                          reply).0;
                  })
                  now
                  req
                  from.uri.user
                  from.uri.host))
handle_register-authentic net sip md5_hex p now reply nonce req =
    elim (Option-cases (from_address req.headers)) [
      | inl e ↦ inl (not_from net sip md5_hex p now reply nonce req e)
      | inr (from, e) ↦ elim (handled net sip md5_hex p now reply nonce req from e) [
        | inl refused ↦ inl refused
        | inr (user, same) ↦ inr (from, user, same)
      ]
    ]
