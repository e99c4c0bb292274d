-- ===== src/Proxy/Register/Granted.antt =====
-- sbc/proxy.go: what handleRegister grants: the contact that it registers, and for how long.
use comcent_ce.Common.{
  ℕ, ◌+◌, ◌*◌, ◌^◌, min, ◌<◌, ◌≡◌, ◌≢◌, inl, inr, refl, ap, ◌∙◌, false, ◌&&◌, List, [], ◌∷◌, some,
  arith, Text, text, text_eq_iff, In, In-append_right, if◌then◌else◌, Bool-cases, ltb_iff, ◌==◌,
  ==_iff,
}
use comcent_ce.Common.Int.{ℤ, pos, negsuc, pos_part, ltb_ℤ}
use comcent_ce.Clock.{add_duration, seconds, second, before}
use comcent_ce.Go.Strconv.{itoa}
use comcent_ce.Sip.{Sipgo, Request, Response, generic_header}
use comcent_ce.Registrar.{find, is_live, register}
use comcent_ce.Registrar.Contacts.{Contact}
use comcent_ce.Registrar.Laws.{find-register}
use comcent_ce.Api.{IpNet}
use comcent_ce.Proxy.{Settings, Effect, respond, update_presence, Proxy}
use comcent_ce.Proxy.Register.{
  subdomain_of, registered_response, contact_headers, aor_of, asked_expires, granted_expires,
  is_nat, new_contact, accept_register,
}

seconds_small : (n : ℕ) → n < 18_446_744_074 → seconds n ≡ n * second
unfolding seconds
seconds_small n h = omega arith

add_small : (now n : ℕ) → n < 9_223_372_037 → add_duration now (seconds n) ≡ now + n * second
unfolding add_duration
add_small now n h =
    rw (seconds_small n (omega arith)) (ground (arith, ltb_iff (n * second) (2 ^ 63)))

add_large :
    (now n : ℕ)
    → 9_223_372_036 < n
    → n < 18_446_744_074
    → before now (add_duration now (seconds n)) ≡ false
unfolding add_duration
add_large now n h k =
    rw (seconds_small n k, add_duration) (ground (arith, ltb_iff (n * second) (2 ^ 63)))

-- A registration is granted what it asks for, but one from behind a NAT no more than the setting, if
-- that is positive.
granted_expires_lem :
    (s : Settings) (sip : Sipgo) (req : Request) (aor : Text)
    → granted_expires s sip req aor ≡ (
        if is_nat sip req aor && ltb_ℤ (pos 0) s.nat_max_expires
        then min (asked_expires sip req) (pos_part s.nat_max_expires)
        else asked_expires sip req)
unfolding granted_expires
granted_expires_lem s sip req aor = go s.nat_max_expires
  where
    go :
        (m : ℤ)
        → (if is_nat sip req aor && (ltb_ℤ (pos 0) m && ltb_ℤ m (pos (asked_expires sip req)))
            then pos_part m
            else asked_expires sip req)
          ≡ (if is_nat sip req aor && ltb_ℤ (pos 0) m
              then min (asked_expires sip req) (pos_part m)
              else asked_expires sip req)
    go (pos m) = ground (arith)
    go (negsuc m) = ground (arith)

module _ (net : IpNet) (sip : Sipgo) (p : Proxy net) (now : ℕ) (req : Request)
    (user domain : Text) where
  abbrev aor : Text
  aor = aor_of user domain

  abbrev accepted : Proxy net × List Effect
  accepted = accept_register net sip p now req user domain

  accepted-register :
      asked_expires sip req ≢ 0
      → accepted ≡ (
        record p { reg = register p.reg aor (new_contact p.settings sip req now aor) },
        update_presence (subdomain_of domain) (text "registered") user
            ∷ respond (registered_response p.settings sip req aor)
            ∷ [],
      )
  unfolding accept_register
  accepted-register n = elim (Bool-cases (asked_expires sip req == 0)) [
    | inl e ↦ absurd (n ((==_iff _ _).0 e))
    | inr e ↦ rw e (ground (arith))
  ]

  address_new : (new_contact p.settings sip req now aor).address ≡ req.source
  unfolding new_contact
  address_new = refl

  found_new :
      asked_expires sip req ≢ 0
      → find accepted.0.reg aor req.source ≡ some (new_contact p.settings sip req now aor)
  found_new n =
      ap (λ (r : Proxy net × List Effect). find r.0.reg aor req.source) (accepted-register n)
      ∙ find-register p.reg aor (new_contact p.settings sip req now aor) aor req.source
      ∙ rw ((text_eq_iff aor aor).1 refl, address_new, (text_eq_iff req.source req.source).1 refl)
          refl

  expires_new :
      (new_contact p.settings sip req now aor).expires_at
      ≡ add_duration now (seconds (granted_expires p.settings sip req aor))
  unfolding new_contact
  expires_new = refl

  told :
      In
        (generic_header (text "Expires") (itoa (granted_expires p.settings sip req aor)))
        (registered_response p.settings sip req aor).headers
  unfolding registered_response
  told =
      In-append_right
        (generic_header (text "Expires") (itoa (granted_expires p.settings sip req aor)))
        (contact_headers p.settings sip req aor) _ (inl refl)

-- An accepted REGISTER that asks for more than 0 seconds registers the contact at its source, for the
-- seconds that the Expires header of the 200 tells the client, if these fit in an int64 as
-- nanoseconds.
pub accept_register-granted :
    (net : IpNet) (sip : Sipgo) (p : Proxy net) (now : ℕ) (req : Request) (user domain : Text)
    → asked_expires sip req ≢ 0
    → granted_expires p.settings sip req (aor_of user domain) < 9_223_372_037
    → (c : Contact) × (find
          (accept_register net sip p now req user domain).0.reg
          (aor_of user domain)
          req.source
        ≡ some c)
      × (c.expires_at ≡ now + granted_expires p.settings sip req (aor_of user domain) * second)
      × (res : Response) × In (respond res) (accept_register net sip p now req user domain).1
      × In
          (generic_header
            (text "Expires")
            (itoa (granted_expires p.settings sip req (aor_of user domain))))
          res.headers
accept_register-granted net sip p now req user domain n h =
    let aor = aor_of user domain in
    (
      new_contact p.settings sip req now aor,
      found_new net sip p now req user domain n,
      expires_new net sip p now req user domain ∙ add_small now _ h,
      registered_response p.settings sip req aor,
      rw (accepted-register net sip p now req user domain n) (inr (inl refl)),
      told net sip p now req user domain,
    )

-- A REGISTER that is granted more than 9223372036 seconds is accepted, but the contact is lapsed when
-- it is registered: the duration in nanoseconds leaves the int64. This is for less than 18446744074
-- seconds.
pub accept_register-overflow :
    (net : IpNet) (sip : Sipgo) (p : Proxy net) (now : ℕ) (req : Request) (user domain : Text)
    → asked_expires sip req ≢ 0
    → 9_223_372_036 < granted_expires p.settings sip req (aor_of user domain)
    → granted_expires p.settings sip req (aor_of user domain) < 18_446_744_074
    → (c : Contact) × (find
          (accept_register net sip p now req user domain).0.reg
          (aor_of user domain)
          req.source
        ≡ some c)
      × (is_live now c ≡ false)
accept_register-overflow net sip p now req user domain n l h =
    let aor = aor_of user domain in
    (
      new_contact p.settings sip req now aor,
      found_new net sip p now req user domain n,
      rw (expires_new net sip p now req user domain) (add_large now _ l h),
    )
