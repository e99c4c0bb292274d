-- ===== src/Proxy/Register.antt =====
-- sbc/proxy.go: handleRegister and registrationLapsed.
pub mod Granted
pub mod Authentic
use comcent_ce.Common.{
  ℕ, Bool, true, false, not, ◌&&◌, ◌||◌, List, [], ◌∷◌, ◌++◌, Option, none, some, Text, text,
  text_eq, ◌==◌, if◌then◌else◌,
}
use comcent_ce.Common.Int.{ℤ, pos, pos_part, ltb_ℤ}
use comcent_ce.Clock.{add_duration, seconds}
use comcent_ce.Go.Strings.{cut_byte, has_suffix}
use comcent_ce.Go.Strconv.{itoa}
use comcent_ce.Sip.{Sipgo, Request, Response, Header, generic_header, get_header, from_address}
use comcent_ce.Registrar.{register, unregister, unregister_contact, is_registered}
use comcent_ce.Registrar.Contacts.{Contact}
use comcent_ce.Api.{IpNet, Api, Reply, Outcome, found, not_found, failed, get_user_password}
use comcent_ce.Auth.{validate_digest_auth, auth_challenge}
use comcent_ce.Wrap.{is_udp}
use comcent_ce.Contact.{register_expires, contact_with_expires, extract_contact_uri}
use comcent_ce.Proxy.{
  Settings, Effect, respond, update_presence, behind_nat, Proxy, count_failed, failed_auth,
}

abbrev or_blank : Option Text → Text
or_blank none = []
or_blank (some v) = v

abbrev is_star : Option Text → Bool
is_star none = false
is_star (some v) = text_eq v (text "*")

-- The part of the domain before its first dot.
abbrev pub subdomain_of : Text → Text
subdomain_of domain = elim (cut_byte b'.' domain) [ none ↦ domain | some (a, b) ↦ a ]

pub aor_of : Text → Text → Text
aor_of user domain = user ++ (b'@' ∷ domain)

abbrev ok : Sipgo → Request → Response
ok sip req = sip.new_response req 200 (text "OK") []

-- registerExpires of the request's headers
unfoldable pub asked_expires : Sipgo → Request → ℕ
asked_expires sip req =
    register_expires (or_blank (get_header sip (text "Contact") req.headers))
      (or_blank (get_header sip (text "Expires") req.headers))

unfoldable pub contact_uri : Sipgo → Request → Text → Text
contact_uri sip req aor = elim (get_header sip (text "Contact") req.headers) [
  | none ↦ text "sip:" ++ aor
  | some v ↦ extract_contact_uri v (text "sip:" ++ aor)
]

unfoldable pub is_nat : Sipgo → Request → Text → Bool
unfolding contact_uri
is_nat sip req aor = is_udp req.transport && behind_nat sip (contact_uri sip req aor) req.source

-- The seconds that a registration is granted.
unfoldable pub granted_expires : Settings → Sipgo → Request → Text → ℕ
unfolding asked_expires is_nat
granted_expires s sip req aor =
    if is_nat sip req aor
      && (ltb_ℤ (pos 0) s.nat_max_expires && ltb_ℤ s.nat_max_expires (pos (asked_expires sip req)))
    then pos_part s.nat_max_expires
    else asked_expires sip req

pub new_contact : Settings → Sipgo → Request → ℕ → Text → Contact
unfolding granted_expires contact_uri is_nat
new_contact s sip req now aor =
    let t = req.transport in
    record {
      uri = contact_uri sip req aor;
      address = req.source;
      transport = t;
      is_webrtc =
          text_eq t (text "ws")
          || (text_eq t (text "wss") || (text_eq t (text "WS") || text_eq t (text "WSS")));
      expires_at = add_duration now (seconds (granted_expires s sip req aor));
      nat = is_nat sip req aor;
      missed_pings = 0;
    }

-- The Contact that the 200 to a registration carries.
contact_value : Settings → Sipgo → Request → Text → Text
unfolding granted_expires contact_uri
contact_value s sip req aor =
    let contact : Text = elim (get_header sip (text "Contact") req.headers) [
      | none ↦ b'<' ∷ (contact_uri sip req aor ++ text ">")
      | some v ↦ v
    ] in
    contact_with_expires contact (granted_expires s sip req aor)

-- Its headers up to there.
pub contact_headers : Settings → Sipgo → Request → Text → List Header
unfolding contact_value
contact_headers s sip req aor =
    (ok sip req).headers ++ generic_header (text "Contact") (contact_value s sip req aor) ∷ []

-- The 200 to a registration.
pub registered_response : Settings → Sipgo → Request → Text → Response
unfolding granted_expires contact_headers
registered_response s sip req aor = record (ok sip req) {
  headers =
      contact_headers s sip req aor
      ++ generic_header (text "Expires") (itoa (granted_expires s sip req aor)) ∷ [];
}

module _ (net : IpNet) (sip : Sipgo) where
  drop_contact : Proxy net → ℕ → Request → Text → Text → Proxy net × List Effect
  unfolding aor_of
  drop_contact p now req user domain =
      let reg = unregister_contact p.reg (aor_of user domain) req.source in
      (
        record p { reg = reg },
        if is_registered reg now (aor_of user domain)
            then respond (ok sip req) ∷ []
            else update_presence (subdomain_of domain) (text "unregistered") user
              ∷ respond (ok sip req)
              ∷ [],
      )

  -- handleRegister from where the credentials are accepted.
  pub accept_register : Proxy net → ℕ → Request → Text → Text → Proxy net × List Effect
  unfolding asked_expires new_contact registered_response drop_contact aor_of
  accept_register p now req user domain =
      let aor = aor_of user domain in
      if is_star (get_header sip (text "Contact") req.headers) && asked_expires sip req == 0
      then (
        record p { reg = unregister p.reg aor },
        update_presence (subdomain_of domain) (text "unregistered") user
            ∷ respond (ok sip req)
            ∷ [],
      )
      else if asked_expires sip req == 0
      then drop_contact p now req user domain
      else (
        record p { reg = register p.reg aor (new_contact p.settings sip req now aor) },
        update_presence (subdomain_of domain) (text "registered") user
            ∷ respond (registered_response p.settings sip req aor)
            ∷ [],
      )

  challenge_register :
      Proxy net → ℕ → Text → Request → Text → Outcome Text → Proxy net × List Effect
  challenge_register p now nonce req domain error =
      (failed_auth net sip p now req error, respond (auth_challenge sip req domain nonce) ∷ [])

  pub check_register :
      (Text → Text)
      → Proxy net
      → ℕ
      → Text
      → Request
      → Text
      → Text
      → Outcome Text
      → Proxy net × List Effect
  unfolding challenge_register accept_register
  check_register md5_hex p now nonce req user domain (found password) =
      if text_eq password [] || not (validate_digest_auth md5_hex sip req password)
      then challenge_register p now nonce req domain (found password)
      else accept_register p now req user domain
  check_register md5_hex p now nonce req user domain error =
      challenge_register p now nonce req domain error

  -- The check on the result of the lookup, whose new caches the proxy keeps.
  with_password :
      (Text → Text)
      → Proxy net
      → ℕ
      → Text
      → Request
      → Text
      → Text
      → Api net × Outcome Text × Bool
      → Proxy net × List Effect
  unfolding check_register
  with_password md5_hex p now nonce req user domain (api, password, asked) =
      check_register md5_hex (record p { api = api }) now nonce req user domain password

  -- handleRegister. `reply` is what the server would answer about the user's password.
  pub handle_register :
      (Text → Text) → Proxy net → ℕ → Reply Text → Text → Request → Proxy net × List Effect
  unfolding with_password aor_of
  handle_register md5_hex p now reply nonce req = elim (from_address req.headers) [
    | none ↦ (p, respond (sip.new_response req 400 (text "Bad Request") []) ∷ [])
    | some from ↦
        if has_suffix from.uri.host p.sip_user_root_domain
        then with_password md5_hex p now nonce req from.uri.user from.uri.host
            (get_user_password net p.api now (aor_of from.uri.user from.uri.host) reply)
        else (
          count_failed net p now req,
          respond (sip.new_response req 403 (text "Forbidden") []) ∷ [],
        )
  ]

  -- registrationLapsed
  pub registration_lapsed : Proxy net → ℕ → Text → List Effect
  registration_lapsed p now aor =
      let (user, domain) : Text × Text = elim (cut_byte b'@' aor) [
        | none ↦ (aor, [])
        | some ud ↦ ud
      ] in
      if is_registered p.reg now aor
      then []
      else update_presence (subdomain_of domain) (text "expired") user ∷ []
