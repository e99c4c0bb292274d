-- ===== src/Proxy/Tests.antt =====
-- sbc/proxy.go: runs of the proxy, with a sum that adds a mark in place of MD5.
use comcent_ce.Common.{
  ◌+◌, ◌*◌, ◌≡◌, ◌↔◌, ◌⊎◌, inl, refl, true, false, [], ◌∷◌, ◌++◌, some, arith, Text, text, text_eq,
  In, if◌then◌else◌,
}
use comcent_ce.Common.Int.{pos}
use comcent_ce.Go.Strconv.{itoa}
use comcent_ce.Go.Strings.{has_suffix}
use comcent_ce.Clock.{second, minute}
use comcent_ce.Fixtures.{alice, home, alice_address, bob_address, first_invite, sipgo, networks}
use comcent_ce.Sip.{Address, Request, Response, Header, generic_header, from_header}
use comcent_ce.Registrar.{new_registrar, find, is_live}
use comcent_ce.Registrar.Contacts.{Contact}
use comcent_ce.Dispatcher.{Dispatcher, select_target}
use comcent_ce.IpBan.{new_ip_ban}
use comcent_ce.Api.{new_api, answer, unreachable, TrunkData, get_user_password, get_sip_trunk}
use comcent_ce.Proxy.{Settings, Effect, respond, Proxy, source_ip, count_failed}
use comcent_ce.Proxy.Protected.{count_failed-Served}
use comcent_ce.Proxy.Access.{trunk_number, authenticate_external}
use comcent_ce.Proxy.Access.Decided.{FitsPassword, FitsTrunk, authenticate_external_iff}
use comcent_ce.Proxy.Register.{
  aor_of, asked_expires, granted_expires, accept_register, handle_register,
}
use comcent_ce.Proxy.Register.Granted.{accept_register-granted, accept_register-overflow}
use comcent_ce.Proxy.Register.Authentic.{Refused, IsUser, handle_register-authentic}

abbrev mark : Text → Text
mark s = text "#" ++ s

abbrev settings : Settings
settings = record { sip_user_root_domain = text "example.com"; nat_max_expires = pos 600 }

abbrev dispatcher : Dispatcher
dispatcher = record {
  targets = text "sip:10.0.0.1:5070" ∷ text "sip:10.0.0.2:5070" ∷ [];
  counter = 0;
}

abbrev proxy : Proxy networks
proxy = record {
  settings = settings;
  reg = new_registrar;
  api = new_api networks;
  dispatcher = dispatcher;
  ban = new_ip_ban (pos 3) (pos minute) (pos (10 * minute));
  rejected = record { ids = []; last_sweep = 0 };
  spoof_cache = [];
  affinity = [];
}

abbrev credentials : Header
credentials = generic_header (text "Authorization") (
    text
      "Digest username=\"alice\", realm=\"a\", nonce=\"n\", uri=\"sip:a\", response=\"##alice:a:pw:n:#REGISTER:sip:a\"")

abbrev asking : Text → Request
asking expires = record first_invite {
  method = text "REGISTER";
  headers =
      from_header alice_address
      ∷ credentials
      ∷ generic_header (text "Contact") (text "<sip:alice@10.0.0.5:5060>")
      ∷ generic_header (text "Expires") expires
      ∷ [];
}

abbrev from_fs : Request
from_fs = record first_invite { source = text "10.0.0.1:5070" }

abbrev office_trunk : TrunkData
office_trunk = record {
  inbound_ips = text "203.0.113." ∷ [];
  outbound_contact = text "192.0.2.9:5060";
  outbound_user = text "acme";
  outbound_pass = text "pw";
}

-- The registration of a phone behind a NAT for an hour is granted ten minutes.
granted_ten_minutes : granted_expires settings sipgo (asking (text "3600")) alice ≡ 600
unfolding granted_expires comcent_ce.Wrap.is_udp comcent_ce.Go.Strings.equal_fold
    comcent_ce.Proxy.behind_nat comcent_ce.Contact.parse_contact_uri
    comcent_ce.Go.Strings.trim_space comcent_ce.Sip.get_header
    comcent_ce.Contact.extract_contact_uri comcent_ce.Go.Strings.cut_byte
    comcent_ce.Go.Strings.trim_prefix comcent_ce.Go.Net.split_host_port
    comcent_ce.Go.Strings.cut_last_byte comcent_ce.Go.Strings.contains_byte
    comcent_ce.Go.Strconv.atoi comcent_ce.Contact.register_expires comcent_ce.Contact.contact_param
    comcent_ce.Contact.split_contact
granted_ten_minutes = refl

abbrev patient : Proxy networks
patient = record proxy { settings = record settings { nat_max_expires = pos 0 } }

asked_3600 : asked_expires sipgo (asking (text "3600")) ≡ 3600
unfolding asked_expires comcent_ce.Contact.register_expires comcent_ce.Contact.contact_param
    comcent_ce.Contact.split_contact comcent_ce.Go.Strings.cut_byte comcent_ce.Go.Strings.trim_space
    comcent_ce.Sip.get_header comcent_ce.Go.Strings.equal_fold comcent_ce.Go.Strconv.atoi
asked_3600 = refl

asked_10000000000 : asked_expires sipgo (asking (text "10000000000")) ≡ 10_000_000_000
unfolding asked_expires comcent_ce.Contact.register_expires comcent_ce.Contact.contact_param
    comcent_ce.Contact.split_contact comcent_ce.Go.Strings.cut_byte comcent_ce.Go.Strings.trim_space
    comcent_ce.Sip.get_header comcent_ce.Go.Strings.equal_fold comcent_ce.Go.Strconv.atoi
asked_10000000000 = refl

granted_10000000000 :
    granted_expires patient.settings sipgo
      (asking (text "10000000000"))
      (aor_of (text "alice") (text "acme.example.com"))
    ≡ 10_000_000_000
unfolding granted_expires comcent_ce.Wrap.is_udp comcent_ce.Go.Strings.equal_fold
    comcent_ce.Proxy.behind_nat comcent_ce.Contact.parse_contact_uri
    comcent_ce.Go.Strings.trim_space comcent_ce.Sip.get_header
    comcent_ce.Contact.extract_contact_uri comcent_ce.Go.Strings.cut_byte
    comcent_ce.Go.Strings.trim_prefix comcent_ce.Go.Net.split_host_port
    comcent_ce.Go.Strings.cut_last_byte comcent_ce.Go.Strings.contains_byte
    comcent_ce.Go.Strconv.atoi comcent_ce.Contact.register_expires comcent_ce.Contact.contact_param
    comcent_ce.Contact.split_contact
granted_10000000000 = refl

granted_at_home :
    granted_expires settings sipgo
      (asking (text "3600"))
      (aor_of (text "alice") (text "acme.example.com"))
    ≡ 600
unfolding granted_expires comcent_ce.Wrap.is_udp comcent_ce.Go.Strings.equal_fold
    comcent_ce.Proxy.behind_nat comcent_ce.Contact.parse_contact_uri
    comcent_ce.Go.Strings.trim_space comcent_ce.Sip.get_header
    comcent_ce.Contact.extract_contact_uri comcent_ce.Go.Strings.cut_byte
    comcent_ce.Go.Strings.trim_prefix comcent_ce.Go.Net.split_host_port
    comcent_ce.Go.Strings.cut_last_byte comcent_ce.Go.Strings.contains_byte
    comcent_ce.Go.Strconv.atoi comcent_ce.Contact.register_expires comcent_ce.Contact.contact_param
    comcent_ce.Contact.split_contact
granted_at_home = refl

handle_register-authentic_example :
    Refused networks sipgo mark proxy (
      handle_register networks sipgo mark proxy minute
        (answer 200 (some (text "pw")))
        (text "n")
        (asking (text "3600")))
    ⊎ ((from : Address) × IsUser networks sipgo mark proxy minute
          (answer 200 (some (text "pw")))
          (asking (text "3600"))
          from
        × (handle_register networks sipgo mark proxy minute
              (answer 200 (some (text "pw")))
              (text "n")
              (asking (text "3600"))
            ≡ accept_register networks sipgo
                (record proxy {
                  api =
                      (get_user_password networks proxy.api minute
                        (aor_of from.uri.user from.uri.host)
                        (answer 200 (some (text "pw")))).0;
                })
                minute
                (asking (text "3600"))
                from.uri.user
                from.uri.host))
handle_register-authentic_example =
    handle_register-authentic networks sipgo mark proxy minute (answer 200 (some (text "pw")))
      (text "n") (asking (text "3600"))

authenticate_external_iff_example :
    ((authenticate_external networks sipgo mark proxy minute
        (answer 200 (some (text "pw")))
        unreachable
        (text "n")
        (asking (text "3600"))
        alice_address
        bob_address
        (text "c1")
        (text "203.0.113.7")).2
      ≡ true)
    ↔ (if has_suffix (text "acme.example.com") proxy.sip_user_root_domain
        then FitsPassword networks sipgo mark
            (asking (text "3600"))
            (get_user_password networks proxy.api minute
              (text "alice" ++ (b'@' ∷ text "acme.example.com"))
              (answer 200 (some (text "pw")))).1
        else FitsTrunk networks sipgo mark
            (text "203.0.113.7")
            (get_sip_trunk networks proxy.api minute
              (trunk_number networks proxy (text "c1") (text "bob"))
              unreachable).1)
authenticate_external_iff_example =
    authenticate_external_iff networks sipgo mark proxy minute (answer 200 (some (text "pw")))
      unreachable (text "n") (asking (text "3600")) alice_address bob_address (text "c1")
      (text "203.0.113.7")

count_failed-Served_example : count_failed networks proxy minute from_fs ≡ proxy
unfolding comcent_ce.Dispatcher.is_target text_eq comcent_ce.Dispatcher.fs_uri source_ip
    comcent_ce.Go.Net.split_host_port comcent_ce.Go.Strings.cut_last_byte
    comcent_ce.Go.Strings.contains_byte
count_failed-Served_example = count_failed-Served networks proxy minute from_fs (inl refl)

accept_register-granted_example :
    (c : Contact) × (find
        (accept_register networks sipgo proxy minute
          (asking (text "3600"))
          (text "alice")
          (text "acme.example.com")).0.reg
        (aor_of (text "alice") (text "acme.example.com"))
        home
      ≡ some c)
    × (c.expires_at
        ≡ minute
          + granted_expires settings sipgo
              (asking (text "3600"))
              (aor_of (text "alice") (text "acme.example.com"))
            * second)
    × (res : Response) × In
        (respond res)
        (accept_register networks sipgo proxy minute
          (asking (text "3600"))
          (text "alice")
          (text "acme.example.com")).1
    × In
        (generic_header (text "Expires") (
          itoa (
            granted_expires settings sipgo
              (asking (text "3600"))
              (aor_of (text "alice") (text "acme.example.com")))))
        res.headers
accept_register-granted_example =
    accept_register-granted networks sipgo proxy minute (asking (text "3600")) (text "alice")
      (text "acme.example.com") (rw asked_3600 (λ e. omega arith))
      (rw granted_at_home (omega arith))

accept_register-overflow_example :
    (c : Contact) × (find
        (accept_register networks sipgo patient minute
          (asking (text "10000000000"))
          (text "alice")
          (text "acme.example.com")).0.reg
        (aor_of (text "alice") (text "acme.example.com"))
        home
      ≡ some c)
    × (is_live minute c ≡ false)
accept_register-overflow_example =
    accept_register-overflow networks sipgo patient minute (asking (text "10000000000"))
      (text "alice") (text "acme.example.com") (rw asked_10000000000 (λ e. omega arith))
      (rw granted_10000000000 (omega arith)) (rw granted_10000000000 (omega arith))
