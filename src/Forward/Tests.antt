-- ===== src/Forward/Tests.antt =====
-- sbc/proxy.go: runs of the forwarding of requests.
use comcent_ce.Common.{
  ℕ, ◌+◌, ◌%◌, ◌^◌, ◌≤◌, ◌<◌, ◌≡◌, ◌≢◌, refl, Bool, true, false, List, [], ◌∷◌, Option, none, some,
  arith, Text, text, leb, ◌==◌, if◌then◌else◌,
}
use comcent_ce.Fixtures.{sipgo, first_invite, bob_uri}
use comcent_ce.Sip.{
  Uri, Request, Header, generic_header, cseq_header, cseq_number, max_forwards, from_address,
  to_address, call_id,
}
use comcent_ce.Contact.{parse_contact_uri}
use comcent_ce.Forward.{
  build_forward, next_hops, copy_headers, copy_header, shift_cseq, digest_cseq_offset,
}
use comcent_ce.Forward.Route.{RouteConfig, keep_entry}
use comcent_ce.Forward.Hops.{build_forward-dialog}
use comcent_ce.Forward.Loop.{send_times, is_some, send_times_limit}
use comcent_ce.Forward.Own.{keep_entry-public}

abbrev addresses : RouteConfig
addresses = record { public_ip = text "203.0.113.1"; private_ip = text "10.0.0.1" }

abbrev sent : Request
sent = elim (build_forward sipgo addresses first_invite bob_uri []) [
  | none ↦ first_invite
  | some fwd ↦ fwd
]

is_sent : build_forward sipgo addresses first_invite bob_uri [] ≡ some sent
unfolding build_forward comcent_ce.Sip.first
is_sent = refl

build_forward-dialog_example :
    (sent.method ≡ first_invite.method)
    × (sent.body ≡ first_invite.body)
    × (from_address sent.headers ≡ from_address first_invite.headers)
    × (to_address sent.headers ≡ to_address first_invite.headers)
    × (call_id sent.headers ≡ call_id first_invite.headers)
    × (cseq_number sent.headers ≡ cseq_number first_invite.headers)
build_forward-dialog_example =
    build_forward-dialog sipgo addresses [] first_invite bob_uri sent is_sent

send_times_limit_example : is_some (send_times sipgo addresses [] bob_uri 3 first_invite) ≡ leb 3 2
unfolding comcent_ce.Sip.first
send_times_limit_example = send_times_limit sipgo addresses [] bob_uri 3 first_invite 2 refl

abbrev ack_request : Request
ack_request = record first_invite { method = text "ACK" }

abbrev own_entry : Text
own_entry = text "<sip:203.0.113.1:5080;lr>"

abbrev own_uri : Uri
own_uri = elim (parse_contact_uri (text "sip:203.0.113.1:5080;lr")) [
  | none ↦ bob_uri
  | some uri ↦ uri
]

keep_entry-public_example :
    keep_entry parse_contact_uri addresses [] own_entry
    ≡ (if 5080 == 5060 then [] else own_entry ∷ [])
unfolding parse_contact_uri comcent_ce.Common.text_eq comcent_ce.Go.Strings.trim_space
    comcent_ce.Forward.Route.unbracket comcent_ce.Go.Strings.cut_byte
    comcent_ce.Go.Strings.trim_prefix comcent_ce.Go.Strings.cut_last_byte
    comcent_ce.Go.Strings.contains_byte comcent_ce.Go.Strconv.atoi
keep_entry-public_example =
    keep_entry-public parse_contact_uri addresses own_entry own_uri 5080 refl refl refl
      (omega arith) (omega arith) ((ground arith)) ((ground arith)) (λ e. cc) (λ e. cc)
