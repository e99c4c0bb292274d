-- ===== src/Proxy/Incoming/Tests.antt =====
-- sbc/proxy.go: an INVITE of a trunk, and where INVITEs go.
use comcent_ce.Common.{
  ℕ, ◌≡◌, ◌≢◌, inl, inr, refl, ap, Dict, true, false, List, [], ◌∷◌, ◌++◌, Option, none, some, Text,
  text, length, arith, if◌then◌else◌,
}
use comcent_ce.Common.Int.{pos}
use comcent_ce.Clock.{minute}
use comcent_ce.Go.Strings.{has_suffix}
use comcent_ce.Fixtures.{
  addresses, ports, alice_address, bob_address, first_invite, sipgo, networks,
}
use comcent_ce.Sip.{Address, Request}
use comcent_ce.Registrar.{new_registrar}
use comcent_ce.Api.{
  Reply, answer, unreachable, new_api, TrunkData, get_user_password, get_sip_trunk,
}
use comcent_ce.Proxy.{Proxy}
use comcent_ce.Proxy.Access.{trunk_number}
use comcent_ce.Proxy.Access.Decided.{FitsPassword, FitsTrunk}
use comcent_ce.Proxy.Incoming.Authentic.{handle_invite_to_fs-authentic}
use comcent_ce.Proxy.Calls.{Calls}
use comcent_ce.Proxy.Incoming.{
  Handling, relays_in_dialog, invites_user, invites_trunk, handle_invite, handle_invite_to_fs,
}

abbrev mark : Text → Text
mark s = text "#" ++ s

abbrev proxy : Proxy networks
proxy = record {
  settings = record { sip_user_root_domain = text "example.com"; nat_max_expires = pos 600 };
  reg = new_registrar;
  api = new_api networks;
  dispatcher = record { targets = text "sip:10.0.0.1:5070" ∷ []; counter = 0 };
  ban = none;
  rejected = record { ids = []; last_sweep = 0 };
  spoof_cache = [];
  affinity = [];
}

-- A number outside the domain.
abbrev carol_address : Address
carol_address = record {
  uri = record { user = text "4930"; host = text "pstn.net"; port = pos 0; params = [] };
  tag = [];
}

abbrev office_trunk : TrunkData
office_trunk = record {
  inbound_ips = text "203.0.113." ∷ [];
  outbound_contact = text "192.0.2.9:5060";
  outbound_user = text "acme";
  outbound_pass = text "pw";
}

to_a_user :
    handle_invite sipgo (text "example.com") true first_invite bob_address
    ≡ invites_user (text "bob") (text "acme.example.com")
unfolding handle_invite comcent_ce.Forward.too_many_hops comcent_ce.Sip.first
    comcent_ce.Common.text_eq has_suffix
to_a_user = refl

to_a_trunk :
    handle_invite sipgo (text "example.com") true first_invite carol_address
    ≡ invites_trunk (text "4930")
unfolding handle_invite comcent_ce.Forward.too_many_hops comcent_ce.Sip.first
    comcent_ce.Common.text_eq has_suffix
to_a_trunk = refl

in_dialog :
    handle_invite sipgo (text "example.com") true first_invite alice_address ≡ relays_in_dialog
unfolding handle_invite comcent_ce.Forward.too_many_hops comcent_ce.Sip.first
    comcent_ce.Common.text_eq
in_dialog = refl

abbrev after : Calls
after =
    (handle_invite_to_fs networks sipgo mark addresses ports proxy minute unreachable
      (answer 200 (some office_trunk)) (text "n") 0 [] [] first_invite carol_address bob_address
      (text "c1") (text "203.0.113.7") true []).2.0

one_transaction : length after.active ≡ 1
unfolding handle_invite_to_fs comcent_ce.Proxy.Incoming.if_authenticated
    comcent_ce.Proxy.Access.authenticate_external trunk_number has_suffix comcent_ce.Common.text_eq
    get_sip_trunk comcent_ce.Common.lookup new_api comcent_ce.Api.Trunks.is_ip_allowed
    comcent_ce.Go.Strings.has_prefix comcent_ce.Go.Strings.contains_byte
    comcent_ce.Proxy.Calls.invite_to_fs comcent_ce.Proxy.Affinity.select_target_for_users
    comcent_ce.Proxy.Affinity.comcent_users comcent_ce.Dispatcher.select_target
    comcent_ce.Forward.build_forward comcent_ce.Sip.first comcent_ce.Common.store
one_transaction = refl

has_transaction : after.active ≢ []
has_transaction e = omega (arith, one_transaction, ap (λ (l : Dict Request). length l) e)

handle_invite_to_fs-authentic_example :
    if has_suffix carol_address.uri.host (text "example.com")
    then FitsPassword networks sipgo mark first_invite
        (get_user_password networks proxy.api minute
          (carol_address.uri.user ++ (b'@' ∷ carol_address.uri.host))
          unreachable).1
    else FitsTrunk networks sipgo mark
        (text "203.0.113.7")
        (get_sip_trunk networks proxy.api minute
          (trunk_number networks proxy (text "c1") (text "bob"))
          (answer 200 (some office_trunk))).1
handle_invite_to_fs-authentic_example =
    handle_invite_to_fs-authentic networks sipgo mark addresses ports proxy minute unreachable
      (answer 200 (some office_trunk)) (text "n") 0 [] [] first_invite carol_address bob_address
      (text "c1") (text "203.0.113.7") true [] (inr (inl has_transaction))
