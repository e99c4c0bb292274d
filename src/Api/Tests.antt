-- ===== src/Api/Tests.antt =====
-- sbc/api.go: runs of the caches.
use comcent_ce.Common.{◌≡◌, refl, true, [], ◌∷◌, some, text, lookup}
use comcent_ce.Clock.{minute}
use comcent_ce.Fixtures.{networks}
use comcent_ce.Api.{answer, TrunkData, Api, new_api, get_sip_trunk, is_trunk_ip}
use comcent_ce.Api.Trunks.{is_ip_allowed, is_trunk_ip-get_sip_trunk}

abbrev caches : Api networks
caches = new_api networks

abbrev office_trunk : TrunkData
office_trunk = record {
  inbound_ips = text "192.0.2." ∷ [];
  outbound_contact = text "192.0.2.9:5060";
  outbound_user = text "acme";
  outbound_pass = text "pw";
}

trunk_ip_known :
    is_trunk_ip networks
      (get_sip_trunk networks caches minute (text "4930") (answer 200 (some office_trunk))).0
      (text "192.0.2.33")
    ≡ true
unfolding new_api is_ip_allowed lookup comcent_ce.Go.Strings.contains_byte
    comcent_ce.Go.Strings.has_prefix
trunk_ip_known =
    is_trunk_ip-get_sip_trunk networks caches minute (text "4930") (text "192.0.2.33") office_trunk
      refl tt refl
