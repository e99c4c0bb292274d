-- ===== src/Proxy/Dialog/Tests.antt =====
-- sbc/proxy.go: a BYE of a user, answered by FreeSWITCH.
use comcent_ce.Common.{
  ◌≡◌, refl, true, false, ◌&&◌, [], ◌∷◌, none, some, text, text_eq, lookup, if◌then◌else◌,
}
use comcent_ce.Fixtures.{alice, home, first_invite, sipgo}
use comcent_ce.Sip.{Request, Response, bye}
use comcent_ce.Forward.Route.{RouteConfig}
use comcent_ce.Proxy.Calls.{CallState, Calls}
use comcent_ce.Proxy.Dialog.{Dialog, relay_in_dialog}
use comcent_ce.Proxy.Dialog.Hangup.{hangs_up, calls-relay_in_dialog}

abbrev addresses : RouteConfig
addresses = record { public_ip = text "203.0.113.1"; private_ip = text "10.0.0.9" }

abbrev talking : CallState
talking = record {
  fs_addr = text "10.0.0.1:5070";
  fs_uri = text "sip:10.0.0.1:5070";
  user_addr = home;
  user_uri = text "sip:alice@10.0.0.5:5060";
  user_aors = alice ∷ [];
  is_webrtc = false;
  spoofed_user = [];
  fs_cseq_offset = 0;
}

abbrev one_call : Calls
one_call = record {
  calls = (text "c1", talking) ∷ (text "c2", talking) ∷ [];
  active = [];
  affinity = (alice, (text "c1", text "10.0.0.1:5070") ∷ []) ∷ [];
}

abbrev hangup : Request
hangup = record first_invite { method = bye }

abbrev accepted : Response
accepted = record { status = 200; reason = text "OK"; headers = []; body = []; destination = [] }

hangup_ends :
    lookup
      (text "c1")
      (relay_in_dialog sipgo hangup addresses one_call [] false
        (true, [])
        (text "c1")
        (some accepted)).table.calls
    ≡ none
unfolding relay_in_dialog lookup text_eq comcent_ce.Proxy.Calls.dialog_to_fs
    comcent_ce.Forward.build_in_dialog comcent_ce.Sip.first comcent_ce.Proxy.Dialog.cleanup_call
    comcent_ce.Common.delete
hangup_ends = refl

-- The FreeSWITCH that has restarted does not know the call.
abbrev unknown : Response
unknown = record accepted { status = 481 }

abbrev after : Dialog
after =
    relay_in_dialog sipgo hangup addresses one_call [] false (true, []) (text "c1") (some unknown)

calls-relay_in_dialog_example : lookup (text "c1") after.table.calls ≡ (
    if text_eq (text "c1") (text "c1") && hangs_up hangup.method (some unknown) after.forwarded
    then none
    else lookup (text "c1") one_call.calls)
calls-relay_in_dialog_example =
    calls-relay_in_dialog sipgo hangup addresses one_call [] false (true, []) (text "c1")
      (text "c1") (some unknown)
