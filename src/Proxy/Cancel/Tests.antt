-- ===== src/Proxy/Cancel/Tests.antt =====
-- sbc/proxy.go: a call that is cancelled while it rings.
use comcent_ce.Common.{
  ℕ, ◌≡◌, refl, Bool, true, false, List, [], ◌∷◌, Option, none, some, Text, text, lookup,
}
use comcent_ce.Fixtures.{addresses, ports, alice_address, bob_address, first_invite, sipgo}
use comcent_ce.Sip.{Request, Response, generic_header}
use comcent_ce.Forward.{Ports}
use comcent_ce.Dispatcher.{Dispatcher}
use comcent_ce.Proxy.Affinity.{comcent_users, select_target_for_users}
use comcent_ce.Proxy.Calls.{Calls, responds, waiting, Trace, invite_to_fs}
use comcent_ce.Proxy.Cancel.{handle_cancel}
use comcent_ce.Proxy.Cancel.Propagated.{Cancels, invite_to_fs-Cancels}

abbrev dispatcher : Dispatcher
dispatcher = record { targets = text "sip:10.0.0.1:5070" ∷ []; counter = 0 }

abbrev no_calls : Calls
no_calls = record { calls = []; active = []; affinity = [] }

abbrev ringing : Response
ringing = record {
  status = 180;
  reason = text "Ringing";
  headers = [];
  body = [];
  destination = [];
}

abbrev run : Trace
run =
    (invite_to_fs sipgo addresses ports (text "example.com") 0 dispatcher no_calls first_invite
      alice_address bob_address (text "c1") true (responds ringing ∷ [])).1

rings : run.2 ≡ waiting
unfolding invite_to_fs select_target_for_users comcent_users comcent_ce.Common.text_eq
    comcent_ce.Go.Strings.has_suffix lookup comcent_ce.Dispatcher.select_target
    comcent_ce.Forward.build_forward comcent_ce.Sip.first
rings = refl

-- A stranger's CANCEL is refused.
refused :
    handle_cancel sipgo no_calls false (false, ringing ∷ []) (text "c1") first_invite
    ≡ (ringing ∷ [], none)
unfolding handle_cancel comcent_ce.Forward.too_many_hops comcent_ce.Sip.first
refused = refl

invite_to_fs-Cancels_example :
    Cancels
      (text "c1")
      (select_target_for_users 0 no_calls.affinity dispatcher
        (comcent_users (text "example.com") alice_address.uri bob_address.uri)).1
      run
unfolding lookup
invite_to_fs-Cancels_example =
    invite_to_fs-Cancels sipgo addresses ports (text "example.com") 0 dispatcher no_calls
      first_invite alice_address bob_address (text "c1") true (responds ringing ∷ []) refl
