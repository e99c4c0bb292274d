-- ===== src/Proxy/Isolation/Tests.antt =====
-- sbc/proxy.go: a call while another one is set up and ended.
use mathlib.Core.Bool.{true≢false}
use comcent_ce.Common.{
  ◌≡◌, ◌≢◌, sym, true, List, [], ◌∷◌, Option, none, some, Text, text, text_eq, text_eq_iff,
}
use comcent_ce.Fixtures.{
  addresses, ports, alice_address, bob_address, first_invite, sipgo, networks,
}
use comcent_ce.Sip.{Request, Response, bye}
use comcent_ce.Dispatcher.{Dispatcher}
use comcent_ce.Proxy.Calls.{Calls, responds, invite_to_fs, handle_ack}
use comcent_ce.Proxy.Cancel.{cancel_outgoing}
use comcent_ce.Proxy.Dialog.{relay_in_dialog}
use comcent_ce.Proxy.Isolation.Others.{
  Meanwhile, quiet, another, invites_fs, relays_in_dialog, Meanwhile-undisturbed,
}

abbrev dispatcher : Dispatcher
dispatcher = record { targets = text "sip:10.0.0.1:5070" ∷ []; counter = 0 }

abbrev no_calls : Calls
no_calls = record { calls = []; active = []; affinity = [] }

abbrev answer : Response
answer = record { status = 200; reason = text "OK"; headers = []; body = []; destination = [] }

-- The tables with a call.
abbrev with_call : Text → Calls → Calls
with_call id s =
    (invite_to_fs sipgo addresses ports (text "example.com") 0 dispatcher s first_invite
      alice_address bob_address id true (responds answer ∷ [])).1.0

abbrev first_call : Calls
first_call = with_call (text "c1") no_calls

abbrev second_call : Calls
second_call = with_call (text "c2") first_call

abbrev hangup : Request
hangup = record first_invite { method = bye }

abbrev after_second : Calls
after_second =
    (relay_in_dialog sipgo hangup addresses second_call [] true (true, []) (text "c2")
      (some answer)).table

differ : text "c2" ≢ text "c1"
unfolding text_eq
differ e = absurd (true≢false (sym ((text_eq_iff (text "c2") (text "c1")).1 e)))

no_digest : Request → Response → Text → Text → Option Response
no_digest req resp user pass = none

no_host : Text → List Text
no_host name = []

second_passes :
    Meanwhile networks sipgo no_digest no_host addresses ports (text "c1") first_call after_second
second_passes =
    another
      (another quiet differ (
        invites_fs first_call (text "example.com") 0 dispatcher first_invite alice_address
          bob_address true (responds answer ∷ [])))
      differ (relays_in_dialog second_call hangup [] true (true, []) (some answer))

Meanwhile-undisturbed_example :
    let before =
      relay_in_dialog sipgo hangup addresses first_call [] true
        (true, [])
        (text "c1")
        (some answer) in
    let after =
      relay_in_dialog sipgo hangup addresses after_second [] true
        (true, [])
        (text "c1")
        (some answer) in
    (handle_ack sipgo addresses after_second true (text "c1") hangup
      ≡ handle_ack sipgo addresses first_call true (text "c1") hangup)
    × (cancel_outgoing after_second (text "c1") ≡ cancel_outgoing first_call (text "c1"))
    × (after.forwarded ≡ before.forwarded)
    × (after.responses ≡ before.responses)
Meanwhile-undisturbed_example =
    Meanwhile-undisturbed networks sipgo no_digest no_host addresses ports (text "c1") first_call
      after_second hangup true [] (true, []) (some answer) second_passes
