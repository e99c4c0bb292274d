-- ===== src/Proxy/Calls/Tests.antt =====
-- sbc/proxy.go: a call that is answered, and one that is not.
use comcent_ce.Common.{
  ℕ, ◌≡◌, inl, inr, refl, Bool, true, false, List, [], ◌∷◌, Option, none, some, Text, text, In,
  get_elem?, lookup,
}
use comcent_ce.Fixtures.{addresses, ports, alice, alice_address, bob_address, first_invite, sipgo}
use comcent_ce.Sip.{Request, Response, generic_header}
use comcent_ce.Contact.Targets.{strip_sip_prefix}
use comcent_ce.Forward.{Ports, too_many_hops}
use comcent_ce.Dispatcher.{Dispatcher}
use comcent_ce.Proxy.Affinity.{comcent_users, select_target_for_users}
use comcent_ce.Proxy.Calls.{
  Calls, Event, responds, done, Status, waiting, ended, Trace, is_success, invite_to_fs, handle_ack,
}
use comcent_ce.Proxy.Calls.Recorded.{invite_to_fs-acknowledged}
use comcent_ce.Proxy.Calls.Settled.{Settled, invite_to_fs-Settled}

abbrev dispatcher : Dispatcher
dispatcher = record {
  targets = text "sip:10.0.0.1:5070" ∷ text "sip:10.0.0.2:5070" ∷ [];
  counter = 0;
}

abbrev no_calls : Calls
no_calls = record { calls = []; active = []; affinity = [] }

abbrev answer : ℕ → Response
answer status = record {
  status = status;
  reason = text "OK";
  headers = generic_header (text "Contact") (text "<sip:bob@10.0.0.2:5070>") ∷ [];
  body = [];
  destination = [];
}

abbrev ringing_then_answered : List Event
ringing_then_answered = responds (answer 180) ∷ responds (answer 200) ∷ []

abbrev unanswered : List Event
unanswered = responds (answer 180) ∷ done true ∷ []

abbrev run : List Event → Trace
run events =
    (invite_to_fs sipgo addresses ports (text "example.com") 0 dispatcher no_calls first_invite
      alice_address bob_address (text "c1") true events).1

abbrev third : Calls × Response
third = elim (get_elem? (run ringing_then_answered).1 2) [
  | none ↦ (no_calls, answer 500)
  | some sent ↦ sent
]

abbrev its_ack : Request
its_ack = record first_invite { method = text "ACK" }

statuses : (run ringing_then_answered).2 ≡ ended true
unfolding invite_to_fs select_target_for_users comcent_users comcent_ce.Common.text_eq
    comcent_ce.Go.Strings.has_suffix lookup comcent_ce.Dispatcher.select_target
    comcent_ce.Forward.build_forward comcent_ce.Sip.first
statuses = refl

third_sent :
    In
      (third.0, third.1)
      (invite_to_fs sipgo addresses ports
        (text "example.com")
        0
        dispatcher
        no_calls
        first_invite
        alice_address
        bob_address
        (text "c1")
        true
        ringing_then_answered).1.1
unfolding invite_to_fs select_target_for_users comcent_users comcent_ce.Common.text_eq
    comcent_ce.Go.Strings.has_suffix lookup comcent_ce.Dispatcher.select_target
    comcent_ce.Forward.build_forward comcent_ce.Sip.first
third_sent = inr (inr (inl refl))

third_succeeds : is_success third.1.status ≡ true
unfolding invite_to_fs select_target_for_users comcent_users comcent_ce.Common.text_eq
    comcent_ce.Go.Strings.has_suffix lookup comcent_ce.Dispatcher.select_target
    comcent_ce.Forward.build_forward comcent_ce.Sip.first comcent_ce.Proxy.Calls.relay_response
third_succeeds = refl

its_ack_hops : too_many_hops its_ack ≡ false
unfolding too_many_hops comcent_ce.Sip.first
its_ack_hops = refl

invite_to_fs-acknowledged_example :
    (target : Text) × ((select_target_for_users 0 no_calls.affinity dispatcher
        (comcent_users (text "example.com") alice_address.uri bob_address.uri)).1
      ≡ some target)
    × (fwd : Request) × (handle_ack sipgo addresses third.0 false (text "c1") its_ack ≡ some fwd)
    × (fwd.destination ≡ strip_sip_prefix target)
invite_to_fs-acknowledged_example =
    invite_to_fs-acknowledged sipgo addresses ports (text "example.com") 0 dispatcher no_calls
      first_invite alice_address bob_address (text "c1") true ringing_then_answered third.0 third.1
      its_ack (λ q n reason body. refl) third_sent third_succeeds its_ack_hops

invite_to_fs-Settled_example : Settled (text "c1") alice (run unanswered)
unfolding lookup comcent_ce.Proxy.Affinity.calls_of
invite_to_fs-Settled_example =
    invite_to_fs-Settled sipgo addresses ports (text "example.com") 0 dispatcher no_calls
      first_invite alice_address bob_address (text "c1") true unanswered alice refl
