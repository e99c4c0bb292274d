-- ===== src/Proxy/Trunk/Tests.antt =====
-- sbc/proxy.go: a call of FreeSWITCH to a trunk that asks for credentials.
use comcent_ce.Common.{
  ℕ, ◌≡◌, inl, inr, refl, Bool, true, false, List, [], ◌∷◌, ◌++◌, Option, none, some, Text, text,
  In, arith, get_elem?, lookup, text_eq,
}
use mathlib.Core.Path.{subst}
use mathlib.Core.Option.{some-injective}
use comcent_ce.Common.Int.{pos}
use comcent_ce.Fixtures.{addresses, ports, alice_address, first_invite, sipgo, networks}
use comcent_ce.Sip.{Request, Response, cseq_header, cseq_number, generic_header}
use comcent_ce.Contact.Targets.{resolve_host}
use comcent_ce.Forward.{Ports}
use comcent_ce.Api.{answer, TrunkData, found, new_api, get_sip_trunk}
use comcent_ce.Proxy.{Proxy}
use comcent_ce.Proxy.Access.{trunk_number}
use comcent_ce.Proxy.Calls.{Calls, Event, responds, ended, is_success}
use comcent_ce.Proxy.Cancel.{cancel_outgoing}
use comcent_ce.Proxy.Trunk.{Outbound, Action, replies, authenticates, Trace, invite_to_trunk}
use comcent_ce.Proxy.Trunk.Spoofed.{cached, spoofed_in, invite_to_trunk-trunk_number}
use comcent_ce.Proxy.Trunk.Recorded.{CountsUp, IsRetried, IsAcknowledged}
use comcent_ce.Proxy.Trunk.Acknowledged.{
  IsAckOf, invite_to_trunk-IsAcknowledged, invite_to_trunk-uncancelled,
}

abbrev number : Text
number = text "15550001"

abbrev trunk : TrunkData
trunk = record {
  inbound_ips = [];
  outbound_contact = text "pstn.example.net:5080";
  outbound_user = text "acme";
  outbound_pass = text "secret";
}

abbrev hosts : Text → List Text
hosts host = text "192.0.2.40" ∷ []

-- FreeSWITCH's INVITE, with the number of the trunk.
abbrev to_trunk : Request
to_trunk = record first_invite {
  headers = generic_header (text "X-Trunk-Number") number ∷ first_invite.headers;
  source = text "10.0.0.1:5070";
}

abbrev response : ℕ → ℕ → Response
response status cseq = record {
  status = status;
  reason = text "Reason";
  headers = cseq_header cseq (text "INVITE") ∷ [];
  body = [];
  destination = [];
}

abbrev digest : Request → Response → Text → Text → Option Response
digest q challenge user pass = some (response 200 13)

abbrev challenged : List Event
challenged = responds (response 183 12) ∷ responds (response 407 12) ∷ []

abbrev idle : Outbound
idle = record { table = record { calls = []; active = []; affinity = [] }; spoof_cache = [] }

abbrev run : Trace
run =
    (invite_to_trunk networks sipgo digest hosts addresses ports (new_api networks) 10
      (answer 200 (some trunk)) to_trunk (text "c1") (text "bob") true challenged idle).1

abbrev sent : Calls × Response
sent = elim (get_elem? run.1 3) [ some (replies t r) ↦ (t, r) | _ ↦ (idle.table, response 500 0) ]

abbrev retried : Calls
retried = elim (get_elem? run.1 2) [ some (authenticates t c) ↦ t | _ ↦ idle.table ]

abbrev after : Proxy networks
after = record {
  settings = record { sip_user_root_domain = text "example.com"; nat_max_expires = pos 600 };
  reg = record { contacts = [] };
  api = new_api networks;
  dispatcher = record { targets = []; counter = 0 };
  ban = none;
  rejected = record { ids = []; last_sweep = 0 };
  spoof_cache = run.0.spoof_cache;
  affinity = [];
}

counts_up : CountsUp digest 12
unfolding comcent_ce.Sip.first
counts_up q challenge user pass a e = (
  13,
  subst (λ (r : Response). cseq_number r.headers ≡ some 13) (some-injective _ _ e) refl,
  omega arith,
  omega arith,
)

established : run.2 ≡ ended true
unfolding invite_to_trunk comcent_ce.Sip.get_header comcent_ce.Go.Strings.equal_fold
    comcent_ce.Proxy.Trunk.on_trunk get_sip_trunk lookup new_api comcent_ce.Forward.build_forward
    comcent_ce.Sip.first comcent_ce.Proxy.Trunk.on_challenge comcent_ce.Proxy.Trunk.on_digest
established = refl

answer_sent : In (replies sent.0 sent.1) run.1
unfolding invite_to_trunk comcent_ce.Sip.get_header comcent_ce.Go.Strings.equal_fold
    comcent_ce.Proxy.Trunk.on_trunk get_sip_trunk lookup new_api comcent_ce.Forward.build_forward
    comcent_ce.Sip.first comcent_ce.Proxy.Trunk.on_challenge comcent_ce.Proxy.Trunk.on_digest
answer_sent = inr (inr (inr (inl refl)))

answer_succeeds : is_success sent.1.status ≡ true
unfolding invite_to_trunk comcent_ce.Sip.get_header comcent_ce.Go.Strings.equal_fold
    comcent_ce.Proxy.Trunk.on_trunk get_sip_trunk lookup new_api comcent_ce.Forward.build_forward
    comcent_ce.Sip.first comcent_ce.Proxy.Trunk.on_challenge comcent_ce.Proxy.Trunk.on_digest
    comcent_ce.Proxy.Fork.relayed_response
answer_succeeds = refl

its_ack : IsAckOf to_trunk to_trunk 12
unfolding comcent_ce.Sip.first comcent_ce.Forward.too_many_hops
its_ack = (refl, refl, refl)

trunk_found :
    (get_sip_trunk networks (new_api networks) 10 number (answer 200 (some trunk))).1 ≡ found trunk
unfolding get_sip_trunk lookup new_api
trunk_found = refl

no_entry : cached (text "c1") (spoofed_in to_trunk number) idle.spoof_cache ≡ none
unfolding comcent_ce.Common.text_eq comcent_ce.Proxy.Trunk.spoofed_user_of comcent_ce.Sip.first
    lookup
no_entry = refl

retry : In (authenticates retried (response 407 12)) run.1
unfolding invite_to_trunk comcent_ce.Sip.get_header comcent_ce.Go.Strings.equal_fold
    comcent_ce.Proxy.Trunk.on_trunk get_sip_trunk lookup new_api comcent_ce.Forward.build_forward
    comcent_ce.Sip.first comcent_ce.Proxy.Trunk.on_challenge comcent_ce.Proxy.Trunk.on_digest
retry = inr (inr (inl refl))

-- The user is not empty.
names_user : text_eq alice_address.uri.user [] ≡ false
unfolding text_eq
names_user = refl

invite_to_trunk-IsAcknowledged_example :
    IsAcknowledged sipgo addresses to_trunk
      (text "c1")
      sent.0
      sent.1
      to_trunk
      12
      (resolve_host hosts trunk.outbound_contact)
      challenged
      (IsRetried digest trunk.outbound_user trunk.outbound_pass challenged)
unfolding comcent_ce.Sip.get_header comcent_ce.Go.Strings.equal_fold
invite_to_trunk-IsAcknowledged_example =
    invite_to_trunk-IsAcknowledged networks sipgo digest hosts addresses ports (new_api networks) 10
      (answer 200 (some trunk)) to_trunk to_trunk (text "c1") (text "bob") number true challenged
      idle trunk 12 sent.0 sent.1 (λ q n reason body. refl) counts_up its_ack refl trunk_found
      answer_sent answer_succeeds

invite_to_trunk-uncancelled_example : cancel_outgoing retried (text "c1") ≡ none
invite_to_trunk-uncancelled_example =
    invite_to_trunk-uncancelled networks sipgo digest hosts addresses ports (new_api networks) 10
      (answer 200 (some trunk)) to_trunk (text "c1") (text "bob") true challenged idle retried
      (response 407 12) (λ q n reason body. refl) retry

invite_to_trunk-trunk_number_example :
    trunk_number networks after (text "c1") alice_address.uri.user ≡ number
unfolding comcent_ce.Sip.get_header comcent_ce.Go.Strings.equal_fold comcent_ce.Sip.first lookup
invite_to_trunk-trunk_number_example =
    invite_to_trunk-trunk_number networks sipgo digest hosts addresses ports (new_api networks) 10
      (answer 200 (some trunk)) to_trunk alice_address (text "c1") (text "bob") number true
      challenged idle after refl refl names_user refl established refl
