-- ===== src/Proxy/Fork/Tests.antt =====
-- sbc/proxy.go: calls of FreeSWITCH to a user with two phones.
use comcent_ce.Common.{
  ℕ, ◌≡◌, ◌≤◌, ◌↔◌, inl, inr, refl, Bool, true, false, List, [], ◌∷◌, ◌++◌, Option, none, some,
  Text, text, In, arith, length, get_elem?, lookup, All,
}
use comcent_ce.Fixtures.{addresses, ports, alice, office, phone, first_invite, sipgo}
use comcent_ce.Sip.{Request, Response, generic_header}
use comcent_ce.Contact.Targets.{is_webrtc_sdp}
use comcent_ce.Forward.{Ports, too_many_hops}
use comcent_ce.Registrar.{lookup_by_type}
use comcent_ce.Registrar.Contacts.{Contact}
use comcent_ce.Proxy.Calls.{Calls, waiting, ended, is_success, handle_ack}
use comcent_ce.Proxy.Fork.{
  Branch, Report, answered, withdrawn, Result, Action, replies, Shared, Trace, prepare,
  invite_to_user,
}
use comcent_ce.Proxy.Fork.Answer.{AnswersOnce, invite_to_user-AnswersOnce}
use comcent_ce.Proxy.Fork.Ended.{last_reports, HasEnded, invite_to_user-HasEnded}
use comcent_ce.Proxy.Fork.Best.{
  refusals, NoneSettles, IsBest, ConcludesWith, invite_to_user-ConcludesWith,
}
use comcent_ce.Proxy.Fork.Recorded.{NameBranches}
use comcent_ce.Proxy.Fork.CalledOff.{cancelled, taken, CallsOff}
use comcent_ce.Proxy.Fork.Matching.{IsForBranch, CancelsOwn, invite_to_user-Matches}
use comcent_ce.Proxy.Fork.Siblings.{invite_to_user-cancelled}
use comcent_ce.Proxy.Fork.Settled.{Settled, invite_to_user-acknowledged, invite_to_user-Settled}

abbrev desk : Contact
desk = record phone { address = office }

abbrev two_phones : Shared
two_phones = record {
  table = record { calls = []; active = []; affinity = [] };
  reg = record { contacts = (alice, phone ∷ desk ∷ []) ∷ [] };
}

abbrev fs_invite : Request
fs_invite = record first_invite { source = text "10.0.0.1:5070" }

abbrev answer : ℕ → Response
answer status = record {
  status = status;
  reason = text "Reason";
  headers = [];
  body = [];
  destination = [];
}

abbrev result : ℕ → Report → Result
result i report = record { idx = i; report = report; is_open = λ j. true }

-- One phone is busy, then the other answers.
abbrev one_answers : List Result
one_answers =
    result 0 (answered (answer 180))
    ∷ result 0 (answered (answer 486))
    ∷ result 1 (answered (answer 200))
    ∷ []

-- One phone is busy and the other is not there.
abbrev none_answers : List Result
none_answers = result 0 (answered (answer 486)) ∷ result 1 (answered (answer 404)) ∷ []

abbrev run : List Result → Trace
run results =
    invite_to_user sipgo addresses ports 10 fs_invite (text "c1") (text "alice")
      (text "acme.example.com") results two_phones

abbrev branches : ℕ
branches = length (
    prepare sipgo fs_invite addresses ports (text "alice") (text "acme.example.com")
      (lookup_by_type two_phones.reg 10 alice (is_webrtc_sdp fs_invite.body)))

abbrev started : List Branch
started =
    prepare sipgo fs_invite addresses ports (text "alice") (text "acme.example.com")
      (lookup_by_type two_phones.reg 10 alice (is_webrtc_sdp fs_invite.body))

-- FreeSWITCH cancels while both phones ring.
abbrev given_up : List Result
given_up =
    result 0 (answered (answer 180))
    ∷ result 0 withdrawn
    ∷ result 0 (answered (answer 487))
    ∷ result 1 (answered (answer 487))
    ∷ []

-- As long as none has answered the CANCEL.
abbrev giving_up : List Result
giving_up = result 0 (answered (answer 180)) ∷ result 0 withdrawn ∷ []

-- The CANCEL of the second phone.
abbrev withdrawal : Request
withdrawal = elim (get_elem? (cancelled (run given_up).1) 1) [ some c ↦ c | none ↦ fs_invite ]

abbrev sent : Calls × Response
sent = elim (get_elem? (run one_answers).1 2) [
  | some (replies t r) ↦ (t, r)
  | _ ↦ (two_phones.table, answer 500)
]

established : (run one_answers).2 ≡ ended true
unfolding invite_to_user lookup_by_type lookup comcent_ce.Common.text_eq is_webrtc_sdp
    comcent_ce.Go.Strings.contains comcent_ce.Forward.build_forward comcent_ce.Sip.first
    comcent_ce.Proxy.Fork.kind_of
established = refl

two_branches : branches ≡ 2
unfolding prepare lookup_by_type lookup comcent_ce.Common.text_eq is_webrtc_sdp
    comcent_ce.Go.Strings.contains comcent_ce.Forward.build_forward comcent_ce.Sip.first
two_branches = refl

answer_sent : In (replies sent.0 sent.1) (run one_answers).1
unfolding invite_to_user lookup_by_type lookup comcent_ce.Common.text_eq is_webrtc_sdp
    comcent_ce.Go.Strings.contains comcent_ce.Forward.build_forward comcent_ce.Sip.first
    comcent_ce.Proxy.Fork.kind_of
answer_sent = inr (inr (inl refl))

answer_succeeds : is_success sent.1.status ≡ true
unfolding invite_to_user lookup_by_type lookup comcent_ce.Common.text_eq is_webrtc_sdp
    comcent_ce.Go.Strings.contains comcent_ce.Forward.build_forward comcent_ce.Sip.first
    comcent_ce.Proxy.Fork.kind_of comcent_ce.Proxy.Fork.relayed_response
answer_succeeds = refl

its_ack_hops : too_many_hops fs_invite ≡ false
unfolding too_many_hops comcent_ce.Sip.first
its_ack_hops = refl

named : NameBranches branches one_answers
named = rw two_branches (omega arith, (omega arith, (omega arith, tt)))

named_refusals : NameBranches branches none_answers
named_refusals = rw two_branches (omega arith, (omega arith, tt))

two_contacts :
    length (lookup_by_type two_phones.reg 10 alice (is_webrtc_sdp fs_invite.body))
    ≤ last_reports none_answers
unfolding lookup_by_type lookup comcent_ce.Common.text_eq is_webrtc_sdp
    comcent_ce.Go.Strings.contains
two_contacts = omega arith

both_report : branches ≡ last_reports none_answers
both_report = two_branches

no_answer : NoneSettles none_answers
unfolding comcent_ce.Proxy.Fork.kind_of
no_answer = (refl, (refl, tt))

invite_to_user-AnswersOnce_example : AnswersOnce (run one_answers)
invite_to_user-AnswersOnce_example =
    invite_to_user-AnswersOnce sipgo addresses ports 10 fs_invite (text "c1") (text "alice")
      (text "acme.example.com") one_answers two_phones (λ q n reason body. refl)

invite_to_user-HasEnded_example : HasEnded (run none_answers)
invite_to_user-HasEnded_example =
    invite_to_user-HasEnded sipgo addresses ports 10 fs_invite (text "c1") (text "alice")
      (text "acme.example.com") none_answers two_phones two_contacts

invite_to_user-ConcludesWith_example :
    (o : Option Response) × IsBest o (refusals none_answers)
    × ConcludesWith sipgo fs_invite (text "c1") alice o (run none_answers)
invite_to_user-ConcludesWith_example =
    invite_to_user-ConcludesWith sipgo addresses ports 10 fs_invite (text "c1") (text "alice")
      (text "acme.example.com") none_answers two_phones both_report no_answer

invite_to_user-acknowledged_example :
    (c : Contact) × In c (lookup_by_type two_phones.reg 10 alice (is_webrtc_sdp fs_invite.body))
    × (fwd : Request) × (handle_ack sipgo addresses sent.0 true (text "c1") fs_invite ≡ some fwd)
    × (fwd.destination ≡ c.address)
invite_to_user-acknowledged_example =
    invite_to_user-acknowledged sipgo addresses ports 10 fs_invite (text "c1") (text "alice")
      (text "acme.example.com") one_answers two_phones sent.0 sent.1 fs_invite
      (λ q n reason body. refl) named answer_sent answer_succeeds its_ack_hops

invite_to_user-Settled_example :
    Settled sipgo fs_invite
      (text "c1")
      alice
      alice
      (lookup_by_type two_phones.reg 10 alice (is_webrtc_sdp fs_invite.body))
      (run none_answers)
unfolding lookup comcent_ce.Proxy.Affinity.calls_of
invite_to_user-Settled_example =
    invite_to_user-Settled sipgo addresses ports 10 fs_invite (text "c1") (text "alice")
      (text "acme.example.com") alice none_answers two_phones (λ q n reason body. refl)
      named_refusals refl refl

phone_cancelled : In withdrawal (cancelled (run given_up).1)
unfolding invite_to_user lookup_by_type lookup comcent_ce.Common.text_eq is_webrtc_sdp
    comcent_ce.Go.Strings.contains comcent_ce.Forward.build_forward comcent_ce.Sip.first
    comcent_ce.Proxy.Fork.kind_of comcent_ce.Proxy.Fork.cancel_branches
phone_cancelled = inr (inl refl)

invite_to_user-cancelled_example :
    In withdrawal (cancelled (run given_up).1)
    ↔ ((r : Result) × In r (taken given_up (length started)) × CallsOff started r withdrawal)
invite_to_user-cancelled_example =
    invite_to_user-cancelled sipgo addresses ports 10 fs_invite (text "c1") (text "alice")
      (text "acme.example.com") given_up two_phones withdrawal

still_waiting : (run giving_up).2 ≡ waiting
unfolding invite_to_user lookup_by_type lookup comcent_ce.Common.text_eq is_webrtc_sdp
    comcent_ce.Go.Strings.contains comcent_ce.Forward.build_forward comcent_ce.Sip.first
    comcent_ce.Proxy.Fork.kind_of
still_waiting = refl

invite_to_user-Matches_example :
    All (IsForBranch started) (cancelled (run giving_up).1)
    × CancelsOwn (text "c1") fs_invite (run giving_up)
unfolding lookup
invite_to_user-Matches_example =
    invite_to_user-Matches sipgo addresses ports 10 fs_invite (text "c1") (text "alice")
      (text "acme.example.com") giving_up two_phones refl
