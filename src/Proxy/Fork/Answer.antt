-- ===== src/Proxy/Fork/Answer.antt =====
-- sbc/proxy.go: the responses that FreeSWITCH gets to its INVITE to a user.
use comcent_ce.Common.{
  ℕ, zero, suc, ◌+◌, ◌≡◌, refl, ◌∙◌, inl, inr, Bool, true, false, List, [], ◌∷◌, ◌++◌, Option, none,
  some, arith, Text, text, length, leb, if◌then◌else◌, Bool-cases,
}
use comcent_ce.Sip.{Sipgo, Request, Response}
use comcent_ce.Contact.Targets.{is_webrtc_sdp}
use comcent_ce.Registrar.{lookup_by_type}
use comcent_ce.Registrar.Contacts.{Contact}
use comcent_ce.Forward.{Ports}
use comcent_ce.Forward.Route.{RouteConfig}
use comcent_ce.Proxy.Calls.{Calls, waiting, ended}
use comcent_ce.Proxy.Calls.Recorded.{KeepsStatus}
use comcent_ce.Proxy.Fork.Relayed.{status-relayed_response, kind_final}
use comcent_ce.Proxy.Fork.{
  Branch, Report, answered, errored, nothing, withdrawn, Result, Action, replies, cancels, lapses,
  Shared, Trace, before_trace, Kind, trying, provisional, declined, succeeded, refused, kind_of,
  better, before_all, cancel_branches, is_sibling, plain, relayed_response, on_response, on_report,
  conclude, gather, leave, prepare, saved, fork, fork_contacts, invite_to_user,
}

-- How many final responses were sent.
abbrev finals_sent : List Action → ℕ
finals_sent [] = 0
finals_sent (replies t r ∷ acts) =
    let rest = finals_sent acts in if leb 200 r.status then suc rest else rest
finals_sent (cancels c ∷ acts) = finals_sent acts
finals_sent (lapses aor ∷ acts) = finals_sent acts

-- One when the handler has returned, and none before.
abbrev pub AnswersOnce : Trace → Type 0
AnswersOnce (s, acts, waiting) = finals_sent acts ≡ 0
AnswersOnce (s, acts, ended established) = finals_sent acts ≡ 1

finals-branches :
    (chosen : ℕ → Bool) (i : ℕ) (bs : List Branch) → finals_sent (cancel_branches chosen i bs) ≡ 0
unfolding cancel_branches
finals-branches chosen i [] = refl
finals-branches chosen i (b ∷ bs) = ground (arith, finals-branches chosen (suc i) bs)

finals-append : (xs ys : List Action) → finals_sent (xs ++ ys) ≡ finals_sent xs + finals_sent ys
finals-append [] ys = omega arith
finals-append (replies t r ∷ xs) ys = ground (arith, finals-append xs ys)
finals-append (cancels c ∷ xs) ys = finals-append xs ys
finals-append (lapses aor ∷ xs) ys = finals-append xs ys

before_all-AnswersOnce :
    (acts : List Action) (t : Trace)
    → finals_sent acts ≡ 0
    → AnswersOnce t
    → AnswersOnce (before_all acts t)
before_all-AnswersOnce acts (s, rest, waiting) e h = finals-append acts rest ∙ rw (e, h) refl
before_all-AnswersOnce acts (s, rest, ended b) e h = finals-append acts rest ∙ rw (e, h) refl

before-AnswersOnce :
    (a : Action) (t : Trace)
    → finals_sent (a ∷ []) ≡ 0
    → AnswersOnce t
    → AnswersOnce (before_trace a t)
before-AnswersOnce (replies t r) (s, acts, waiting) e h = ground arith
before-AnswersOnce (replies t r) (s, acts, ended b) e h = ground arith
before-AnswersOnce (cancels c) (s, acts, waiting) e h = h
before-AnswersOnce (cancels c) (s, acts, ended b) e h = h
before-AnswersOnce (lapses aor) (s, acts, waiting) e h = h
before-AnswersOnce (lapses aor) (s, acts, ended b) e h = h

module _ (sip : Sipgo) (keeps : KeepsStatus sip) (req : Request) (id aor : Text) where
  one_final :
      (t : Calls) (n : ℕ) (reason : Text) (acts : List Action)
      → leb 200 n ≡ true
      → finals_sent acts ≡ 0
      → finals_sent (replies t (plain sip req n reason) ∷ acts) ≡ 1
  one_final t n reason acts e f = rw (keeps req n reason [], e, f) refl

  -- Every final response that is kept is one.
  abbrev IsFinal : Option Response → Type 0
  IsFinal none = Unit {0}
  IsFinal (some r) = leb 200 r.status ≡ true

  better-IsFinal :
      (o : Option Response) (r : Response)
      → IsFinal o
      → leb 200 r.status ≡ true
      → IsFinal (some (better o r))
  unfolding better
  better-IsFinal none r h e = e
  better-IsFinal (some b) r h e = ground arith

  module _ (branches : List Branch) where
    concluded :
        (o : Option Response) (t : Calls)
        → IsFinal o
        → finals_sent (replies t (conclude sip req o) ∷ []) ≡ 1
    unfolding conclude
    concluded none t h = one_final t 480 (text "Temporarily Unavailable") [] refl refl
    concluded (some b) t h = rw (status-relayed_response sip keeps req b, h) refl

    -- The rest of the loop answers once.
    abbrev RestAnswers : (ℕ → Bool → Option Response → Shared → Trace) → Type 0
    RestAnswers rest =
        (m : ℕ) (relayed : Bool) (best : Option Response) (t : Shared)
        → IsFinal best
        → AnswersOnce (rest m relayed best t)

    response-AnswersOnce :
        (k : Kind) (n : ℕ) (relayed : Bool) (best : Option Response) (s : Shared) (r : Result)
        (resp : Response) (rest : ℕ → Bool → Option Response → Shared → Trace)
        → kind_of resp.status ≡ k
        → IsFinal best
        → RestAnswers rest
        → AnswersOnce (on_response sip req id aor branches k n relayed best s r resp rest)
    unfolding on_response
    response-AnswersOnce trying n relayed best s r resp rest e f h = h (suc n) relayed best s f
    response-AnswersOnce provisional n relayed best s r resp rest e f h =
        elim (Bool-cases relayed) [
          | inl g ↦ rw g (h (suc n) true best s f)
          | inr g ↦ rw g (
              before-AnswersOnce (replies s.table (relayed_response sip req resp))
                (rest (suc n) true best s)
                (rw (status-relayed_response sip keeps req resp, (kind_final resp.status).1 e) refl)
                (h (suc n) true best s f))
        ]
    response-AnswersOnce declined n relayed best s r resp rest e f h =
        finals-append (cancel_branches (is_sibling r) 0 branches) _
        ∙ rw
            (
              finals-branches (is_sibling r) 0 branches,
              one_final s.table resp.status resp.reason [] ((kind_final resp.status).2 e) refl,
            )
            refl
    response-AnswersOnce succeeded n relayed best s r resp rest e f h =
        rw
          (
            status-relayed_response sip keeps req resp,
            (kind_final resp.status).3 e,
            finals-branches (is_sibling r) 0 branches,
          )
          refl
    response-AnswersOnce refused n relayed best s r resp rest e f h =
        h n relayed (some (better best resp)) s
          (better-IsFinal best resp f ((kind_final resp.status).4 e))

    report-AnswersOnce :
        (report : Report) (n : ℕ) (relayed : Bool) (best : Option Response) (s : Shared)
        (r : Result) (rest : ℕ → Bool → Option Response → Shared → Trace)
        → IsFinal best
        → RestAnswers rest
        → AnswersOnce (on_report sip req id aor branches n relayed best s r report rest)
    unfolding on_report
    report-AnswersOnce errored n relayed best s r rest f h =
        before-AnswersOnce (lapses aor) (rest n relayed best _) refl (h n relayed best _ f)
    report-AnswersOnce nothing n relayed best s r rest f h = h n relayed best s f
    report-AnswersOnce withdrawn n relayed best s r rest f h =
        before_all-AnswersOnce (cancel_branches r.is_open 0 branches) (rest (suc n) relayed best s)
          (finals-branches r.is_open 0 branches) (h (suc n) relayed best s f)
    report-AnswersOnce (answered resp) n relayed best s r rest f h =
        response-AnswersOnce (kind_of resp.status) n relayed best s r resp rest refl f h

    gather-AnswersOnce :
        (results : List Result) (n : ℕ) (relayed : Bool) (best : Option Response) (s : Shared)
        → IsFinal best
        → AnswersOnce (gather sip req id aor branches results n relayed best s)
    unfolding gather
    gather-AnswersOnce [] zero relayed best s f = concluded best s.table f
    gather-AnswersOnce (r ∷ results) zero relayed best s f = concluded best s.table f
    gather-AnswersOnce [] (suc n) relayed best s f = refl
    gather-AnswersOnce (r ∷ results) (suc n) relayed best s f =
        report-AnswersOnce r.report n relayed best s r (gather sip req id aor branches results) f
          (gather-AnswersOnce results)

    leave-AnswersOnce : (t : Trace) → AnswersOnce t → AnswersOnce (leave sip req id aor branches t)
    unfolding leave
    leave-AnswersOnce (s, acts, waiting) h = h
    leave-AnswersOnce (s, acts, ended b) h = h

  fork-AnswersOnce :
      (bs : List Branch) (results : List Result) (s : Shared)
      → AnswersOnce (fork sip req id aor bs results s)
  unfolding fork
  fork-AnswersOnce [] results s =
      one_final s.table 480 (text "Temporarily Unavailable") [] refl refl
  fork-AnswersOnce (b ∷ bs) results s =
      leave-AnswersOnce (b ∷ bs) _
        (gather-AnswersOnce (b ∷ bs) results (suc (length bs)) false none _ tt)

  contacts-AnswersOnce :
      (cfg : RouteConfig) (ports : Ports) (user domain : Text) (cs : List Contact)
      (results : List Result) (s : Shared)
      → AnswersOnce (fork_contacts sip req id aor cfg ports user domain cs results s)
  unfolding fork_contacts
  contacts-AnswersOnce cfg ports user domain [] results s =
      one_final s.table 480 (text "Temporarily Unavailable") [] refl refl
  contacts-AnswersOnce cfg ports user domain (c ∷ cs) results s =
      before-AnswersOnce
        (replies (saved sip req id aor s).table (plain sip req 100 (text "Trying")))
        (fork sip req id aor (prepare sip req cfg ports user domain (c ∷ cs)) results
          (saved sip req id aor s))
        (rw (keeps req 100 (text "Trying") []) refl)
        (fork-AnswersOnce (prepare sip req cfg ports user domain (c ∷ cs)) results
          (saved sip req id aor s))

-- To its INVITE to a user FreeSWITCH is sent exactly one final response by the time the handler has
-- returned, and none as long as it waits, whatever the branches report; if sipgo gives a response the
-- status that it is built with.
pub invite_to_user-AnswersOnce :
    (sip : Sipgo) (cfg : RouteConfig) (ports : Ports) (now : ℕ) (req : Request)
    (id user domain : Text) (results : List Result) (s : Shared)
    → KeepsStatus sip
    → AnswersOnce (invite_to_user sip cfg ports now req id user domain results s)
unfolding invite_to_user
invite_to_user-AnswersOnce sip cfg ports now req id user domain results s keeps =
    contacts-AnswersOnce sip keeps req id (user ++ (b'@' ∷ domain)) cfg ports user domain
      (lookup_by_type s.reg now (user ++ (b'@' ∷ domain)) (is_webrtc_sdp req.body)) results s
