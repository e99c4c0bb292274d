-- ===== src/Proxy/Trunk/Recorded.antt =====
-- sbc/proxy.go: the call table while FreeSWITCH's INVITE to a trunk is handled, and handleAck on it.
use comcent_ce.Common.{
  ℕ, ◌≡◌, ◌≤◌, ◌<◌, ◌^◌, ◌⊎◌, refl, sym, ap, ◌∙◌, inl, inr, Bool, true, false, List, [], ◌∷◌,
  Option, none, some, Text, text, text_eq_iff, lookup, store, lookup-store, lookup-delete, leb,
  ◌==◌, In, All, if◌then◌else◌, Bool-cases, Option-cases,
}
use comcent_ce.Sip.{Sipgo, Request, Response, cseq_number}
use comcent_ce.Forward.{shift_cseq, digest_cseq_offset, too_many_hops}
use comcent_ce.Forward.Cseq.{cseq-shift_zero, shift-digest_ack}
use comcent_ce.Forward.Route.{RouteConfig}
use comcent_ce.Proxy.Calls.{
  CallState, Calls, Event, responds, closed, done, waiting, ended, is_success, handle_ack,
}
use comcent_ce.Proxy.Calls.Recorded.{KeepsStatus}
use comcent_ce.Proxy.Calls.Acks.{ack_from_fs}
use comcent_ce.Proxy.Fork.{plain, relayed_response}
use comcent_ce.Proxy.Fork.Relayed.{status-relayed_response}
use comcent_ce.Proxy.Trunk.{
  Outbound, Action, replies, authenticates, Trace, Route, is_challenge, trunk_call, record_call,
  drop_transaction, on_digest, on_challenge, relay, leave, forward_to_trunk,
}

-- What DoDigestAuth returns is numbered from the number on, in a uint32.
abbrev pub CountsUp : (Request → Response → Text → Text → Option Response) → ℕ → Type 0
CountsUp digest f =
    (q : Request) (challenge : Response) (user pass : Text) (answer : Response)
    → digest q challenge user pass ≡ some answer
    → (n : ℕ) × (cseq_number answer.headers ≡ some n) × (f ≤ n) × (n < 2 ^ 32)

-- DoDigestAuth was called for a challenge of the transaction with the user and the password, and has
-- returned the answer.
abbrev pub IsRetried :
    (Request → Response → Text → Text → Option Response)
    → Text
    → Text
    → List Event
    → Response
    → Type 0
IsRetried digest user pass events answer =
    (q : Request) × (challenge : Response) × In (responds challenge) events
    × (is_challenge challenge.status ≡ true)
    × (digest q challenge user pass ≡ some answer)

-- The response relays an answer, and the ACK is sent on to `dest`: with the number `f`, where the answer is
-- the transaction's, and with the number of the answer, where it is DoDigestAuth's.
abbrev pub IsAcknowledged :
    Sipgo
    → RouteConfig
    → Request
    → Text
    → Calls
    → Response
    → Request
    → ℕ
    → Text
    → List Event
    → (Response → Type 0)
    → Type 0
IsAcknowledged sip cfg req id t r a f dest events Retried =
    (answer : Response) × (r ≡ relayed_response sip req answer)
    × (fwd : Request) × (handle_ack sip cfg t true id a ≡ some fwd)
    × (fwd.destination ≡ dest)
    × ((In (responds answer) events × (cseq_number fwd.headers ≡ some f))
        ⊎ (Retried answer × (cseq_number fwd.headers ≡ cseq_number answer.headers)))

module _ (sip : Sipgo) (req : Request) (id number spoofed : Text) (route : Route) where
  -- The call that an answer is recorded as, with the offset of a retry with credentials, or without one.
  abbrev as_call : Bool → Response → CallState
  as_call retried answer = trunk_call sip req id number spoofed route answer (
      if retried
      then digest_cseq_offset (cseq_number answer.headers) (cseq_number req.headers)
      else 0)

  module _ (digest : Request → Response → Text → Text → Option Response) (fwd : Request)
      (all_events : List Event) where
    -- Where an answer comes from: from DoDigestAuth, or from the transaction.
    abbrev ComesFrom : Bool → Response → Type 0
    ComesFrom true answer =
        IsRetried digest route.outbound_user route.outbound_pass all_events answer
    ComesFrom false answer = In (responds answer) all_events

    -- The response relays an answer whose call is in the table.
    abbrev pub IsRecorded : Calls → Response → Type 0
    IsRecorded t r =
        (retried : Bool) × (answer : Response) × (r ≡ relayed_response sip req answer)
        × (lookup id t.calls ≡ some (as_call retried answer))
        × ComesFrom retried answer

    -- A 2xx is recorded when it is sent, and a retry has no transaction in the table.
    abbrev pub IsSound : Action → Type 0
    IsSound (replies t r) = (is_success r.status ≡ false) ⊎ IsRecorded t r
    IsSound (authenticates t challenge) = lookup id t.active ≡ none

    abbrev AllSound : Trace → Type 0
    AllSound t = All IsSound t.1

    module _ (keeps : KeepsStatus sip) where
      relayed-IsSound :
          (offset : ℕ) (retried : Bool) (answer : Response) (s : Outbound)
          → trunk_call sip req id number spoofed route answer offset ≡ as_call retried answer
          → ComesFrom retried answer
          → IsSound (
              replies
                (record_call sip req id number spoofed route offset answer s).table
                (relayed_response sip req answer))
      unfolding record_call
      relayed-IsSound offset retried answer s same from =
          elim (Bool-cases (is_success answer.status)) [
            | inr e ↦ inl (rw (status-relayed_response sip keeps req answer) e)
            | inl e ↦ inr (
              retried,
              answer,
              refl,
              rw
                  (
                    e,
                    lookup-store id id (trunk_call sip req id number spoofed route answer offset)
                        s.table.calls,
                    (text_eq_iff id id).1 refl,
                  )
                  (ap some same),
              from,
            )
          ]

      plain-IsSound :
          (t : Calls) (n : ℕ) (reason : Text)
          → is_success n ≡ false
          → IsSound (replies t (plain sip req n reason))
      plain-IsSound t n reason e = inl (rw (keeps req n reason []) e)

      digest-AllSound :
          (challenge : Response) (s : Outbound)
          → In (responds challenge) all_events
          → is_challenge challenge.status ≡ true
          → AllSound (
              on_digest sip req id number spoofed route
                (digest fwd challenge route.outbound_user route.outbound_pass)
                s)
      unfolding on_digest
      digest-AllSound challenge s m c =
          elim (Option-cases (digest fwd challenge route.outbound_user route.outbound_pass)) [
            | inl e ↦ rw (e, on_digest) (plain-IsSound s.table 502 (text "Bad Gateway") refl, tt)
            | inr (answer, e) ↦
                rw (e, on_digest)
                  (relayed-IsSound _ true answer s refl (fwd, challenge, m, c, e), tt)
          ]

      challenge-AllSound :
          (challenge : Response) (s : Outbound)
          → In (responds challenge) all_events
          → is_challenge challenge.status ≡ true
          → AllSound (on_challenge sip req id number spoofed route digest fwd challenge s)
      unfolding on_challenge
      challenge-AllSound challenge s m c = (
        rw (lookup-delete id id s.table.active, (text_eq_iff id id).1 refl) refl,
        digest-AllSound challenge (drop_transaction sip req id number spoofed route s) m c,
      )

      relay-AllSound :
          (events : List Event) (s : Outbound)
          → ((answer : Response) → In (responds answer) events → In (responds answer) all_events)
          → AllSound (relay sip req id number spoofed route digest fwd events s)
      unfolding relay
      relay-AllSound [] s sub = tt
      relay-AllSound (closed ∷ events) s sub = tt
      relay-AllSound (done true ∷ events) s sub =
          (plain-IsSound s.table 408 (text "Request Timeout") refl, tt)
      relay-AllSound (done false ∷ events) s sub = tt
      relay-AllSound (responds resp ∷ events) s sub =
          let rest = λ (t : Outbound). relay-AllSound events t (λ a m. sub a (inr m)) in
          let here = relayed-IsSound 0 false resp s refl (sub resp (inl refl)) in
          elim (Bool-cases (resp.status == 100)) [
            | inl e ↦ rw e (rest s)
            | inr e ↦ elim (Bool-cases (is_challenge resp.status)) [
              | inl f ↦ rw (e, f) (challenge-AllSound resp s (sub resp (inl refl)) f)
              | inr f ↦ elim (Bool-cases (leb 200 resp.status)) [
                | inl g ↦ rw (e, f, g) (here, tt)
                | inr g ↦
                    rw (e, f, g) (here, rest (record_call sip req id number spoofed route 0 resp s))
              ]
            ]
          ]

      leave-actions : (t : Trace) → (leave sip req id number spoofed route t).1 ≡ t.1
      unfolding leave
      leave-actions (s, acts, waiting) = refl
      leave-actions (s, acts, ended b) = refl

      pub forward-AllSound :
          (connected : Bool) (s : Outbound)
          → AllSound
              (forward_to_trunk sip req id number spoofed route digest fwd connected all_events s)
      unfolding forward_to_trunk
      forward-AllSound false s = (plain-IsSound s.table 502 (text "Bad Gateway") refl, tt)
      forward-AllSound true s =
          let stored : Outbound = record s {
            table = record s.table { active = store id fwd s.table.active };
          } in
          rw (leave-actions (relay sip req id number spoofed route digest fwd all_events stored))
            (relay-AllSound all_events stored (λ a m. m))

    numbered :
        (retried : Bool) (answer : Response) (b fwd : Request) (f : ℕ)
        → ComesFrom retried answer
        → CountsUp digest f
        → cseq_number req.headers ≡ some f
        → cseq_number b.headers ≡ some f
        → fwd.headers ≡ (shift_cseq b (as_call retried answer).fs_cseq_offset).headers
        → (In (responds answer) all_events × (cseq_number fwd.headers ≡ some f))
          ⊎ (ComesFrom true answer × (cseq_number fwd.headers ≡ cseq_number answer.headers))
    unfolding trunk_call
    numbered false answer b fwd f from up c g h =
        inl (from, ap cseq_number h ∙ cseq-shift_zero b ∙ g)
    numbered true answer b fwd f (q, challenge, at_q, is_one, from) up c g h =
        let (n, e, le, lt) = up _ challenge _ _ answer from in
        inr (
          (q, challenge, at_q, is_one, from),
          ap cseq_number h
              ∙ ap
                  (λ (o : Option ℕ × Option ℕ).
                    cseq_number (shift_cseq b (digest_cseq_offset o.0 o.1)).headers)
                  (let both : (cseq_number answer.headers, cseq_number req.headers)
                        ≡ (some n, some f) =
                      cc in
                    both)
              ∙ shift-digest_ack b n f le lt g
              ∙ sym e,
        )

    pub acknowledged :
        (cfg : RouteConfig) (t : Calls) (r : Response) (a : Request) (f : ℕ)
        → IsRecorded t r
        → CountsUp digest f
        → cseq_number req.headers ≡ some f
        → cseq_number a.headers ≡ some f
        → too_many_hops a ≡ false
        → IsAcknowledged sip cfg req id t r a f route.dest all_events (ComesFrom true)
    unfolding trunk_call
    acknowledged cfg t r a f (retried, answer, same, e, from) up c g h =
        let (fwd, found, to, b, kept, headers) =
          ack_from_fs sip cfg t (as_call retried answer) id a e h in
        (answer, same, fwd, found, to, numbered retried answer b fwd f from up c (kept ∙ g) headers)
