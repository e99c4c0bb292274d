-- ===== src/Proxy/Calls/Recorded.antt =====
-- sbc/proxy.go: the call table when a 2xx is relayed, and handleAck on it.
use comcent_ce.Common.{
  ℕ, ◌≡◌, ◌⊎◌, inl, inr, refl, sym, ap, ◌∙◌, Bool, true, false, List, [], ◌∷◌, Option, none, some,
  Text, text, text_eq_iff, lookup, store, lookup-store, leb, ◌==◌, In, All, All-In, Option-cases,
  Bool-cases,
}
use comcent_ce.Sip.{Sipgo, Address, Request, Response}
use comcent_ce.Forward.{build_forward, Ports, too_many_hops}
use comcent_ce.Forward.Hops.{build_in_dialog_sent}
use comcent_ce.Contact.Targets.{strip_sip_prefix}
use mathlib.Core.Bool.{true≢false}
use comcent_ce.Forward.Route.{RouteConfig}
use comcent_ce.Dispatcher.{Dispatcher}
use comcent_ce.Proxy.Affinity.{comcent_users, select_target_for_users, save_affinity}
use comcent_ce.Proxy.Calls.{
  CallState, Calls, Event, responds, closed, done, waiting, ended, Trace, is_success,
  relay_response, new_call, recorded, relay, leave, forward_to_fs, invite_fs, invite_target,
  invite_to_fs, handle_ack, dialog_to_fs,
}

-- A response that sipgo builds has the status that it is given.
abbrev pub KeepsStatus : Sipgo → Type 0
KeepsStatus sip =
    (req : Request) (n : ℕ) (reason body : Text) → (sip.new_response req n reason body).status ≡ n

-- The call is in the table, on the FreeSWITCH `fs_addr`.
abbrev pub IsRecorded : Text → Text → Calls → Type 0
IsRecorded id fs_addr s = (c : CallState) × (lookup id s.calls ≡ some c) × (c.fs_addr ≡ fs_addr)

-- The response is no 2xx, or its call is in the table when it is sent.
abbrev SentRecorded : Text → Text → Calls × Response → Type 0
SentRecorded id fs_addr (s, r) = (is_success r.status ≡ false) ⊎ IsRecorded id fs_addr s

module _ (sip : Sipgo) (keeps : KeepsStatus sip) (req : Request) (from : Address)
    (id fs_addr : Text) (users : List Text) where
  at_id :
      (s : Calls) (resp : Response)
      → lookup id (store id (new_call sip req from fs_addr users resp) s.calls)
        ≡ some (new_call sip req from fs_addr users resp)
  at_id s resp =
      rw
        (
          lookup-store id id (new_call sip req from fs_addr users resp) s.calls,
          (text_eq_iff id id).1 refl,
        )
        refl

  addr : (resp : Response) → (new_call sip req from fs_addr users resp).fs_addr ≡ fs_addr
  unfolding new_call
  addr resp = refl

  relayed-Recorded :
      (s : Calls) (resp : Response)
      → SentRecorded id fs_addr
          (recorded sip req from id fs_addr users s resp, relay_response sip req fs_addr resp)
  unfolding recorded relay_response
  relayed-Recorded s resp = elim (Bool-cases (is_success resp.status)) [
    | inr e ↦ inl (rw (keeps req resp.status resp.reason resp.body) e)
    | inl e ↦ inr (rw e (new_call sip req from fs_addr users resp, at_id s resp, addr resp))
  ]

  relay-Recorded :
      (events : List Event) (s : Calls)
      → All (SentRecorded id fs_addr) (relay sip req from id fs_addr users events s).1
  unfolding relay
  relay-Recorded [] s = tt
  relay-Recorded (closed ∷ events) s = tt
  relay-Recorded (done true ∷ events) s =
      (inl (rw (keeps req 408 (text "Request Timeout") []) refl), tt)
  relay-Recorded (done false ∷ events) s = tt
  relay-Recorded (responds resp ∷ events) s = elim (Bool-cases (resp.status == 100)) [
    | inl e ↦ rw e (relay-Recorded events s)
    | inr e ↦ elim (Bool-cases (leb 200 resp.status)) [
      | inl f ↦ rw (e, f) (relayed-Recorded s resp, tt)
      | inr f ↦
          rw (e, f)
            (
              relayed-Recorded s resp,
              relay-Recorded events (recorded sip req from id fs_addr users s resp),
            )
    ]
  ]

  fails-Recorded :
      (s : Calls) (n : ℕ) (reason : Text)
      → is_success n ≡ false
      → SentRecorded id fs_addr (s, sip.new_response req n reason [])
  fails-Recorded s n reason e = inl (rw (keeps req n reason []) e)

  leave-sent : (t : Trace) → (leave sip req from id fs_addr users t).1 ≡ t.1
  unfolding leave
  leave-sent (s, sent, waiting) = refl
  leave-sent (s, sent, ended established) = refl

  forward-Recorded :
      (s : Calls) (fwd : Request) (connected : Bool) (events : List Event)
      → All
          (SentRecorded id fs_addr)
          (forward_to_fs sip req from id fs_addr users s fwd connected events).1
  unfolding forward_to_fs
  forward-Recorded s fwd true events =
      rw
        (leave-sent (
          relay sip req from id fs_addr users events (record s { active = store id fwd s.active })))
        (relay-Recorded events (record s { active = store id fwd s.active }))
  forward-Recorded s fwd false events = (fails-Recorded s 502 (text "Bad Gateway") refl, tt)

  invite-Recorded :
      (cfg : RouteConfig) (ports : Ports) (s : Calls) (connected : Bool) (events : List Event)
      → All
          (SentRecorded id fs_addr)
          (invite_fs sip req from id fs_addr users cfg ports s connected events).1
  unfolding invite_fs
  invite-Recorded cfg ports s connected events =
      let t : Calls = record s { affinity = save_affinity id fs_addr users s.affinity } in
      elim (Option-cases (build_forward sip cfg req req.recipient [])) [
        | inl e ↦
            rw (e, invite_fs)
              (
                fails-Recorded t 100 (text "Trying") refl,
                (fails-Recorded t 483 (text "Too Many Hops") refl, tt),
              )
        | inr (fwd, e) ↦
            rw (e, invite_fs)
              (fails-Recorded t 100 (text "Trying") refl, forward-Recorded t _ connected events)
      ]

-- The response has its call in the table, if it is a 2xx.
IsRecorded-when_sent :
    (id fs_addr : Text) (sent : List (Calls × Response)) (t : Calls) (r : Response)
    → All (SentRecorded id fs_addr) sent
    → In (t, r) sent
    → is_success r.status ≡ true
    → IsRecorded id fs_addr t
IsRecorded-when_sent id fs_addr sent t r h m e =
    elim (All-In (SentRecorded id fs_addr) (t, r) sent h m) [
      | inl f ↦ absurd (true≢false (sym e ∙ f))
      | inr c ↦ c
    ]

module _ (sip : Sipgo) (cfg : RouteConfig) where
  ack_found :
      (s : Calls) (id fs_addr : Text) (a : Request)
      → IsRecorded id fs_addr s
      → too_many_hops a ≡ false
      → (fwd : Request) × (handle_ack sip cfg s false id a ≡ some fwd) × (fwd.destination ≡ fs_addr)
  unfolding handle_ack dialog_to_fs
  ack_found s id fs_addr a (c, e, same) h =
      let (fwd, b) = build_in_dialog_sent sip cfg a [] [] h in
      (
        record fwd { destination = c.fs_addr; transport = text "udp" },
        rw (e, handle_ack, dialog_to_fs, b) refl,
        same,
      )

target_acknowledged :
    (sip : Sipgo) (cfg : RouteConfig) (ports : Ports) (s : Calls) (req : Request) (from : Address)
    (id : Text) (users : List Text) (connected : Bool) (events : List Event) (t : Calls)
    (r : Response) (a : Request)
    → KeepsStatus sip
    → (chosen : Option Text)
    → In (t, r) (invite_target sip req from id users cfg ports s connected events chosen).1
    → is_success r.status ≡ true
    → too_many_hops a ≡ false
    → (target : Text) × (chosen ≡ some target)
      × (fwd : Request) × (handle_ack sip cfg t false id a ≡ some fwd)
      × (fwd.destination ≡ strip_sip_prefix target)
unfolding invite_target
target_acknowledged sip cfg ports s req from id users connected events t r a k none m e h = elim m [
  | inl q ↦ absurd (
      true≢false (
        sym e
        ∙ ap (λ (p : Calls × Response). is_success p.1.status) q
        ∙ ap is_success (k req 503 (text "Service Unavailable") [])))
  | inr q ↦ absurd q
]
target_acknowledged sip cfg ports s req from id users connected events t r a k (some target) m e h =
    let (fwd, found, same) =
      ack_found sip cfg t id (strip_sip_prefix target) a
        (IsRecorded-when_sent id (strip_sip_prefix target)
          (invite_fs sip req from id (strip_sip_prefix target) users cfg ports s connected events).1
          t r
          (invite-Recorded sip k req from id (strip_sip_prefix target) users cfg ports s connected
            events)
          m e)
        h in
    (target, refl, fwd, found, same)

-- Whenever a 2xx to the INVITE of a caller is sent, an ACK of the caller that arrives at that moment finds
-- the call and is sent on to the FreeSWITCH that was chosen, unless its hop limit is used up; if sipgo
-- gives a response the status that it is built with.
pub invite_to_fs-acknowledged :
    (sip : Sipgo) (cfg : RouteConfig) (ports : Ports) (root : Text) (chance : ℕ) (d : Dispatcher)
    (s : Calls) (req : Request) (from to : Address) (id : Text) (connected : Bool)
    (events : List Event) (t : Calls) (r : Response) (a : Request)
    → KeepsStatus sip
    → In (t, r) (invite_to_fs sip cfg ports root chance d s req from to id connected events).1.1
    → is_success r.status ≡ true
    → too_many_hops a ≡ false
    → (target : Text) × ((select_target_for_users chance s.affinity d
          (comcent_users root from.uri to.uri)).1
        ≡ some target)
      × (fwd : Request) × (handle_ack sip cfg t false id a ≡ some fwd)
      × (fwd.destination ≡ strip_sip_prefix target)
unfolding invite_to_fs
invite_to_fs-acknowledged sip cfg ports root chance d s req from to id connected events t r a k m e
      h =
    target_acknowledged sip cfg ports s req from id (comcent_users root from.uri to.uri) connected
      events t r a k
      (select_target_for_users chance s.affinity d (comcent_users root from.uri to.uri)).1 m e h
