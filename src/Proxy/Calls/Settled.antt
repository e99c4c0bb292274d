-- ===== src/Proxy/Calls/Settled.antt =====
-- sbc/proxy.go: what handleInviteToFS leaves behind when it returns.
use comcent_ce.Common.{
  ℕ, ◌≡◌, inl, inr, refl, Bool, true, false, List, [], ◌∷◌, Option, none, some, arith, Text, text,
  text_eq_iff, Dict, lookup, store, lookup-store, leb, ltb, ◌==◌, Option-cases, Bool-cases,
}
use comcent_ce.Sip.{Sipgo, Address, Request, Response}
use comcent_ce.Contact.Targets.{strip_sip_prefix}
use comcent_ce.Forward.{build_forward, Ports, add_record_route}
use comcent_ce.Forward.Route.{RouteConfig}
use comcent_ce.Dispatcher.{Dispatcher}
use comcent_ce.Proxy.Affinity.{
  comcent_users, select_target_for_users, save_affinity, delete_affinity,
}
use comcent_ce.Proxy.Affinity.Calls.{target_of, target_of-save_affinity, target_of-delete_affinity}
use comcent_ce.Proxy.Calls.{
  CallState, Calls, Event, responds, closed, done, waiting, ended, Trace, is_success,
  relay_response, new_call, before_trace, recorded, relay, leave, forward_to_fs, invite_fs,
  invite_target, invite_to_fs,
}

-- The handler has returned, with the call in the table; or it has returned and the user has no
-- target for the call; or it still waits.
abbrev pub Settled : Text → Text → Trace → Type 0
Settled id user (s, sent, waiting) = Unit {0}
Settled id user (s, sent, ended true) = (c : CallState) × (lookup id s.calls ≡ some c)
Settled id user (s, sent, ended false) = target_of s.affinity user id ≡ none

pub dropped :
    (id fs_addr user : Text) (users : List Text) (affinity : Dict (Dict Text))
    → target_of affinity user id ≡ none
    → target_of (delete_affinity id users (save_affinity id fs_addr users affinity)) user id ≡ none
dropped id fs_addr user users affinity e = ground (
  arith,
  target_of-delete_affinity id users (save_affinity id fs_addr users affinity) user id,
  target_of-save_affinity id fs_addr users affinity user id,
  text_eq_iff id id,
)

module _ (sip : Sipgo) (req : Request) (from : Address) (id fs_addr user : Text)
    (users : List Text) where
  -- No target for the call is left once the call is dropped.
  abbrev Drops : Calls → Type 0
  Drops s = target_of (delete_affinity id users s.affinity) user id ≡ none

  affinity-recorded :
      (s : Calls) (resp : Response)
      → (recorded sip req from id fs_addr users s resp).affinity ≡ s.affinity
  unfolding recorded
  affinity-recorded s resp = elim (Bool-cases (is_success resp.status)) [
    | inl e ↦ rw (e, recorded) refl
    | inr e ↦ rw (e, recorded) refl
  ]

  recorded-Drops :
      (s : Calls) (resp : Response)
      → Drops s
      → Drops (recorded sip req from id fs_addr users s resp)
  recorded-Drops s resp d = rw (affinity-recorded s resp) d

  recorded_call :
      (s : Calls) (resp : Response)
      → is_success resp.status ≡ true
      → (c : CallState) × (lookup id (recorded sip req from id fs_addr users s resp).calls ≡ some c)
  unfolding recorded
  recorded_call s resp e = (
    new_call sip req from fs_addr users resp,
    rw
        (
          e,
          recorded,
          lookup-store id id (new_call sip req from fs_addr users resp) s.calls,
          (text_eq_iff id id).1 refl,
        )
        refl,
  )

  leave-Settled :
      (sent : Calls × Response) (t : Trace)
      → Settled id user (leave sip req from id fs_addr users t)
      → Settled id user (leave sip req from id fs_addr users (before_trace sent t))
  unfolding leave
  leave-Settled sent (s, rest, waiting) h = tt
  leave-Settled sent (s, rest, ended true) h = h
  leave-Settled sent (s, rest, ended false) h = h

  final-Settled :
      (s : Calls) (resp : Response) (sent : List (Calls × Response)) (b : Bool)
      → Drops s
      → is_success resp.status ≡ b
      → Settled id user (
          leave sip req from id fs_addr users
            (recorded sip req from id fs_addr users s resp, sent, ended b))
  unfolding leave
  final-Settled s resp sent true d e = recorded_call s resp e
  final-Settled s resp sent false d e = recorded-Drops s resp d

  relay-Settled :
      (events : List Event) (s : Calls)
      → Drops s
      → Settled id user
          (leave sip req from id fs_addr users (relay sip req from id fs_addr users events s))
  unfolding relay leave
  relay-Settled [] s d = tt
  relay-Settled (closed ∷ events) s d = d
  relay-Settled (done failed ∷ events) s d = d
  relay-Settled (responds resp ∷ events) s d = elim (Bool-cases (resp.status == 100)) [
    | inl e ↦ rw e (relay-Settled events s d)
    | inr e ↦ elim (Bool-cases (leb 200 resp.status)) [
      | inl f ↦
          rw (e, f)
            (final-Settled s resp
              ((recorded sip req from id fs_addr users s resp, relay_response sip req fs_addr resp)
                ∷ [])
              (ltb resp.status 300) d (rw f refl))
      | inr f ↦
          rw (e, f)
            (leave-Settled
              (recorded sip req from id fs_addr users s resp, relay_response sip req fs_addr resp)
              (relay sip req from id fs_addr users events
                (recorded sip req from id fs_addr users s resp))
              (relay-Settled events (recorded sip req from id fs_addr users s resp)
                (recorded-Drops s resp d)))
    ]
  ]

  forward-Settled :
      (s : Calls) (fwd : Request) (connected : Bool) (events : List Event)
      → Drops s
      → Settled id user (forward_to_fs sip req from id fs_addr users s fwd connected events)
  unfolding forward_to_fs
  forward-Settled s fwd true events d =
      relay-Settled events (record s { active = store id fwd s.active }) d
  forward-Settled s fwd false events d = d

  sent-Settled :
      (sent : Calls × Response) (t : Trace)
      → Settled id user t
      → Settled id user (before_trace sent t)
  sent-Settled sent (s, rest, waiting) h = tt
  sent-Settled sent (s, rest, ended true) h = h
  sent-Settled sent (s, rest, ended false) h = h

  invite-Settled :
      (cfg : RouteConfig) (ports : Ports) (s : Calls) (connected : Bool) (events : List Event)
      → target_of s.affinity user id ≡ none
      → Settled id user (invite_fs sip req from id fs_addr users cfg ports s connected events)
  unfolding invite_fs
  invite-Settled cfg ports s connected events e =
      let t : Calls = record s { affinity = save_affinity id fs_addr users s.affinity } in
      let d : Drops t = dropped id fs_addr user users s.affinity e in
      elim (Option-cases (build_forward sip cfg req req.recipient [])) [
        | inl b ↦ rw (b, invite_fs) d
        | inr (fwd, b) ↦
            let out : Request =
              add_record_route ports (record fwd { destination = fs_addr; transport = text "udp" })
                true in
            rw (b, invite_fs)
              (sent-Settled (t, sip.new_response req 100 (text "Trying") [])
                (forward_to_fs sip req from id fs_addr users t out connected events)
                (forward-Settled t out connected events d))
      ]

target-Settled :
    (sip : Sipgo) (req : Request) (from : Address) (id user : Text) (users : List Text)
    (cfg : RouteConfig) (ports : Ports) (s : Calls) (connected : Bool) (events : List Event)
    (chosen : Option Text)
    → target_of s.affinity user id ≡ none
    → Settled id user (invite_target sip req from id users cfg ports s connected events chosen)
unfolding invite_target
target-Settled sip req from id user users cfg ports s connected events none e = e
target-Settled sip req from id user users cfg ports s connected events (some target) e =
    invite-Settled sip req from id (strip_sip_prefix target) user users cfg ports s connected events
      e

-- When the handler of a caller's INVITE has returned, either the call was established and is in the
-- table, or no user has a target for it who had none before.
pub invite_to_fs-Settled :
    (sip : Sipgo) (cfg : RouteConfig) (ports : Ports) (root : Text) (chance : ℕ) (d : Dispatcher)
    (s : Calls) (req : Request) (from to : Address) (id : Text) (connected : Bool)
    (events : List Event) (user : Text)
    → target_of s.affinity user id ≡ none
    → Settled id user (invite_to_fs sip cfg ports root chance d s req from to id connected events).1
unfolding invite_to_fs
invite_to_fs-Settled sip cfg ports root chance d s req from to id connected events user e =
    target-Settled sip req from id user (comcent_users root from.uri to.uri) cfg ports s connected
      events (select_target_for_users chance s.affinity d (comcent_users root from.uri to.uri)).1 e
