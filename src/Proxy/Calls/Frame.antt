-- ===== src/Proxy/Calls/Frame.antt =====
-- sbc/proxy.go: other calls while handleInviteToFS runs.
use comcent_ce.Common.{
  ℕ, ◌≡◌, inl, inr, refl, Bool, true, false, List, [], ◌∷◌, Option, none, some, Text, text, lookup,
  store, leb, ◌==◌, Bool-cases, Option-cases,
}
use comcent_ce.Sip.{Sipgo, Address, Request, Response}
use comcent_ce.Contact.Targets.{strip_sip_prefix}
use comcent_ce.Forward.{build_forward, Ports, add_record_route}
use comcent_ce.Forward.Route.{RouteConfig}
use comcent_ce.Dispatcher.{Dispatcher}
use comcent_ce.Proxy.Affinity.{comcent_users, select_target_for_users, save_affinity}
use comcent_ce.Proxy.Calls.{
  Calls, Event, responds, closed, done, waiting, ended, Trace, is_success, new_call, recorded,
  relay, leave, forward_to_fs, invite_fs, invite_target, invite_to_fs, handle_ack,
}
use comcent_ce.Proxy.Isolation.{
  Apart, Apart-refl, Apart-trans, store_call-Apart, store_active-Apart, delete_active-Apart,
}

module _ (sip : Sipgo) (req : Request) (from : Address) (id fs_addr : Text)
    (users : List Text) where
  recorded-Apart :
      (s : Calls) (resp : Response) → Apart id s (recorded sip req from id fs_addr users s resp)
  unfolding recorded
  recorded-Apart s resp = elim (Bool-cases (is_success resp.status)) [
    | inl e ↦ rw (e, recorded) (store_call-Apart id (new_call sip req from fs_addr users resp) s)
    | inr e ↦ rw (e, recorded) (Apart-refl id s)
  ]

  relay-Apart :
      (events : List Event) (s : Calls)
      → Apart id s (relay sip req from id fs_addr users events s).0
  unfolding relay
  relay-Apart [] s = Apart-refl id s
  relay-Apart (closed ∷ events) s = Apart-refl id s
  relay-Apart (done failed ∷ events) s = Apart-refl id s
  relay-Apart (responds resp ∷ events) s = elim (Bool-cases (resp.status == 100)) [
    | inl e ↦ rw e (relay-Apart events s)
    | inr e ↦
        let t = recorded sip req from id fs_addr users s resp in
        elim (Bool-cases (leb 200 resp.status)) [
          | inl f ↦ rw (e, f) (recorded-Apart s resp)
          | inr f ↦
              rw (e, f)
                (Apart-trans id s t (relay sip req from id fs_addr users events t).0
                  (recorded-Apart s resp) (relay-Apart events t))
        ]
  ]

  leave-Apart : (t : Trace) → Apart id t.0 (leave sip req from id fs_addr users t).0
  unfolding leave
  leave-Apart (s, sent, waiting) = Apart-refl id s
  leave-Apart (s, sent, ended true) = delete_active-Apart id s
  leave-Apart (s, sent, ended false) = delete_active-Apart id s

  forward_to_fs-Apart :
      (s : Calls) (fwd : Request) (connected : Bool) (events : List Event)
      → Apart id s (forward_to_fs sip req from id fs_addr users s fwd connected events).0
  unfolding forward_to_fs
  forward_to_fs-Apart s fwd false events = Apart-refl id s
  forward_to_fs-Apart s fwd true events =
      let t : Calls = record s { active = store id fwd s.active } in
      let u = relay sip req from id fs_addr users events t in
      Apart-trans id s t (leave sip req from id fs_addr users u).0 (store_active-Apart id fwd s) (
        Apart-trans id t u.0 (leave sip req from id fs_addr users u).0 (relay-Apart events t)
          (leave-Apart u))

  invite_fs-Apart :
      (cfg : RouteConfig) (ports : Ports) (s : Calls) (connected : Bool) (events : List Event)
      → Apart id s (invite_fs sip req from id fs_addr users cfg ports s connected events).0
  unfolding invite_fs
  invite_fs-Apart cfg ports s connected events =
      elim (Option-cases (build_forward sip cfg req req.recipient [])) [
        | inl b ↦ rw (b, invite_fs) (Apart-refl id s)
        | inr (fwd, b) ↦
            let t : Calls = record s { affinity = save_affinity id fs_addr users s.affinity } in
            let out : Request =
              add_record_route ports (record fwd { destination = fs_addr; transport = text "udp" })
                true in
            rw (b, invite_fs) (forward_to_fs-Apart t out connected events)
      ]

target-Apart :
    (sip : Sipgo) (req : Request) (from : Address) (id : Text) (users : List Text)
    (cfg : RouteConfig) (ports : Ports) (s : Calls) (connected : Bool) (events : List Event)
    (chosen : Option Text)
    → Apart id s (invite_target sip req from id users cfg ports s connected events chosen).0
unfolding invite_target
target-Apart sip req from id users cfg ports s connected events none = Apart-refl id s
target-Apart sip req from id users cfg ports s connected events (some t) =
    invite_fs-Apart sip req from id (strip_sip_prefix t) users cfg ports s connected events

pub invite_to_fs-Apart :
    (sip : Sipgo) (cfg : RouteConfig) (ports : Ports) (root : Text) (chance : ℕ) (d : Dispatcher)
    (s : Calls) (req : Request) (from to : Address) (id : Text) (connected : Bool)
    (events : List Event)
    → Apart id s (invite_to_fs sip cfg ports root chance d s req from to id connected events).1.0
unfolding invite_to_fs
invite_to_fs-Apart sip cfg ports root chance d s req from to id connected events =
    target-Apart sip req from id (comcent_users root from.uri to.uri) cfg ports s connected events
      (select_target_for_users chance s.affinity d (comcent_users root from.uri to.uri)).1

-- An ACK depends on the call's own entry.
pub handle_ack-same :
    (sip : Sipgo) (cfg : RouteConfig) (s t : Calls) (from_fs : Bool) (id : Text) (req : Request)
    → lookup id t.calls ≡ lookup id s.calls
    → handle_ack sip cfg t from_fs id req ≡ handle_ack sip cfg s from_fs id req
unfolding handle_ack
handle_ack-same sip cfg s t from_fs id req e = rw (handle_ack, e) refl
