-- ===== src/Proxy/Calls/Active.antt =====
-- sbc/proxy.go: p.activeTx while handleInviteToFS runs and behind it.
use comcent_ce.Common.{
  ℕ, ◌≡◌, inl, inr, refl, ◌∙◌, ap, Bool, true, false, List, [], ◌∷◌, Option, none, some, Text, text,
  text_eq_iff, lookup, store, lookup-store, lookup-delete, leb, ◌==◌, Option-cases, Bool-cases,
}
use comcent_ce.Sip.{Sipgo, Address, Request, Response}
use comcent_ce.Contact.Targets.{strip_sip_prefix}
use comcent_ce.Forward.{build_forward, Ports, add_record_route}
use comcent_ce.Forward.Route.{RouteConfig}
use comcent_ce.Dispatcher.{Dispatcher}
use comcent_ce.Proxy.Affinity.{comcent_users, select_target_for_users, save_affinity}
use comcent_ce.Proxy.Calls.{
  Calls, Event, responds, closed, done, waiting, ended, Trace, is_success, recorded, relay, leave,
  forward_to_fs, invite_fs, invite_target, invite_to_fs,
}

-- The handler waits with the request to the chosen target as its transaction, or has none left.
abbrev pub Tracks : Text → Option Text → Trace → Type 0
Tracks id chosen (s, sent, waiting) =
    (target : Text) × (chosen ≡ some target)
    × (fwd : Request) × (lookup id s.active ≡ some fwd)
    × (fwd.destination ≡ strip_sip_prefix target)
Tracks id chosen (s, sent, ended established) = lookup id s.active ≡ none

module _ (sip : Sipgo) (req : Request) (from : Address) (id target : Text) (users : List Text) where
  abbrev address : Text
  address = strip_sip_prefix target

  active-recorded :
      (s : Calls) (resp : Response)
      → (recorded sip req from id address users s resp).active ≡ s.active
  unfolding recorded
  active-recorded s resp = elim (Bool-cases (is_success resp.status)) [
    | inl e ↦ rw (e, recorded) refl
    | inr e ↦ rw (e, recorded) refl
  ]

  active-relay :
      (events : List Event) (s : Calls)
      → (relay sip req from id address users events s).0.active ≡ s.active
  unfolding relay
  active-relay [] s = refl
  active-relay (closed ∷ events) s = refl
  active-relay (done has_error ∷ events) s = refl
  active-relay (responds resp ∷ events) s = elim (Bool-cases (resp.status == 100)) [
    | inl e ↦ rw e (active-relay events s)
    | inr e ↦ elim (Bool-cases (leb 200 resp.status)) [
      | inl f ↦ rw (e, f) (active-recorded s resp)
      | inr f ↦
          rw (e, f)
            (active-relay events (recorded sip req from id address users s resp)
              ∙ active-recorded s resp)
    ]
  ]

  leave-Tracks :
      (t : Trace) (fwd : Request)
      → lookup id t.0.active ≡ some fwd
      → fwd.destination ≡ address
      → Tracks id (some target) (leave sip req from id address users t)
  unfolding leave
  leave-Tracks (s, sent, waiting) fwd e d = (target, refl, fwd, e, d)
  leave-Tracks (s, sent, ended true) fwd e d =
      rw (lookup-delete id id s.active, (text_eq_iff id id).1 refl) refl
  leave-Tracks (s, sent, ended false) fwd e d =
      rw (lookup-delete id id s.active, (text_eq_iff id id).1 refl) refl

  forward-Tracks :
      (s : Calls) (fwd : Request) (connected : Bool) (events : List Event)
      → lookup id s.active ≡ none
      → fwd.destination ≡ address
      → Tracks id (some target) (forward_to_fs sip req from id address users s fwd connected events)
  unfolding forward_to_fs
  forward-Tracks s fwd false events e d = e
  forward-Tracks s fwd true events e d =
      leave-Tracks
        (relay sip req from id address users events (record s { active = store id fwd s.active }))
        fwd
        (ap (lookup id) (active-relay events (record s { active = store id fwd s.active }))
          ∙ rw (lookup-store id id fwd s.active, (text_eq_iff id id).1 refl) refl)
        d

  invite-Tracks :
      (cfg : RouteConfig) (ports : Ports) (s : Calls) (connected : Bool) (events : List Event)
      → lookup id s.active ≡ none
      → Tracks id
          (some target)
          (invite_fs sip req from id address users cfg ports s connected events)
  unfolding invite_fs add_record_route
  invite-Tracks cfg ports s connected events e =
      elim (Option-cases (build_forward sip cfg req req.recipient [])) [
        | inl b ↦ rw (b, invite_fs) e
        | inr (fwd, b) ↦
            let t : Calls = record s { affinity = save_affinity id address users s.affinity } in
            let out : Request =
              add_record_route ports (record fwd { destination = address; transport = text "udp" })
                true in
            rw (b, invite_fs) (forward-Tracks t out connected events e refl)
      ]

target-Tracks :
    (sip : Sipgo) (req : Request) (from : Address) (id : Text) (users : List Text)
    (cfg : RouteConfig) (ports : Ports) (s : Calls) (connected : Bool) (events : List Event)
    (chosen : Option Text)
    → lookup id s.active ≡ none
    → Tracks id chosen (invite_target sip req from id users cfg ports s connected events chosen)
unfolding invite_target
target-Tracks sip req from id users cfg ports s connected events none e = e
target-Tracks sip req from id users cfg ports s connected events (some target) e =
    invite-Tracks sip req from id target users cfg ports s connected events e

pub invite_to_fs-Tracks :
    (sip : Sipgo) (cfg : RouteConfig) (ports : Ports) (root : Text) (chance : ℕ) (d : Dispatcher)
    (s : Calls) (req : Request) (from to : Address) (id : Text) (connected : Bool)
    (events : List Event)
    → lookup id s.active ≡ none
    → Tracks id
        (select_target_for_users chance s.affinity d (comcent_users root from.uri to.uri)).1
        (invite_to_fs sip cfg ports root chance d s req from to id connected events).1
unfolding invite_to_fs
invite_to_fs-Tracks sip cfg ports root chance d s req from to id connected events e =
    target-Tracks sip req from id (comcent_users root from.uri to.uri) cfg ports s connected events
      (select_target_for_users chance s.affinity d (comcent_users root from.uri to.uri)).1 e
