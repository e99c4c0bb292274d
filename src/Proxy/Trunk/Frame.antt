-- ===== src/Proxy/Trunk/Frame.antt =====
-- sbc/proxy.go: other calls while handleInviteFromFSToTrunk runs.
use comcent_ce.Common.{
  ℕ, ◌&&◌, not, inl, inr, Bool, true, false, List, [], ◌∷◌, Option, none, some, Text, text, text_eq,
  store, leb, ◌==◌, ◌||◌, Bool-cases, Option-cases,
}
use comcent_ce.Sip.{Sipgo, Request, Response, get_header, from_address, cseq_number}
use comcent_ce.Forward.{build_forward, Ports, digest_cseq_offset}
use comcent_ce.Forward.Route.{RouteConfig}
use comcent_ce.Api.{IpNet, Api, Reply, Outcome, found, not_found, failed, TrunkData, get_sip_trunk}
use comcent_ce.Proxy.Calls.{Event, responds, closed, done, waiting, ended, is_success}
use comcent_ce.Proxy.Trunk.{
  Outbound, Trace, Route, trunk_route, spoofed_user_of, trunk_call, record_call, drop_transaction,
  on_digest, on_challenge, relay, forget_unless, leave, remember, forward_to_trunk, outgoing,
  invite_route, on_trunk, invite_to_trunk,
}
use comcent_ce.Proxy.Isolation.{
  Apart, Apart-refl, Apart-trans, store_call-Apart, store_active-Apart, delete_active-Apart,
}

module _ (sip : Sipgo) (req : Request) (id number spoofed : Text) (route : Route) where
  record_call-Apart :
      (offset : ℕ) (resp : Response) (s : Outbound)
      → Apart id s.table (record_call sip req id number spoofed route offset resp s).table
  unfolding record_call
  record_call-Apart offset resp s = elim (Bool-cases (is_success resp.status)) [
    | inl e ↦
        rw (e, record_call)
          (store_call-Apart id (trunk_call sip req id number spoofed route resp offset) s.table)
    | inr e ↦ rw (e, record_call) (Apart-refl id s.table)
  ]

  on_digest-Apart :
      (o : Option Response) (s : Outbound)
      → Apart id s.table (on_digest sip req id number spoofed route o s).0.table
  unfolding on_digest
  on_digest-Apart none s = Apart-refl id s.table
  on_digest-Apart (some resp) s =
      record_call-Apart (digest_cseq_offset (cseq_number resp.headers) (cseq_number req.headers))
        resp s

  remember-Apart :
      (s : Outbound) → Apart id s.table (remember sip req id number spoofed route s).table
  unfolding remember
  remember-Apart s = elim (Bool-cases (text_eq spoofed [])) [
    | inl e ↦ rw (e, remember) (Apart-refl id s.table)
    | inr e ↦ rw (e, remember) (Apart-refl id s.table)
  ]

  forget_unless-Apart :
      (established : Bool) (s : Outbound)
      → Apart id s.table (forget_unless sip req id number spoofed route established s).table
  forget_unless-Apart established s =
      elim (Bool-cases (not established && not (text_eq spoofed []))) [
        | inl e ↦ rw e (Apart-refl id s.table)
        | inr e ↦ rw e (Apart-refl id s.table)
      ]

  leave-Apart : (t : Trace) → Apart id t.0.table (leave sip req id number spoofed route t).0.table
  unfolding leave
  leave-Apart (s, acts, waiting) = Apart-refl id s.table
  leave-Apart (s, acts, ended b) =
      let t = drop_transaction sip req id number spoofed route s in
      Apart-trans id s.table t.table (forget_unless sip req id number spoofed route b t).table
        (delete_active-Apart id s.table) (forget_unless-Apart b t)

  module _ (digest : Request → Response → Text → Text → Option Response) where
    on_challenge-Apart :
        (fwd : Request) (resp : Response) (s : Outbound)
        → Apart id s.table (on_challenge sip req id number spoofed route digest fwd resp s).0.table
    unfolding on_challenge
    on_challenge-Apart fwd resp s =
        let t = drop_transaction sip req id number spoofed route s in
        let o = digest fwd resp route.outbound_user route.outbound_pass in
        Apart-trans id s.table t.table (on_digest sip req id number spoofed route o t).0.table
          (delete_active-Apart id s.table) (on_digest-Apart o t)

    relay-Apart :
        (fwd : Request) (events : List Event) (s : Outbound)
        → Apart id s.table (relay sip req id number spoofed route digest fwd events s).0.table
    unfolding relay
    relay-Apart fwd [] s = Apart-refl id s.table
    relay-Apart fwd (closed ∷ events) s = Apart-refl id s.table
    relay-Apart fwd (done has_error ∷ events) s = Apart-refl id s.table
    relay-Apart fwd (responds resp ∷ events) s = elim (Bool-cases (resp.status == 100)) [
      | inl e ↦ rw e (relay-Apart fwd events s)
      | inr e ↦ elim (Bool-cases (resp.status == 401 || resp.status == 407)) [
        | inl c ↦ rw (e, c) (on_challenge-Apart fwd resp s)
        | inr c ↦
            let t = record_call sip req id number spoofed route 0 resp s in
            elim (Bool-cases (leb 200 resp.status)) [
              | inl f ↦ rw (e, c, f) (record_call-Apart 0 resp s)
              | inr f ↦
                  rw (e, c, f)
                    (Apart-trans id s.table t.table
                      (relay sip req id number spoofed route digest fwd events t).0.table
                      (record_call-Apart 0 resp s) (relay-Apart fwd events t))
            ]
      ]
    ]

    forward_to_trunk-Apart :
        (fwd : Request) (connected : Bool) (events : List Event) (s : Outbound)
        → Apart id s.table
            (forward_to_trunk sip req id number spoofed route digest fwd connected events s).0.table
    unfolding forward_to_trunk
    forward_to_trunk-Apart fwd false events s = forget_unless-Apart false s
    forward_to_trunk-Apart fwd true events s =
        let t : Outbound = record s {
          table = record s.table { active = store id fwd s.table.active };
        } in
        let u = relay sip req id number spoofed route digest fwd events t in
        let v = (leave sip req id number spoofed route u).0.table in
        Apart-trans id s.table t.table v (store_active-Apart id fwd s.table)
          (Apart-trans id t.table u.0.table v (relay-Apart fwd events t) (leave-Apart u))

    invite_route-Apart :
        (cfg : RouteConfig) (ports : Ports) (connected : Bool) (events : List Event) (s : Outbound)
        → Apart id s.table
            (invite_route sip req id number spoofed route digest cfg ports connected events
              s).0.table
    unfolding invite_route
    invite_route-Apart cfg ports connected events s =
        elim (Option-cases (build_forward sip cfg req route.uri [])) [
          | inl b ↦ rw (b, invite_route) (Apart-refl id s.table)
          | inr (fwd, b) ↦
              let t = remember sip req id number spoofed route s in
              let out = outgoing sip req id number spoofed route ports fwd in
              rw (b, invite_route)
                (Apart-trans id s.table t.table
                  (forward_to_trunk sip req id number spoofed route digest out connected events
                    t).0.table
                  (remember-Apart s) (forward_to_trunk-Apart out connected events t))
        ]

module _ (net : IpNet) (sip : Sipgo) (digest : Request → Response → Text → Text → Option Response)
    (lookup_host : Text → List Text) (cfg : RouteConfig) (ports : Ports) where
  on_trunk-Apart :
      (req : Request) (id user number : Text) (connected : Bool) (events : List Event)
      (s : Outbound) (o : Outcome TrunkData)
      → Apart id s.table
          (on_trunk net sip digest lookup_host cfg ports req id user number connected events s
            o).0.table
  unfolding on_trunk
  on_trunk-Apart req id user number connected events s not_found = Apart-refl id s.table
  on_trunk-Apart req id user number connected events s failed = Apart-refl id s.table
  on_trunk-Apart req id user number connected events s (found trunk) =
      invite_route-Apart sip req id number (spoofed_user_of (from_address req.headers) number)
        (trunk_route lookup_host trunk user) digest cfg ports connected events s

  pub invite_to_trunk-Apart :
      (api : Api net) (now : ℕ) (reply : Reply TrunkData) (req : Request) (id user : Text)
      (connected : Bool) (events : List Event) (s : Outbound)
      → Apart id s.table
          (invite_to_trunk net sip digest lookup_host cfg ports api now reply req id user connected
            events s).1.0.table
  unfolding invite_to_trunk
  invite_to_trunk-Apart api now reply req id user connected events s =
      elim (Option-cases (get_header sip (text "X-Trunk-Number") req.headers)) [
        | inl e ↦ rw (e, invite_to_trunk) (Apart-refl id s.table)
        | inr (number, e) ↦
            rw (e, invite_to_trunk)
              (on_trunk-Apart req id user number connected events s
                (get_sip_trunk net api now number reply).1)
      ]
