-- ===== src/Proxy/Dialog/Frame.antt =====
-- sbc/proxy.go: other calls while relayInDialog runs.
use comcent_ce.Common.{
  ◌≡◌, inl, inr, refl, Bool, not, ◌&&◌, List, [], Option, none, some, Text, Dict, lookup,
  if◌then◌else◌, Bool-cases, Option-cases,
}
use comcent_ce.Sip.{Sipgo, Request, Response}
use comcent_ce.Forward.Route.{RouteConfig}
use comcent_ce.Proxy.Calls.{CallState, Calls, dialog_from_fs, dialog_to_fs}
use comcent_ce.Proxy.Dialog.{Dialog, is_over, cleanup_call, exchange, send_on, relay_in_dialog}
use comcent_ce.Proxy.Isolation.{Apart, Apart-refl, delete_call-Apart}

module _ (sip : Sipgo) (req : Request) where
  exchange-Apart :
      (id : Text) (state : CallState) (fwd : Request) (answer : Option Response) (g : Dialog)
      → Apart id g.table (exchange sip req id state fwd answer g).table
  unfolding exchange cleanup_call
  exchange-Apart id state fwd answer g = elim (Bool-cases (is_over req.method answer)) [
    | inl e ↦ rw (e, exchange) (delete_call-Apart id g.table)
    | inr e ↦ rw (e, exchange) (Apart-refl id g.table)
  ]

  send_on-Apart :
      (id : Text) (state : CallState) (o : Option Request) (answer : Option Response) (g : Dialog)
      → Apart id g.table (send_on sip req id state o answer g).table
  unfolding send_on
  send_on-Apart id state none answer g = Apart-refl id g.table
  send_on-Apart id state (some fwd) answer g = exchange-Apart id state fwd answer g

  -- What is sent on and answered, where only the tables differ.
  abbrev SameMessages : Dialog → Dialog → Type 0
  SameMessages g h = (h.forwarded ≡ g.forwarded) × (h.responses ≡ g.responses)

  send_on-same :
      (id : Text) (state : CallState) (o : Option Request) (answer : Option Response) (g h : Dialog)
      → SameMessages g h
      → SameMessages (send_on sip req id state o answer g) (send_on sip req id state o answer h)
  unfolding send_on exchange cleanup_call
  send_on-same id state none answer g h e = (e.0, refl)
  send_on-same id state (some fwd) answer g h e = elim (Bool-cases (is_over req.method answer)) [
    | inl f ↦ rw (f, exchange) (refl, refl)
    | inr f ↦ rw (f, exchange) (refl, refl)
  ]

  -- They depend on the call's own entry.
  pub relay_in_dialog-same :
      (cfg : RouteConfig) (s t : Calls) (spoof_cache : Dict Text) (from_fs : Bool)
      (authorized : Bool × List Response) (id : Text) (answer : Option Response)
      → lookup id t.calls ≡ lookup id s.calls
      → SameMessages
          (relay_in_dialog sip req cfg s spoof_cache from_fs authorized id answer)
          (relay_in_dialog sip req cfg t spoof_cache from_fs authorized id answer)
  unfolding relay_in_dialog
  relay_in_dialog-same cfg s t spoof_cache from_fs (authorized, refusal) id answer same =
      elim (Option-cases (lookup id s.calls)) [
        | inl e ↦ rw (relay_in_dialog, same, e) (refl, refl)
        | inr (state, e) ↦ elim (Bool-cases (not from_fs && not authorized)) [
          | inl f ↦ rw (relay_in_dialog, same, e, f) (refl, refl)
          | inr f ↦
              rw (relay_in_dialog, same, e, f)
                (send_on-same id state
                  (if from_fs
                    then dialog_from_fs sip cfg state req
                    else dialog_to_fs sip cfg state req)
                  answer
                  (record {
                    table = s;
                    spoof_cache = spoof_cache;
                    forwarded = none;
                    responses = [];
                  })
                  (record {
                    table = t;
                    spoof_cache = spoof_cache;
                    forwarded = none;
                    responses = [];
                  })
                  (refl, refl))
        ]
      ]

  pub relay_in_dialog-Apart :
      (cfg : RouteConfig) (s : Calls) (spoof_cache : Dict Text) (from_fs : Bool)
      (authorized : Bool × List Response) (id : Text) (answer : Option Response)
      → Apart id s (relay_in_dialog sip req cfg s spoof_cache from_fs authorized id answer).table
  unfolding relay_in_dialog
  relay_in_dialog-Apart cfg s spoof_cache from_fs (authorized, refusal) id answer =
      elim (Option-cases (lookup id s.calls)) [
        | inl e ↦ rw (e, relay_in_dialog) (Apart-refl id s)
        | inr (state, e) ↦ elim (Bool-cases (not from_fs && not authorized)) [
          | inl f ↦ rw (e, relay_in_dialog, f) (Apart-refl id s)
          | inr f ↦
              rw (e, relay_in_dialog, f)
                (send_on-Apart id state
                  (if from_fs
                    then dialog_from_fs sip cfg state req
                    else dialog_to_fs sip cfg state req)
                  answer
                  (record {
                    table = s;
                    spoof_cache = spoof_cache;
                    forwarded = none;
                    responses = [];
                  }))
        ]
      ]
