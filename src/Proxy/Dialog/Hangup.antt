-- ===== src/Proxy/Dialog/Hangup.antt =====
-- sbc/proxy.go: the call table behind relayInDialog.
use comcent_ce.Common.{
  ◌≡◌, inl, inr, refl, Bool, true, false, not, ◌&&◌, ◌||◌, ◌==◌, List, [], ◌∷◌, Option, none, some,
  arith, Text, text, text_eq, Dict, lookup, lookup-delete, if◌then◌else◌, Option-cases, Bool-cases,
}
use comcent_ce.Sip.{Sipgo, Request, Response}
use comcent_ce.Forward.Route.{RouteConfig}
use comcent_ce.Proxy.Calls.{CallState, Calls}
use comcent_ce.Proxy.Dialog.{
  Dialog, cleanup_call, is_over, exchange, send_on, relay_in_dialog, reply_to,
}

-- The answer says that the call is over, or there is none.
abbrev is_goodbye : Option Response → Bool
is_goodbye none = true
is_goodbye (some resp) = resp.status == 200 || resp.status == 481

-- The request is a BYE that was sent on, and was answered in that way.
abbrev pub hangs_up : Text → Option Response → Option Request → Bool
hangs_up method answer none = false
hangs_up method answer (some fwd) = text_eq method (text "BYE") && is_goodbye answer

is_over-goodbye :
    (method : Text) (answer : Option Response)
    → is_over method answer ≡ (text_eq method (text "BYE") && is_goodbye answer)
unfolding is_over
is_over-goodbye method none = ground arith
is_over-goodbye method (some resp) = ground arith

calls-cleanup_call :
    (id k : Text) (state : CallState) (g : Dialog)
    → lookup k (cleanup_call id state g).table.calls
      ≡ (if text_eq id k then none else lookup k g.table.calls)
unfolding cleanup_call
calls-cleanup_call id k state g = lookup-delete id k g.table.calls

forwarded-cleanup_call :
    (id : Text) (state : CallState) (g : Dialog) → (cleanup_call id state g).forwarded ≡ g.forwarded
unfolding cleanup_call
forwarded-cleanup_call id state g = refl

module _ (sip : Sipgo) (req : Request) (id k : Text) (state : CallState) (answer : Option Response)
    (g : Dialog) where
  calls-exchange :
      (fwd : Request)
      → lookup k (exchange sip req id state fwd answer g).table.calls ≡ (
          if text_eq id k
            && hangs_up req.method answer (exchange sip req id state fwd answer g).forwarded
          then none
          else lookup k g.table.calls)
  unfolding exchange
  calls-exchange fwd = elim (Bool-cases (is_over req.method answer)) [
    | inl e ↦ ground (
      arith,
      forwarded-cleanup_call id state
          (record g { forwarded = some fwd; responses = reply_to sip req answer ∷ [] }),
      calls-cleanup_call id k state
          (record g { forwarded = some fwd; responses = reply_to sip req answer ∷ [] }),
      is_over-goodbye req.method answer,
    )
    | inr e ↦ ground (arith, is_over-goodbye req.method answer)
  ]

  calls-send_on :
      (built : Option Request)
      → g.forwarded ≡ none
      → lookup k (send_on sip req id state built answer g).table.calls ≡ (
          if text_eq id k
            && hangs_up req.method answer (send_on sip req id state built answer g).forwarded
          then none
          else lookup k g.table.calls)
  unfolding send_on
  calls-send_on none n = ground arith
  calls-send_on (some fwd) n = calls-exchange fwd

-- A request in a dialog takes its call out of the table exactly when it is a BYE that was sent on and was
-- answered with 200 or 481 or not at all; every other call stays as it is, on every branch.
pub calls-relay_in_dialog :
    (sip : Sipgo) (req : Request) (cfg : RouteConfig) (s : Calls) (spoof_cache : Dict Text)
    (from_fs : Bool) (permit : Bool × List Response) (id k : Text) (answer : Option Response)
    → lookup k (relay_in_dialog sip req cfg s spoof_cache from_fs permit id answer).table.calls ≡ (
        if text_eq id k
          && hangs_up req.method answer
              (relay_in_dialog sip req cfg s spoof_cache from_fs permit id answer).forwarded
        then none
        else lookup k s.calls)
unfolding relay_in_dialog
calls-relay_in_dialog sip req cfg s spoof_cache from_fs (authorized, refusal) id k answer =
    elim (Option-cases (lookup id s.calls)) [
      | inl e ↦ rw (e, relay_in_dialog) (ground arith)
      | inr (state, e) ↦ elim (Bool-cases (not from_fs && not authorized)) [
        | inl r ↦ rw (e, relay_in_dialog, r) (ground arith)
        | inr r ↦ rw (e, relay_in_dialog, r) (calls-send_on sip req id k state answer _ _ refl)
      ]
    ]
