-- ===== src/Proxy/Dialog.antt =====
-- sbc/proxy.go: relayInDialog and cleanupCall. `answer` is what client.Do returns, `none` for an error;
-- the result of authorizeExternalInDialog is an argument, with the responses that it has sent.
mod Tests
pub mod Hangup
pub mod Frame
use comcent_ce.Common.{
  ℕ, Bool, true, false, not, ◌&&◌, ◌||◌, List, [], ◌∷◌, Option, none, some, Text, text, text_eq,
  Dict, lookup, delete, ◌==◌, if◌then◌else◌,
}
use comcent_ce.Sip.{Sipgo, Request, Response, bye}
use comcent_ce.Contact.Targets.{spoof_cache_key}
use comcent_ce.Forward.{copy_response_headers}
use comcent_ce.Forward.Route.{RouteConfig}
use comcent_ce.Proxy.Affinity.{delete_affinity}
use comcent_ce.Proxy.Calls.{CallState, Calls, dialog_from_fs, dialog_to_fs}

-- The state that the handler changes, the request that it sends on, and its responses.
pub record Dialog : Type 0 where
  pub table : Calls
  pub spoof_cache : Dict Text
  pub forwarded : Option Request
  pub responses : List Response

pub cleanup_call : Text → CallState → Dialog → Dialog
cleanup_call id state g = record g {
  table = record g.table {
    calls = delete id g.table.calls;
    affinity = delete_affinity id state.user_aors g.table.affinity;
  };
  spoof_cache =
      if text_eq state.spoofed_user []
      then g.spoof_cache
      else delete (spoof_cache_key id state.spoofed_user) g.spoof_cache;
}

-- Whether the call ends with the answer to a request of the method.
pub is_over : Text → Option Response → Bool
is_over method none = text_eq method bye
is_over method (some resp) = text_eq method bye && (resp.status == 481 || resp.status == 200)

module _ (sip : Sipgo) (req : Request) where
  abbrev plain : ℕ → Text → Response
  plain status reason = sip.new_response req status reason []

  pub reply_to : Option Response → Response
  reply_to none =
      if text_eq req.method bye then plain 200 (text "OK") else plain 408 (text "Request Timeout")
  reply_to (some resp) =
      let relay = sip.new_response req resp.status resp.reason resp.body in
      if text_eq req.method bye && resp.status == 481
      then plain 200 (text "OK")
      else record relay { headers = copy_response_headers sip resp.headers relay.headers }

  -- From client.Do on.
  exchange : Text → CallState → Request → Option Response → Dialog → Dialog
  unfolding is_over
  exchange id state fwd answer g =
      let h = record g { forwarded = some fwd; responses = reply_to answer ∷ [] } in
      if is_over req.method answer then cleanup_call id state h else h

  -- From the building of the request on.
  send_on : Text → CallState → Option Request → Option Response → Dialog → Dialog
  unfolding exchange
  send_on id state none answer g = record g { responses = plain 483 (text "Too Many Hops") ∷ [] }
  send_on id state (some fwd) answer g = exchange id state fwd answer g

  -- relayInDialog
  pub relay_in_dialog :
      RouteConfig
      → Calls
      → Dict Text
      → Bool
      → Bool × List Response
      → Text
      → Option Response
      → Dialog
  unfolding send_on
  relay_in_dialog cfg s spoof_cache from_fs (authorized, refusal) id answer =
      let g : Dialog = record {
        table = s;
        spoof_cache = spoof_cache;
        forwarded = none;
        responses = [];
      } in
      elim (lookup id s.calls) [
        | none ↦ record g {
          responses =
              (if text_eq req.method bye
                then plain 200 (text "OK")
                else plain 481 (text "Call Does Not Exist"))
              ∷ [];
        }
        | some state ↦
            if not from_fs && not authorized
            then record g { responses = refusal }
            else send_on id state
                (if from_fs
                  then dialog_from_fs sip cfg state req
                  else dialog_to_fs sip cfg state req)
                answer g
      ]
