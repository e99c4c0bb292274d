-- ===== src/Proxy/Cancel.antt =====
-- sbc/proxy.go: handleCancel, cancelOutgoing and cancelBranch. A header that the INVITE does not have is
-- left out of its CANCEL. A transport that is not set is the empty text.
mod Tests
pub mod Propagated
pub mod Clones
pub mod Matching
use comcent_ce.Common.{
  ℕ, Bool, true, false, not, ◌&&◌, List, [], ◌∷◌, ◌++◌, Option, none, some, Text, text, lookup,
  keep, if◌then◌else◌,
}
use comcent_ce.Sip.{
  Sipgo, Header, Request, Response, from_header, to_header, call_id_header, cseq_header,
  max_forwards_header, generic_header, cseq_number, cancel,
}
use comcent_ce.Forward.{named, too_many_hops}
use comcent_ce.Proxy.Calls.{Calls}

-- sip.HeaderClone of what an accessor returns.
pub clone_first : (Header → Bool) → List Header → List Header
clone_first p [] = []
clone_first p (h ∷ hs) = if p h then h ∷ [] else clone_first p hs

abbrev pub is_from : Header → Bool
is_from (from_header a) = true
is_from _ = false

abbrev pub is_to : Header → Bool
is_to (to_header a) = true
is_to _ = false

abbrev pub is_call_id : Header → Bool
is_call_id (call_id_header id) = true
is_call_id _ = false

cancel_cseq : Option ℕ → List Header
cancel_cseq none = []
cancel_cseq (some n) = cseq_header n cancel ∷ []

cancel_headers : List Header → List Header
unfolding cancel_cseq clone_first
cancel_headers hs =
    clone_first (named (text "via")) hs
    ++ (clone_first is_from hs
        ++ (clone_first is_to hs
            ++ (clone_first is_call_id hs
                ++ (cancel_cseq (cseq_number hs)
                    ++ (max_forwards_header 70 ∷ keep (named (text "route")) hs)))))

-- The CANCEL of an INVITE that was sent on, with the transport that is set on it.
pub cancel_request : Request → Text → Request
unfolding cancel_headers
cancel_request fwd transport = record {
  method = cancel;
  recipient = fwd.recipient;
  headers = cancel_headers fwd.headers;
  body = [];
  source = fwd.source;
  destination = fwd.destination;
  transport = transport;
}

-- cancelOutgoing: the CANCEL that it writes, if it writes one.
unfoldable pub cancel_outgoing : Calls → Text → Option Request
cancel_outgoing s id = elim (lookup id s.active) [
  | none ↦ none
  | some fwd ↦ some (cancel_request fwd [])
]

-- handleCancel, on the result of authenticateExternalRequest with the responses that it has sent: the
-- responses and the CANCEL.
pub handle_cancel :
    Sipgo → Calls → Bool → Bool × List Response → Text → Request → List Response × Option Request
unfolding cancel_outgoing
handle_cancel sip s from_fs (authorized, refusal) id req =
    if too_many_hops req
    then (sip.new_response req 483 (text "Too Many Hops") [] ∷ [], none)
    else if not from_fs && not authorized
    then (refusal, none)
    else (sip.new_response req 200 (text "OK") [] ∷ [], cancel_outgoing s id)
