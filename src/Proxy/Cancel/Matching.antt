-- ===== src/Proxy/Cancel/Matching.antt =====
-- sbc/proxy.go: the headers of the CANCEL of cancelOutgoing, beside those of the INVITE.
use comcent_ce.Common.{
  ℕ, ◌≡◌, ◌∙◌, refl, inl, inr, List, [], ◌∷◌, ◌++◌, Option, none, some, Text, text, text_eq, lookup,
  keep_idem, Option-cases,
}
use comcent_ce.Go.Strings.{to_lower}
use comcent_ce.Sip.{
  Header, cseq_header, max_forwards_header, Request, first, pick_from, pick_to, pick_call_id,
  pick_cseq, from_address, to_address, call_id, cseq_number, cancel,
}
use comcent_ce.Forward.{named}
use comcent_ce.Proxy.Calls.{Calls}
use comcent_ce.Proxy.Cancel.{
  clone_first, is_from, is_to, is_call_id, cancel_cseq, cancel_headers, cancel_request,
  cancel_outgoing,
}
use comcent_ce.Proxy.Cancel.Clones.{
  pick_via, routes, Skips, first-clone_skipped, first-keep_skipped, first-clone, keep-clone,
  other_name, skip_from, skip_to, skip_call_id, skip_cseq, skip_via, own_from, own_to, own_call_id,
  own_via, name_from, name_to, name_call_id,
}

-- The CANCEL fits the INVITE as RFC 3261 wants it: method, target, first Via, From, To, Call-ID, number of
-- the CSeq and Route are those of the INVITE, but for the method.
pub record Matches (fwd c : Request) : Type 0 where
  pub is_cancel : c.method ≡ cancel
  pub same_target : c.recipient ≡ fwd.recipient
  pub same_hop : c.destination ≡ fwd.destination
  pub same_via : first pick_via c.headers ≡ first pick_via fwd.headers
  pub same_from : from_address c.headers ≡ from_address fwd.headers
  pub same_to : to_address c.headers ≡ to_address fwd.headers
  pub same_call : call_id c.headers ≡ call_id fwd.headers
  pub same_number : cseq_number c.headers ≡ cseq_number fwd.headers
  pub same_routes : routes c.headers ≡ routes fwd.headers

module _ (hs : List Header) where
  -- The headers of the CANCEL from its CSeq on, from its Call-ID on, and so on.
  abbrev at_hops : List Header
  at_hops = max_forwards_header 70 ∷ routes hs

  abbrev at_cseq : List Header
  at_cseq = cancel_cseq (cseq_number hs) ++ at_hops

  abbrev at_call_id : List Header
  at_call_id = clone_first is_call_id hs ++ at_cseq

  abbrev at_to : List Header
  at_to = clone_first is_to hs ++ at_call_id

  abbrev at_from : List Header
  at_from = clone_first is_from hs ++ at_to

  module _ {A : Type 0} (pick : Header → Option A) where
    first-at_hops :
        pick (max_forwards_header 70) ≡ none
        → Skips pick (named (text "route"))
        → first pick at_hops ≡ none
    unfolding first
    first-at_hops e k = rw e (first-keep_skipped pick (named (text "route")) hs k)

    first-at_cseq :
        ((n : ℕ) → pick (cseq_header n cancel) ≡ none)
        → pick (max_forwards_header 70) ≡ none
        → Skips pick (named (text "route"))
        → first pick at_cseq ≡ none
    unfolding first cancel_cseq
    first-at_cseq c e k = elim (Option-cases (cseq_number hs)) [
      | inl q ↦ rw q (first-at_hops e k)
      | inr (n, q) ↦ rw (q, c n) (first-at_hops e k)
    ]

  matching_from : from_address (cancel_headers hs) ≡ from_address hs
  unfolding cancel_headers to_lower text_eq
  matching_from =
      first-clone_skipped pick_from (named (text "via")) hs at_from
        (skip_from (named (text "via")) (λ a. refl))
      ∙ first-clone pick_from is_from hs at_to own_from (
          first-clone_skipped pick_from is_to hs at_call_id (skip_from is_to (λ a. refl))
          ∙ first-clone_skipped pick_from is_call_id hs at_cseq (skip_from is_call_id (λ a. refl))
          ∙ first-at_cseq pick_from (λ n. refl) refl (skip_from (named (text "route")) (λ a. refl)))

  matching_to : to_address (cancel_headers hs) ≡ to_address hs
  unfolding cancel_headers to_lower text_eq
  matching_to =
      first-clone_skipped pick_to (named (text "via")) hs at_from
        (skip_to (named (text "via")) (λ a. refl))
      ∙ first-clone_skipped pick_to is_from hs at_to (skip_to is_from (λ a. refl))
      ∙ first-clone pick_to is_to hs at_call_id own_to (
          first-clone_skipped pick_to is_call_id hs at_cseq (skip_to is_call_id (λ a. refl))
          ∙ first-at_cseq pick_to (λ n. refl) refl (skip_to (named (text "route")) (λ a. refl)))

  matching_call_id : call_id (cancel_headers hs) ≡ call_id hs
  unfolding cancel_headers to_lower text_eq
  matching_call_id =
      first-clone_skipped pick_call_id (named (text "via")) hs at_from
        (skip_call_id (named (text "via")) (λ a. refl))
      ∙ first-clone_skipped pick_call_id is_from hs at_to (skip_call_id is_from (λ a. refl))
      ∙ first-clone_skipped pick_call_id is_to hs at_call_id (skip_call_id is_to (λ a. refl))
      ∙ first-clone pick_call_id is_call_id hs at_cseq own_call_id (
          first-at_cseq pick_call_id (λ n. refl) refl
            (skip_call_id (named (text "route")) (λ a. refl)))

  matching_cseq : cseq_number (cancel_headers hs) ≡ cseq_number hs
  unfolding cancel_headers first cancel_cseq to_lower text_eq
  matching_cseq =
      first-clone_skipped pick_cseq (named (text "via")) hs at_from
        (skip_cseq (named (text "via")) (λ n m. refl))
      ∙ first-clone_skipped pick_cseq is_from hs at_to (skip_cseq is_from (λ n m. refl))
      ∙ first-clone_skipped pick_cseq is_to hs at_call_id (skip_cseq is_to (λ n m. refl))
      ∙ first-clone_skipped pick_cseq is_call_id hs at_cseq (skip_cseq is_call_id (λ n m. refl))
      ∙ number (cseq_number hs)
    where
      number : (o : Option ℕ) → cseq_number (cancel_cseq o ++ at_hops) ≡ o
      number (some n) = refl
      number none = first-at_hops pick_cseq refl (skip_cseq (named (text "route")) (λ n m. refl))

  matching_via : first pick_via (cancel_headers hs) ≡ first pick_via hs
  unfolding cancel_headers to_lower text_eq
  matching_via = first-clone pick_via (named (text "via")) hs at_from own_via (
      first-clone_skipped pick_via is_from hs at_to
        (skip_via is_from (λ h e. name_from (text "via") h refl e))
      ∙ first-clone_skipped pick_via is_to hs at_call_id
          (skip_via is_to (λ h e. name_to (text "via") h refl e))
      ∙ first-clone_skipped pick_via is_call_id hs at_cseq
          (skip_via is_call_id (λ h e. name_call_id (text "via") h refl e))
      ∙ first-at_cseq pick_via (λ n. refl) refl
          (skip_via (named (text "route"))
            (λ h e. other_name (text "route") (text "via") h refl e)))

  matching_routes : routes (cancel_headers hs) ≡ routes hs
  unfolding cancel_headers cancel_cseq to_lower text_eq
  matching_routes =
      keep-clone (named (text "route")) (named (text "via")) hs at_from
        (λ h e. other_name (text "via") (text "route") h refl e)
      ∙ keep-clone (named (text "route")) is_from hs at_to
          (λ h e. name_from (text "route") h refl e)
      ∙ keep-clone (named (text "route")) is_to hs at_call_id
          (λ h e. name_to (text "route") h refl e)
      ∙ keep-clone (named (text "route")) is_call_id hs at_cseq
          (λ h e. name_call_id (text "route") h refl e)
      ∙ behind (cseq_number hs)
    where
      behind : (o : Option ℕ) → routes (cancel_cseq o ++ at_hops) ≡ routes hs
      behind none = keep_idem (named (text "route")) hs
      behind (some n) = keep_idem (named (text "route")) hs

-- The CANCEL of an INVITE, as cancelOutgoing and cancelBranch write it, fits that INVITE.
pub cancel_request-Matches :
    (fwd : Request) (transport : Text) → Matches fwd (cancel_request fwd transport)
unfolding cancel_request
cancel_request-Matches fwd transport = record {
  is_cancel = refl;
  same_target = refl;
  same_hop = refl;
  same_via = matching_via fwd.headers;
  same_from = matching_from fwd.headers;
  same_to = matching_to fwd.headers;
  same_call = matching_call_id fwd.headers;
  same_number = matching_cseq fwd.headers;
  same_routes = matching_routes fwd.headers;
}

-- cancelOutgoing sends the CANCEL of the request that is stored for the call.
pub cancel_outgoing-stored :
    (s : Calls) (id : Text) (fwd : Request)
    → lookup id s.active ≡ some fwd
    → cancel_outgoing s id ≡ some (cancel_request fwd [])
unfolding cancel_outgoing
cancel_outgoing-stored s id fwd e = rw (cancel_outgoing, e) refl

pub cancel_outgoing-none :
    (s : Calls) (id : Text) → lookup id s.active ≡ none → cancel_outgoing s id ≡ none
unfolding cancel_outgoing
cancel_outgoing-none s id e = rw (cancel_outgoing, e) refl
