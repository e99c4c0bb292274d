-- ===== src/Wrap.antt =====
-- The wrappers round a request handler: sbc/crlf_validation.go, sbc/symmetric_responses.go, dropBanned
-- of sbc/ip_ban.go, and their order in sbc/main.go. A handler takes a request and the state S of the
-- program, and gives the new state and the responses that it hands to tx.Respond, in order. A wrapped
-- handler gives the responses that leave the controller.
mod Tests
pub mod Clean
pub mod Order
use comcent_ce.Common.{
  ℕ, Bool, true, false, not, ◌&&◌, ◌||◌, List, [], ◌∷◌, ◌++◌, Option, none, some, Text, text,
  text_eq, any, leb, ◌==◌, if◌then◌else◌,
}
use comcent_ce.Go.Strings.{equal_fold}
use comcent_ce.Sip.{Header, Request, Response, Sipgo, name, value, ack}

-- strings.ContainsAny(s, "\r\n")
pub has_crlf : Text → Bool
has_crlf s = any (λ c. c == 13 || c == 10) s

-- What the error message names.
pub data Invalid : Type 0 where
  request_line status_line : Invalid
  header : Text → Invalid

module _ (sip : Sipgo) where
  -- The result is the error, if there is one.
  pub validate_headers : List Header → Option Invalid
  validate_headers [] = none
  validate_headers (h ∷ hs) =
      if has_crlf (name h) || has_crlf (value sip h)
      then some (header (name h))
      else validate_headers hs

  pub validate_request : Request → Option Invalid
  unfolding validate_headers
  validate_request req =
      if has_crlf (sip.request_line req) then some request_line else validate_headers req.headers

  pub validate_response : Response → Option Invalid
  unfolding validate_headers
  validate_response res =
      if has_crlf (sip.status_line res) then some status_line else validate_headers res.headers

abbrev pub Handler : Type 0 → Type 0
Handler S = Request → S → S × List Response

-- validatingTx.Respond: the response that goes on to the transaction, if any.
pub checked : Sipgo → Request → Response → List Response
checked sip req res = elim (validate_response sip res) [
  | none ↦ res ∷ []
  | some e ↦
      if leb 200 res.status then sip.new_response req 502 (text "Bad Gateway") [] ∷ [] else []
]

pub checked_all : Sipgo → Request → List Response → List Response
unfolding checked
checked_all sip req [] = []
checked_all sip req (r ∷ rs) = checked sip req r ++ checked_all sip req rs

module _ {S : Type 0} (sip : Sipgo) where
  pub validate_messages : Handler S → Handler S
  unfolding checked_all
  validate_messages h req s = elim (validate_request sip req) [
    | some e ↦ (
      s,
      if text_eq req.method ack then [] else sip.new_response req 400 (text "Bad Request") [] ∷ [],
    )
    | none ↦ let (s', rs) = h req s in (s', checked_all sip req rs)
  ]

unfoldable pub is_udp : Text → Bool
is_udp transport = equal_fold transport (text "udp")

pub redirect : Text → List Response → List Response
redirect source [] = []
redirect source (r ∷ rs) = record r { destination = source } ∷ redirect source rs

module _ {S : Type 0} where
  -- The transaction is replaced only for a request over UDP whose source is known.
  pub symmetric_responses : Handler S → Handler S
  unfolding redirect is_udp
  symmetric_responses h req s =
      let (s', rs) = h req s in
      (
        s',
        if is_udp req.transport && not (text_eq req.source []) then redirect req.source rs else rs,
      )

  -- `is_banned` is p.ban.Banned(sourceIPFromRequest(req)) in the state of the call.
  pub drop_banned : (S → Request → Bool) → Handler S → Handler S
  drop_banned is_banned h req s = if is_banned s req then (s, []) else h req s

module _ {S : Type 0} (sip : Sipgo) (is_banned : S → Request → Bool) where
  pub public_wrap : Handler S → Handler S
  public_wrap h = drop_banned is_banned (symmetric_responses (validate_messages sip h))
