-- ===== src/Wrap/Order.antt =====
-- sbc/main.go: what the wrappers do in the order in which the public side applies them.
use comcent_ce.Common.{
  ◌≡◌, ◌≢◌, refl, Bool, true, false, not, ◌&&◌, List, [], ◌∷◌, arith, Text, text, text_eq,
  text_eq_iff, All, ap, if◌then◌else◌, Bool-cases, Option-cases, inl, inr,
}
use comcent_ce.Sip.{Request, Response, Sipgo, ack}
use comcent_ce.Wrap.{
  validate_request, Handler, checked, checked_all, validate_messages, is_udp, redirect,
  symmetric_responses, drop_banned, public_wrap,
}
use comcent_ce.Wrap.Clean.{
  CleanRequest, CleanResponse, validate_request_iff, validate_response_iff, checked_all-clean,
}

module _ (sip : Sipgo) where
  checked_all-eq :
      (req : Request) (rs : List Response)
      → All (CleanResponse sip) rs
      → checked_all sip req rs ≡ rs
  unfolding checked_all checked
  checked_all-eq req [] h = refl
  checked_all-eq req (r ∷ rs) h =
      rw ((validate_response_iff sip r).1 h.0, checked)
        (ap (λ (t : List Response). r ∷ t) (checked_all-eq req rs h.1))

  -- Where the request and every response of the handler are clean, the check is invisible.
  validate_messages_transparent :
      {S : Type 0} (h : Handler S) (req : Request) (s : S)
      → CleanRequest sip req
      → All (CleanResponse sip) (h req s).1
      → validate_messages sip h req s ≡ h req s
  unfolding validate_messages
  validate_messages_transparent h req s c r =
      rw ((validate_request_iff sip req).1 c, validate_messages)
        (ap (λ (rs : List Response). ((h req s).0, rs)) (checked_all-eq req (h req s).1 r))

  -- A request that is not clean never reaches the handler: the state stays, and the answer is the one
  -- response 400, or none to an ACK.
  validate_messages_rejects :
      {S : Type 0} (h : Handler S) (req : Request) (s : S)
      → ¬ CleanRequest sip req
      → validate_messages sip h req s ≡ (
        s,
        if text_eq req.method ack
            then []
            else sip.new_response req 400 (text "Bad Request") [] ∷ [],
      )
  unfolding validate_messages
  validate_messages_rejects h req s c = elim (Option-cases (validate_request sip req)) [
    | inl e ↦ absurd (c ((validate_request_iff sip req).0 e))
    | inr (x, e) ↦ rw (e, validate_messages) refl
  ]

abbrev GoesTo : Text → Response → Type 0
GoesTo source res = res.destination ≡ source

redirect-GoesTo : (source : Text) (rs : List Response) → All (GoesTo source) (redirect source rs)
unfolding redirect
redirect-GoesTo source [] = tt
redirect-GoesTo source (r ∷ rs) = (refl, redirect-GoesTo source rs)

-- The line of a response does not show where it is sent.
abbrev IgnoresDestination : Sipgo → Type 0
IgnoresDestination sip =
    (r : Response) (d : Text) → sip.status_line (record r { destination = d }) ≡ sip.status_line r

redirect-clean :
    (sip : Sipgo) (source : Text) (rs : List Response)
    → IgnoresDestination sip
    → All (CleanResponse sip) rs
    → All (CleanResponse sip) (redirect source rs)
unfolding redirect
redirect-clean sip source [] i h = tt
redirect-clean sip source (r ∷ rs) i h =
    ((rw (i r source) h.0.0, h.0.1), redirect-clean sip source rs i h.1)

module _ {S : Type 0} (g : Handler S) (req : Request) (s : S) where
  symmetric-GoesTo :
      is_udp req.transport ≡ true
      → req.source ≢ []
      → All (GoesTo req.source) (symmetric_responses g req s).1
  unfolding symmetric_responses
  symmetric-GoesTo u n =
      let known : text_eq req.source [] ≡ false = ground (arith, text_eq_iff req.source []) in
      rw (u, known) (redirect-GoesTo req.source (g req s).1)

  symmetric-clean :
      (sip : Sipgo)
      → IgnoresDestination sip
      → All (CleanResponse sip) (g req s).1
      → All (CleanResponse sip) (symmetric_responses g req s).1
  unfolding symmetric_responses
  symmetric-clean sip i c =
      elim (Bool-cases (is_udp req.transport && not (text_eq req.source []))) [
        | inl t ↦ rw t (redirect-clean sip req.source (g req s).1 i c)
        | inr t ↦ rw t c
      ]

  drop_banned-All :
      (P : Response → Type 0) (is_banned : S → Request → Bool)
      → All P (g req s).1
      → All P (drop_banned is_banned g req s).1
  unfolding drop_banned
  drop_banned-All P is_banned a = elim (Bool-cases (is_banned s req)) [
    | inl b ↦ rw b tt
    | inr b ↦ rw b a
  ]

validate-clean :
    {S : Type 0} (sip : Sipgo) (h : Handler S) (req : Request) (s : S)
    → CleanRequest sip req
    → CleanResponse sip (sip.new_response req 502 (text "Bad Gateway") [])
    → All (CleanResponse sip) (validate_messages sip h req s).1
unfolding validate_messages
validate-clean sip h req s c b =
    rw ((validate_request_iff sip req).1 c, validate_messages) (checked_all-clean sip req _ b)

module _ {S : Type 0} (sip : Sipgo) (is_banned : S → Request → Bool) (h : Handler S) where
  -- On the public side every response to a request over UDP with a known source goes to the address
  -- that the request came from, whatever the handler does.
  public_wrap-GoesTo :
      (req : Request) (s : S)
      → is_udp req.transport ≡ true
      → req.source ≢ []
      → All (GoesTo req.source) (public_wrap sip is_banned h req s).1
  unfolding public_wrap
  public_wrap-GoesTo req s u n =
      drop_banned-All _ req s (GoesTo req.source) is_banned (symmetric-GoesTo _ req s u n)

  -- Every response that leaves the public side to a clean request is clean, whatever the handler
  -- does, if the 502 that sipgo builds from the request is and a status line does not depend on where
  -- the response is sent.
  pub public_wrap-clean :
      (req : Request) (s : S)
      → IgnoresDestination sip
      → CleanRequest sip req
      → CleanResponse sip (sip.new_response req 502 (text "Bad Gateway") [])
      → All (CleanResponse sip) (public_wrap sip is_banned h req s).1
  unfolding public_wrap
  public_wrap-clean req s i c b =
      drop_banned-All _ req s (CleanResponse sip) is_banned
        (symmetric-clean _ req s sip i (validate-clean sip h req s c b))
