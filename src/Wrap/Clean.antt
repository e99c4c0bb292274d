-- ===== src/Wrap/Clean.antt =====
-- sbc/crlf_validation.go: the checks, beside the texts that hold neither CR nor LF.
use comcent_ce.Common.{
  ◌≡◌, ◌≢◌, ◌↔◌, false, List, [], ◌∷◌, none, arith, Text, text, All, All-append, leb, Bool-cases,
  Option-cases, inl, inr,
}
use comcent_ce.Sip.{Header, Request, Response, Sipgo, name, value}
use comcent_ce.Wrap.{
  has_crlf, validate_headers, validate_request, validate_response, checked, checked_all,
}

-- No CR and no LF.
abbrev LacksCrlf : Text → Type 0
LacksCrlf = All (λ c. (c ≢ 13) × (c ≢ 10))

has_crlf_iff : (s : Text) → (has_crlf s ≡ false) ↔ LacksCrlf s
unfolding has_crlf
has_crlf_iff [] = ground arith
has_crlf_iff (c ∷ s) = ground (arith, has_crlf_iff s)

module _ (sip : Sipgo) where
  abbrev CleanHeaders : List Header → Type 0
  CleanHeaders = All (λ h. LacksCrlf (name h) × LacksCrlf (value sip h))

  abbrev pub CleanRequest : Request → Type 0
  CleanRequest req = LacksCrlf (sip.request_line req) × CleanHeaders req.headers

  abbrev pub CleanResponse : Response → Type 0
  CleanResponse res = LacksCrlf (sip.status_line res) × CleanHeaders res.headers

  validate_headers_iff : (hs : List Header) → (validate_headers sip hs ≡ none) ↔ CleanHeaders hs
  unfolding validate_headers
  validate_headers_iff [] = ground arith
  validate_headers_iff (h ∷ hs) =
      ground (arith, validate_headers_iff hs, has_crlf_iff (name h), has_crlf_iff (value sip h))

  -- A request passes the check exactly when its request line and the name and value of every header
  -- hold neither CR nor LF.
  pub validate_request_iff : (req : Request) → (validate_request sip req ≡ none) ↔ CleanRequest req
  unfolding validate_request
  validate_request_iff req =
      ground (arith, validate_headers_iff req.headers, has_crlf_iff (sip.request_line req))

  pub validate_response_iff :
      (res : Response) → (validate_response sip res ≡ none) ↔ CleanResponse res
  unfolding validate_response
  validate_response_iff res =
      ground (arith, validate_headers_iff res.headers, has_crlf_iff (sip.status_line res))

  checked-clean :
      (req : Request) (res : Response)
      → CleanResponse (sip.new_response req 502 (text "Bad Gateway") [])
      → All CleanResponse (checked sip req res)
  unfolding checked
  checked-clean req res h = elim (Option-cases (validate_response sip res)) [
    | inl e ↦ rw (e, checked) ((validate_response_iff res).0 e, tt)
    | inr (x, e) ↦ elim (Bool-cases (leb 200 res.status)) [
      | inl t ↦ rw (e, checked, t) (h, tt)
      | inr t ↦ rw (e, checked, t) tt
    ]
  ]

  pub checked_all-clean :
      (req : Request) (rs : List Response)
      → CleanResponse (sip.new_response req 502 (text "Bad Gateway") [])
      → All CleanResponse (checked_all sip req rs)
  unfolding checked_all
  checked_all-clean req [] h = tt
  checked_all-clean req (r ∷ rs) h =
      All-append CleanResponse (checked sip req r) (checked_all sip req rs) (checked-clean req r h)
        (checked_all-clean req rs h)
