-- ===== src/Wrap/Tests.antt =====
-- sbc/crlf_validation.go and sbc/symmetric_responses.go: runs of the wrappers.
use comcent_ce.Common.{ℕ, suc, ◌≡◌, ◌≢◌, ◌↔◌, refl, Bool, false, [], ◌∷◌, none, text, All}
use comcent_ce.Fixtures.{sipgo, first_invite, injected}
use comcent_ce.Sip.{Request, value}
use comcent_ce.Wrap.{
  Handler, validate_request, validate_response, public_wrap, has_crlf, validate_headers,
}
use comcent_ce.Wrap.Clean.{CleanRequest, CleanResponse, validate_request_iff, validate_response_iff}
use comcent_ce.Wrap.Order.{public_wrap-clean}

-- A handler that counts its calls, rings, and then answers with a header that injects a line.
abbrev ring : Handler ℕ
ring req n = (
  suc n,
  sipgo.new_response req 180 (text "Ringing") []
      ∷ sipgo.new_response req 200 (b'O' ∷ b'K' ∷ 13 ∷ 10 ∷ []) []
      ∷ [],
)

abbrev none_banned : ℕ → Request → Bool
none_banned n req = false

injected_found : validate_request sipgo injected ≢ none
unfolding validate_request validate_headers has_crlf value
injected_found = λ e. cc

first_invite_passes : validate_request sipgo first_invite ≡ none
unfolding validate_request validate_headers has_crlf value
first_invite_passes = refl

first_invite-clean : CleanRequest sipgo first_invite
first_invite-clean = (validate_request_iff sipgo first_invite).0 first_invite_passes

bad_gateway_passes :
    validate_response sipgo (sipgo.new_response first_invite 502 (text "Bad Gateway") []) ≡ none
unfolding validate_response validate_headers has_crlf
bad_gateway_passes = refl

bad_gateway-clean :
    CleanResponse sipgo (sipgo.new_response first_invite 502 (text "Bad Gateway") [])
bad_gateway-clean =
    (validate_response_iff sipgo (sipgo.new_response first_invite 502 (text "Bad Gateway") [])).0
      bad_gateway_passes

validate_request_iff_example :
    (validate_request sipgo first_invite ≡ none) ↔ CleanRequest sipgo first_invite
validate_request_iff_example = validate_request_iff sipgo first_invite

public_wrap-clean_example :
    All (CleanResponse sipgo) (public_wrap sipgo none_banned ring first_invite 0).1
public_wrap-clean_example =
    public_wrap-clean sipgo none_banned ring first_invite 0 (λ r d. refl) first_invite-clean
      bad_gateway-clean
