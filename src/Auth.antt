-- ===== src/Auth.antt =====
-- sbc/auth.go: digest authentication. `md5_hex` is the hexadecimal MD5 sum of a text.
mod Tests
use comcent_ce.Common.{
  ◌≡◌, refl, ap, sym, ◌∙◌, Bool, true, false, List, [], ◌∷◌, ◌++◌, append_assoc, Option, none, some,
  arith, Text, text, text_eq, text_eq_iff, ◌==◌, Dict, lookup, store, if◌then◌else◌, Option-cases,
  Bool-cases, inl, inr,
}
use mathlib.Core.List.{append_cancel_left, append_cancel_right}
use comcent_ce.Go.Strings.{cut_byte, strip_prefix, trim_space, trim, split}
use comcent_ce.Sip.{Request, Response, Header, Sipgo, generic_header, get_header}

-- One round of the loop of `parseDigestParams`.
add_digest_param : Text → Dict Text → Dict Text
add_digest_param part params = elim (cut_byte b'=' (trim_space part)) [
  | none ↦ params
  | some (key, v) ↦ store (trim_space key) (trim (λ c. c == b'"') (trim_space v)) params
]

digest_params : List Text → Dict Text → Dict Text
unfolding add_digest_param
digest_params [] params = params
digest_params (part ∷ parts) params = digest_params parts (add_digest_param part params)

pub parse_digest_params : Text → Dict Text
unfolding digest_params
parse_digest_params s = digest_params (split b',' s) []

-- params[key], which is "" for a key that is not there.
or_empty : Option Text → Text
or_empty none = []
or_empty (some v) = v

param : Dict Text → Text → Text
unfolding or_empty
param params key = or_empty (lookup key params)

infixr 60 ◌&◌
abbrev ◌&◌ : Text → Text → Text
s & t = s ++ (b':' ∷ t)

module _ (md5_hex : Text → Text) where
  -- The response that the parameters of the header call for.
  expected_response : Text → Dict Text → Text → Text
  unfolding param
  expected_response method params password =
      let ha1 = md5_hex (param params (text "username") & param params (text "realm") & password) in
      let ha2 = md5_hex (method & param params (text "uri")) in
      let nonce = param params (text "nonce") in
      let qop = param params (text "qop") in
      if text_eq qop (text "auth")
      then md5_hex
          (ha1 & nonce & param params (text "nc") & param params (text "cnonce") & qop & ha2)
      else md5_hex (ha1 & nonce & ha2)

  digest_matches : Text → Text → Option Text → Bool
  unfolding expected_response
  digest_matches method password none = false
  digest_matches method password (some credentials) =
      let params = parse_digest_params credentials in
      text_eq (expected_response method params password) (param params (text "response"))

  -- The text behind "Digest ", if the header is there and begins so.
  abbrev digest_credentials : Option Text → Option Text
  digest_credentials none = none
  digest_credentials (some v) = strip_prefix v (text "Digest ")

  pub validate_digest_auth : Sipgo → Request → Text → Bool
  unfolding digest_matches
  validate_digest_auth sip req password =
      digest_matches req.method password
        (digest_credentials (get_header sip (text "Authorization") req.headers))

-- The text of the WWW-Authenticate header.
challenge_value : Text → Text → Text
challenge_value realm nonce =
    text "Digest realm=\""
    ++ (realm ++ (text "\", nonce=\"" ++ (nonce ++ text "\", algorithm=MD5, qop=\"auth\"")))

-- The 401 of `sendAuthChallenge`, with the nonce that it generates.
pub auth_challenge : Sipgo → Request → Text → Text → Response
unfolding challenge_value
auth_challenge sip req realm nonce =
    let res = sip.new_response req 401 (text "Unauthorized") [] in
    record res {
      headers =
          res.headers
          ++ generic_header (text "WWW-Authenticate") (challenge_value realm nonce) ∷ [];
    }

cancel_front : (s t u : Text) → s & t ≡ s & u → t ≡ u
cancel_front s t u e = append_cancel_left (b':' ∷ []) t u (append_cancel_left s _ _ e)

cancel_back : (s t u : Text) → s & u ≡ t & u → s ≡ t
cancel_back s t u e = append_cancel_right s t (b':' ∷ u) e

module _ (md5_hex : Text → Text) (free : (s t : Text) → md5_hex s ≡ md5_hex t → s ≡ t) where
  ha1_unique :
      (user realm p q : Text) → md5_hex (user & realm & p) ≡ md5_hex (user & realm & q) → p ≡ q
  ha1_unique user realm p q e = cancel_front realm p q (cancel_front user _ _ (free _ _ e))

  expected_unique :
      (method : Text) (params : Dict Text) (p q : Text)
      → expected_response md5_hex method params p ≡ expected_response md5_hex method params q
      → p ≡ q
  unfolding expected_response
  expected_unique method params p q e =
      elim (Bool-cases (text_eq (param params (text "qop")) (text "auth"))) [
        | inl t ↦ ha1_unique _ _ p q (cancel_back _ _ _ (free _ _ (rw t at e)))
        | inr t ↦ ha1_unique _ _ p q (cancel_back _ _ _ (free _ _ (rw t at e)))
      ]

  matches_unique :
      (method p q : Text) (credentials : Option Text)
      → digest_matches md5_hex method p credentials ≡ true
      → digest_matches md5_hex method q credentials ≡ true
      → p ≡ q
  unfolding digest_matches
  matches_unique method p q none vp vq = cc
  matches_unique method p q (some credentials) vp vq =
      expected_unique method (parse_digest_params credentials) p q
        ((text_eq_iff _ _).0 vp ∙ sym ((text_eq_iff _ _).0 vq))

-- Credentials fit one password at most, if MD5 has no collision: what validates with two passwords
-- validates with one.
pub validate_unique :
    (md5_hex : Text → Text) (sip : Sipgo) (req : Request) (p q : Text)
    → ((s t : Text) → md5_hex s ≡ md5_hex t → s ≡ t)
    → validate_digest_auth md5_hex sip req p ≡ true
    → validate_digest_auth md5_hex sip req q ≡ true
    → p ≡ q
unfolding validate_digest_auth
validate_unique md5_hex sip req p q free vp vq = matches_unique md5_hex free req.method p q _ vp vq
