-- ===== src/Auth/Tests.antt =====
-- sbc/auth.go: a run of the digest authentication, with a sum that adds a mark in place of MD5.
use comcent_ce.Common.{◌≡◌, refl, Bool, true, List, [], ◌∷◌, ◌++◌, Option, Text, text}
use mathlib.Core.List.{append_cancel_left}
use comcent_ce.Fixtures.{sipgo, first_invite}
use comcent_ce.Sip.{Request, generic_header, get_header}
use comcent_ce.Auth.{validate_digest_auth, validate_unique}

abbrev mark : Text → Text
mark s = text "#" ++ s

mark-injective : (s t : Text) → mark s ≡ mark t → s ≡ t
mark-injective s t e = append_cancel_left (text "#") s t e

abbrev signed : Request
signed = record first_invite {
  method = text "REGISTER";
  headers =
      generic_header (text "Authorization") (
        text
          "Digest username=\"alice\", realm=\"a\", nonce=\"n\", uri=\"sip:a\", response=\"##alice:a:pw:n:#REGISTER:sip:a\"")
      ∷ [];
}

signed-valid : validate_digest_auth mark sipgo signed (text "pw") ≡ true
unfolding validate_digest_auth get_header comcent_ce.Go.Strings.equal_fold
    comcent_ce.Go.Strings.strip_prefix comcent_ce.Common.lookup comcent_ce.Auth.parse_digest_params
    comcent_ce.Go.Strings.split comcent_ce.Go.Strings.cut_byte comcent_ce.Go.Strings.trim_space
    comcent_ce.Common.store
signed-valid = refl
