-- ===== src/Contact.antt =====
-- sbc/proxy.go: reading and writing Contact values and URIs as text.
pub mod Targets
use comcent_ce.Common.{
  ℕ, ◌+◌, Bool, true, false, not, ◌&&◌, ◌||◌, List, [], ◌∷◌, ◌++◌, Option, none, some, ◌≡◌, refl,
  Text, text, text_eq, ◌==◌, if◌then◌else◌,
}
use comcent_ce.Common.Int.{ℤ, pos, negsuc}
use comcent_ce.Go.Strings.{
  cut_byte, cut_last_byte, contains_byte, strip_prefix, trim_prefix, trim_space, trim, to_lower,
  equal_fold, join, split,
}
use comcent_ce.Go.Strconv.{atoi, itoa}
use comcent_ce.Sip.{Uri}

-- Add what was read of a parameter, unless it is blank.
add_param : List Text → Text → List Text
add_param params current =
    let p = trim_space current in if text_eq p [] then params else params ++ p ∷ []

-- The loop of `splitContact`; its state is the parameters so far, the current one, and `quoted`.
scan_params : Text → List Text → Text → Bool → List Text
unfolding add_param
scan_params [] params current quoted = add_param params current
scan_params (c ∷ s) params current quoted =
    let quote = scan_params s params (current ++ c ∷ []) (not quoted) in
    let next = scan_params s (add_param params current) [] quoted in
    let other = scan_params s params (current ++ c ∷ []) quoted in
    if c == b'"' then quote else if c == b';' && not quoted then next else other

-- The address of a Contact value and what follows it; `none` is a `<` with no `>`.
bare_contact : Text → Text × Text
bare_contact contact = elim (cut_byte b';' contact) [
  | none ↦ (contact, [])
  | some (a, b) ↦ (a, b';' ∷ b)
]

unfoldable pub address_and_rest : Text → Option (Text × Text)
unfolding bare_contact
address_and_rest contact = elim (cut_byte b'<' contact) [
  | none ↦ some (bare_contact contact)
  | some (display, after) ↦ elim (cut_byte b'>' after) [
    | none ↦ none
    | some (uri, rest) ↦ some (display ++ (b'<' ∷ (uri ++ b'>' ∷ [])), rest)
  ]
]

unfoldable pub split_contact : Text → Text × List Text
unfolding scan_params address_and_rest
split_contact contact = elim (address_and_rest (trim_space contact)) [
  | none ↦ (trim_space contact, [])
  | some (address, rest) ↦ (trim_space address, scan_params rest [] [] false)
]

-- strings.Cut(param, "="), where the value is empty if there is no "=".
abbrev cut_equals : Text → Text × Text
cut_equals param = elim (cut_byte b'=' param) [ none ↦ (param, []) | some kv ↦ kv ]

abbrev is_param : Text → Text → Bool
is_param key param = equal_fold (trim_space (cut_equals param).0) key

find_param : Text → List Text → Option Text
find_param key [] = none
find_param key (param ∷ params) =
    if is_param key param
    then some (trim (λ c. c == b'"') (trim_space (cut_equals param).1))
    else find_param key params

unfoldable pub contact_param : Text → Text → Option Text
unfolding find_param
contact_param contact key = find_param key (split_contact contact).1

default_register_expires : ℕ
default_register_expires = 300

-- A number that is not negative.
abbrev natural : Option ℤ → Option ℕ
natural none = none
natural (some (pos n)) = some n
natural (some (negsuc n)) = none

abbrev or_else : Option ℕ → ℕ → ℕ
or_else none d = d
or_else (some n) d = n

abbrev param_number : Option Text → Option ℕ
param_number none = none
param_number (some v) = natural (atoi v)

unfoldable pub register_expires : Text → Text → ℕ
unfolding default_register_expires
register_expires contact expires_header =
    or_else (param_number (contact_param contact (text "expires")))
      (or_else (natural (atoi (trim_space expires_header))) default_register_expires)

keep_others : List Text → List Text
keep_others [] = []
keep_others (param ∷ params) =
    let rest = keep_others params in if is_param (text "expires") param then rest else param ∷ rest

pub contact_with_expires : Text → ℕ → Text
unfolding keep_others
contact_with_expires contact expires =
    let (uri, params) = split_contact contact in
    uri
    ++ (text ";" ++ join (text ";") (keep_others params ++ (text "expires=" ++ itoa expires) ∷ []))

-- The URI between angle brackets, if the first `<` stands before the first `>`; else the text before
-- the first `;`.
unfoldable pub extract_contact_uri : Text → Text → Text
extract_contact_uri contact fallback =
    let v = trim_space contact in
    let bare : Text = elim (cut_byte b';' v) [ none ↦ v | some (a, b) ↦ trim_space a ] in
    let bracketed : Text = elim (cut_byte b'>' v) [
      | none ↦ bare
      | some (before, after) ↦ elim (cut_byte b'<' before) [
        | none ↦ bare
        | some (display, uri) ↦ uri
      ]
    ] in
    if text_eq v [] then fallback else bracketed

-- The host and the port behind the last colon, if what stands there is a number and no bracket.
abbrev host_and_port : Text → Option (Text × Text) → Text × ℤ
host_and_port all none = (all, pos 0)
host_and_port all (some (host, port)) =
    if contains_byte b']' port
    then (all, pos 0)
    else elim (atoi port) [ none ↦ (all, pos 0) | some n ↦ (host, n) ]

abbrev user_and_rest : Text → Option (Text × Text) → Text × Text
user_and_rest all none = ([], all)
user_and_rest all (some (user, rest)) = (user, rest)

parse_address : Text → Option Uri
parse_address [] = none
parse_address (c ∷ s) =
    let (user, host_port) = user_and_rest (c ∷ s) (cut_last_byte b'@' (c ∷ s)) in
    let (host, port) = host_and_port host_port (cut_last_byte b':' host_port) in
    some (record { user = user; host = host; port = port; params = [] })

abbrev before_semicolon : Text → Text
before_semicolon s = elim (cut_byte b';' s) [ none ↦ s | some (a, b) ↦ a ]

unfoldable pub parse_contact_uri : Text → Option Uri
unfolding parse_address
parse_contact_uri raw =
    let trimmed = trim_space raw in
    let bare = trim (λ c. c == b'<' || c == b'>') trimmed in
    let no_scheme = trim_prefix (trim_prefix bare (text "sip:")) (text "sips:") in
    if text_eq trimmed [] then none else parse_address (before_semicolon no_scheme)

register_expires_sip_js :
    (register_expires (text "<sip:a@b.c;transport=ws>;expires=600") [] ≡ 600)
    × (register_expires (text "<sip:a@b.c;expires=5>") (text " 120 ") ≡ 120)
    × (register_expires (text "sip:a@b.c;Expires=\"0\"") [] ≡ 0)
    × (register_expires (text "<sip:a@b.c>;expires=x") [] ≡ 300)
unfolding register_expires contact_param split_contact cut_byte trim_space equal_fold atoi
register_expires_sip_js = (refl, refl, refl, refl)

-- A quoted parameter with no brackets round the URI is misread, and the lifetime with it.
bare_instance : register_expires (text "sip:a@b.c;+sip.instance=\"<urn:x>\";expires=0") [] ≡ 300
unfolding register_expires contact_param split_contact cut_byte trim_space equal_fold atoi
bare_instance = refl

contact_with_expires_example :
    contact_with_expires (text "<sip:a@b.c>;expires=3600;q=0.5") 600
    ≡ text "<sip:a@b.c>;q=0.5;expires=600"
unfolding contact_with_expires split_contact cut_byte trim_space equal_fold itoa join
contact_with_expires_example = refl

parse_contact_uri_examples :
    (parse_contact_uri (text "<sip:a@192.0.2.7:5070;lr>")
      ≡ some (record { user = text "a"; host = text "192.0.2.7"; port = pos 5070; params = [] }))
    × (parse_contact_uri (text "sip:[2001:db8::1]")
        ≡ some (record { user = []; host = text "[2001:db8::1]"; port = pos 0; params = [] }))
    × (parse_contact_uri (text " ") ≡ none)
unfolding parse_contact_uri cut_byte cut_last_byte contains_byte trim_space trim_prefix atoi text_eq
parse_contact_uri_examples = (refl, refl, refl)
