-- ===== src/Forward.antt =====
-- sbc/proxy.go: building the request that is sent on, and the response that is relayed.
mod Tests
pub mod Route
pub mod Hops
pub mod Loop
pub mod Cseq
pub mod Own
use comcent_ce.Common.{
  ℕ, zero, suc, ◌+◌, ◌-◌, ◌%◌, ◌^◌, Bool, true, false, not, ◌&&◌, ◌||◌, List, [], ◌∷◌, ◌++◌, Option,
  none, some, Text, text, text_eq, leb, ltb, ◌==◌, if◌then◌else◌,
}
use comcent_ce.Common.Int.{ℤ}
use comcent_ce.Go.Strings.{to_lower}
use comcent_ce.Go.Strconv.{itoa_ℤ}
use comcent_ce.Sip.{
  Uri, Address, Header, Request, Response, Sipgo, from_header, to_header, call_id_header,
  cseq_header, max_forwards_header, generic_header, name, value, max_forwards, to_address,
  cseq_number, get_header,
}
use Route.{RouteConfig, filter_route_value}
use comcent_ce.Contact.{parse_contact_uri}

abbrev pub named : Text → Header → Bool
named n h = text_eq (to_lower (name h)) n

-- What the loop makes of one header: `max-forwards` and `content-length` are left out, and a Route
-- keeps the entries that are not the controller's own.
pub copy_header : Sipgo → RouteConfig → Text → Header → List Header
copy_header sip cfg keep_hop h =
    if named (text "max-forwards") h || named (text "content-length") h
    then []
    else if named (text "route") h
    then (let v = filter_route_value sip.parse_uri cfg (value sip h) keep_hop in
        if text_eq v [] then [] else generic_header (text "Route") v ∷ [])
    else h ∷ []

pub copy_headers : Sipgo → RouteConfig → Text → List Header → List Header
unfolding copy_header
copy_headers sip cfg keep_hop [] = []
copy_headers sip cfg keep_hop (h ∷ hs) =
    copy_header sip cfg keep_hop h ++ copy_headers sip cfg keep_hop hs

-- Max-Forwards, counted down: `none` where it would fall below 0.
pub next_hops : Option ℕ → Option ℕ
next_hops none = some 70
next_hops (some zero) = none
next_hops (some (suc n)) = some n

-- buildForwardRequestWithURIAndRoute
unfoldable pub build_forward : Sipgo → RouteConfig → Request → Uri → Text → Option Request
unfolding copy_headers next_hops
build_forward sip cfg req uri keep_hop = elim (next_hops (max_forwards req.headers)) [
  | none ↦ none
  | some mf ↦ some (record {
    method = req.method;
    recipient = uri;
    headers = copy_headers sip cfg keep_hop req.headers ++ max_forwards_header mf ∷ [];
    body = req.body;
    source = [];
    destination = [];
    transport = [];
  })
]

-- buildInDialogForwardRequestForHop
unfoldable pub build_in_dialog : Sipgo → RouteConfig → Request → Text → Text → Option Request
unfolding build_forward
build_in_dialog sip cfg req raw_target keep_hop =
    let target : Uri = elim (parse_contact_uri raw_target) [
      | none ↦ req.recipient
      | some uri ↦ uri
    ] in
    build_forward sip cfg req (if text_eq raw_target [] then req.recipient else target) keep_hop

unfoldable pub too_many_hops : Request → Bool
too_many_hops req = elim (max_forwards req.headers) [ none ↦ false | some n ↦ leb n 0 ]

-- The CSeq numbers are uint32.
pub digest_cseq_offset : Option ℕ → Option ℕ → ℕ
digest_cseq_offset none fs = 0
digest_cseq_offset (some a) none = 0
digest_cseq_offset (some a) (some f) = if leb a f then 0 else a - f

shift_first : ℕ → List Header → List Header
shift_first offset [] = []
shift_first offset (cseq_header n m ∷ hs) = cseq_header ((n + offset) % 2 ^ 32) m ∷ hs
shift_first offset (h ∷ hs) = h ∷ shift_first offset hs

pub shift_cseq : Request → ℕ → Request
unfolding shift_first
shift_cseq req offset =
    if ltb 0 offset then record req { headers = shift_first offset req.headers } else req

pub record Ports : Type 0 where
  pub public_ip : Text
  pub private_ip : Text
  pub public_sip_port : ℤ
  pub private_sip_port : ℤ

-- fmt.Sprintf("<sip:%s:%d;lr>", ip, port)
own_route : Text → ℤ → Text
own_route ip port = text "<sip:" ++ (ip ++ (text ":" ++ (itoa_ℤ port ++ text ";lr>")))

record_route : Text → Header
record_route v = generic_header (text "Record-Route") v

-- The outgoing interface stands on top.
unfoldable pub add_record_route : Ports → Request → Bool → Request
unfolding record_route own_route
add_record_route cfg req to_fs =
    let public = record_route (own_route cfg.public_ip cfg.public_sip_port) in
    let private = record_route (own_route cfg.private_ip cfg.private_sip_port) in
    record req {
      headers = if to_fs then private ∷ public ∷ req.headers else public ∷ private ∷ req.headers;
    }

is_dialog_header : Header → Bool
is_dialog_header h =
    named (text "via") h
    || named (text "from") h
    || named (text "to") h
    || named (text "call-id") h
    || named (text "cseq") h
    || named (text "content-type") h
    || named (text "content-length") h

keep_application : List Header → List Header
keep_application [] = []
keep_application (h ∷ hs) =
    let rest = keep_application hs in if is_dialog_header h then rest else h ∷ rest

-- copyResponseHeaders: the headers of `dst` after the call.
pub copy_response_headers : Sipgo → List Header → List Header → List Header
unfolding keep_application is_dialog_header
copy_response_headers sip src dst =
    let content : List Header = elim (get_header sip (text "Content-Type") src) [
      | none ↦ []
      | some v ↦ generic_header (text "Content-Type") v ∷ []
    ] in
    let copied = dst ++ (keep_application src ++ content) in
    elim (to_address src) [
      | none ↦ copied
      | some a ↦ sip.remove_header (text "To") copied ++ to_header a ∷ []
    ]

-- replaceContactHeader
pub replace_contact_header : Sipgo → Text → List Header → List Header
replace_contact_header sip v headers =
    if text_eq v []
    then headers
    else sip.remove_header (text "Contact") headers ++ generic_header (text "Contact") v ∷ []
