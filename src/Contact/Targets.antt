-- ===== src/Contact/Targets.antt =====
-- sbc/proxy.go: the address and the URI that a message is sent to.
use comcent_ce.Common.{
  Bool, not, ◌||◌, List, [], ◌∷◌, ◌++◌, Option, none, some, Text, text, text_eq, if◌then◌else◌,
}
use comcent_ce.Common.Int.{ℤ, pos, ltb_ℤ}
use comcent_ce.Go.Strings.{cut_byte, cut_last_byte, contains, contains_byte, trim_prefix, to_lower}
use comcent_ce.Go.Strconv.{atoi, atoi_value}
use comcent_ce.Go.Net.{split_host_port}
use comcent_ce.Registrar.Contacts.{Contact}
use comcent_ce.Sip.{Uri, Header, Sipgo, get_header}
use comcent_ce.Contact.{parse_contact_uri, extract_contact_uri}

-- isWebRTCSDP: the body names a secure RTP profile.
unfoldable pub is_webrtc_sdp : Text → Bool
is_webrtc_sdp body =
    contains body (text "RTP/SAVPF")
    || contains body (text "RTP/SAVP")
    || contains body (text "UDP/TLS/RTP/SAVPF")

unfoldable pub is_webrtc_transport : Text → Bool
is_webrtc_transport transport =
    text_eq (to_lower transport) (text "ws") || text_eq (to_lower transport) (text "wss")

unfoldable pub should_rewrite_contact_host : Text → Bool
should_rewrite_contact_host host =
    let h = to_lower host in
    text_eq h []
    || text_eq h (text "localhost")
    || text_eq h (text "127.0.0.1")
    || text_eq h (text "0.0.0.0")

-- The parts of a split are before the first and behind the last colon.
unfoldable pub host_port_from_addr : Text → Text × ℤ
host_port_from_addr addr = elim (cut_byte b':' addr) [
  | none ↦ (addr, pos 0)
  | some (host, rest) ↦ (
    host,
    elim (cut_last_byte b':' addr) [ none ↦ pos 0 | some (before, port) ↦ atoi_value port ],
  )
]

unfoldable pub parse_port : Text → ℤ
parse_port addr = elim (split_host_port addr) [
  | none ↦ pos 5060
  | some (host, port) ↦ elim (atoi port) [ none ↦ pos 5060 | some n ↦ n ]
]

-- strings.Split(addr, ":")[0]
abbrev pub before_colon : Text → Text
before_colon addr = elim (cut_byte b':' addr) [ none ↦ addr | some (host, rest) ↦ host ]

unfoldable pub contact_destination_uri : Contact → Text → Text → Uri
contact_destination_uri c user domain = elim (parse_contact_uri c.uri) [
  | some uri ↦ uri
  | none ↦ record {
    user = user;
    host = before_colon c.address;
    port = parse_port c.address;
    params = [];
  }
]

unfoldable pub strip_sip_prefix : Text → Text
strip_sip_prefix uri =
    let dest = trim_prefix (trim_prefix uri (text "sip:")) (text "sips:") in
    if contains_byte b':' dest then dest else dest ++ text ":5060"

-- splitHostPort with the default port of a bare host.
unfoldable pub split_host_port_or : Text → ℤ → Text × ℤ
split_host_port_or host_port default = elim (cut_byte b':' host_port) [
  | none ↦ (host_port, default)
  | some (host, rest) ↦ (host, elim (atoi rest) [ none ↦ default | some n ↦ n ])
]

-- `lookup_host` is net.LookupHost, with `[]` for an error.
unfoldable pub resolve_host : (Text → List Text) → Text → Text
resolve_host lookup_host host_port =
    let (host, port) : Text × Text = elim (cut_byte b':' host_port) [
      | none ↦ (host_port, text "5060")
      | some hp ↦ hp
    ] in
    elim (lookup_host host) [ [] ↦ host_port | addr ∷ addrs ↦ addr ++ (b':' ∷ port) ]

pub spoof_cache_key : Text → Text → Text
spoof_cache_key call_id user = call_id ++ (text "::" ++ user)

-- requestContactURI and responseContactURI, on the headers of the message.
unfoldable pub message_contact_uri : Sipgo → List Header → Uri → Text
message_contact_uri sip headers fallback = elim (get_header sip (text "Contact") headers) [
  | none ↦ sip.uri_text fallback
  | some contact ↦ extract_contact_uri contact (sip.uri_text fallback)
]

-- The Contact that replaces a loopback one, or the empty text.
unfoldable pub normalized_contact : Sipgo → Option Text → Text → Text
normalized_contact sip none dest = []
normalized_contact sip (some contact) dest =
    let raw = extract_contact_uri contact [] in
    let (host, port) = host_port_from_addr dest in
    let rewritten : Text = elim (parse_contact_uri raw) [
      | none ↦ []
      | some uri ↦
          if not (should_rewrite_contact_host uri.host) || text_eq host []
          then []
          else b'<'
            ∷ (sip.uri_text
                  (record uri { host = host; port = if ltb_ℤ (pos 0) port then port else uri.port })
                ++ text ">")
    ] in
    if text_eq dest [] || text_eq raw [] then [] else rewritten
