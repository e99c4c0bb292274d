-- ===== src/Fixtures.antt =====
-- Values that the tests of every module use: two users, their contacts, and stand-ins for the code
-- that the controller takes from elsewhere.
use comcent_ce.Common.{true, false, not, [], ◌∷◌, ◌++◌, none, some, Text, text, keep, if◌then◌else◌}
use comcent_ce.Common.Int.{pos}
use comcent_ce.Go.Strings.{equal_fold, has_prefix, contains_byte}
use comcent_ce.Sip.{
  Uri, Address, Header, from_header, to_header, call_id_header, cseq_header, max_forwards_header,
  generic_header, name, Request, Sipgo,
}
use comcent_ce.Forward.{Ports}
use comcent_ce.Forward.Route.{RouteConfig}
use comcent_ce.Registrar.Contacts.{Contact}
use comcent_ce.Contact.{parse_contact_uri}
use comcent_ce.Api.{IpNet}

abbrev pub alice : Text
alice = text "alice@acme.example.com"

abbrev pub bob : Text
bob = text "bob@acme.example.com"

abbrev pub home : Text
home = text "203.0.113.7:5060"

abbrev pub office : Text
office = text "198.51.100.9:6000"

abbrev pub phone : Contact
phone = record {
  uri = text "sip:alice@10.0.0.5:5060";
  address = home;
  transport = text "UDP";
  is_webrtc = false;
  expires_at = 100;
  nat = true;
  missed_pings = 0;
}

abbrev pub browser : Contact
browser = record {
  uri = text "sip:alice@198.51.100.9:6000";
  address = office;
  transport = text "wss";
  is_webrtc = true;
  expires_at = 50;
  nat = false;
  missed_pings = 0;
}

abbrev alice_uri : Uri
alice_uri = record {
  user = text "alice";
  host = text "acme.example.com";
  port = pos 0;
  params = [];
}

abbrev pub bob_uri : Uri
bob_uri = record { user = text "bob"; host = text "acme.example.com"; port = pos 0; params = [] }

abbrev pub alice_address : Address
alice_address = record { uri = alice_uri; tag = text "a1" }

abbrev pub bob_address : Address
bob_address = record { uri = bob_uri; tag = [] }

abbrev pub first_invite : Request
first_invite = record {
  method = text "INVITE";
  recipient = bob_uri;
  headers =
      from_header alice_address
      ∷ to_header bob_address
      ∷ call_id_header (text "c1")
      ∷ cseq_header 12 (text "INVITE")
      ∷ max_forwards_header 2
      ∷ generic_header (text "Contact") (text "<sip:alice@10.0.0.5:5060>")
      ∷ [];
  body = text "v=0";
  source = home;
  destination = [];
  transport = text "UDP";
}

abbrev pub injected : Request
injected = record first_invite {
  headers = generic_header (text "Subject") (b'x' ∷ 13 ∷ 10 ∷ text "Via: y") ∷ [];
}

abbrev print_header : Header → Text
print_header (from_header a) = text "<sip:alice@acme.example.com>"
print_header (to_header a) = text "<sip:bob@acme.example.com>"
print_header (call_id_header id) = id
print_header (cseq_header n m) = m
print_header (max_forwards_header n) = text "70"
print_header (generic_header n v) = v

abbrev pub sipgo : Sipgo
sipgo = record {
  print = print_header;
  request_line = λ req. req.method ++ text " SIP/2.0";
  status_line = λ res. text "SIP/2.0 " ++ res.reason;
  parse_uri = parse_contact_uri;
  uri_text = λ uri. text "sip:" ++ (uri.user ++ (b'@' ∷ uri.host));
  new_response = λ req status reason body. record {
    status = status;
    reason = reason;
    headers = [];
    body = body;
    destination = [];
  };
  remove_header = λ n hs. keep (λ h. not (equal_fold (name h) n)) hs;
}

-- A network is the text that its addresses begin with.
abbrev pub networks : IpNet
networks = record {
  Ip = Text;
  Network = Text;
  parse_ip = λ ip. if contains_byte b'.' ip then some ip else none;
  parse_cidr = λ cidr. some cidr;
  contains = λ network ip. has_prefix ip network;
  is_private = λ ip. has_prefix ip (text "10.");
  is_loopback = λ ip. has_prefix ip (text "127.");
  is_link_local_unicast = λ ip. has_prefix ip (text "169.254.");
  is_unspecified = λ ip. false;
}

abbrev pub addresses : RouteConfig
addresses = record { public_ip = text "203.0.113.1"; private_ip = text "10.0.0.9" }

abbrev pub ports : Ports
ports = record {
  public_ip = text "203.0.113.1";
  private_ip = text "10.0.0.9";
  public_sip_port = pos 5060;
  private_sip_port = pos 5065;
}
