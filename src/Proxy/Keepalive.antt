-- ===== src/Proxy/Keepalive.antt =====
-- sbc/nat_keepalive.go: natKeepalive and pingContact. The pings of a round run beside one another; each
-- changes the registrar in one step, and here they come one after another.
use comcent_ce.Common.{ℕ, Bool, List, [], ◌∷◌, ◌++◌, Text, text, if◌then◌else◌}
use comcent_ce.Common.Int.{ℤ}
use comcent_ce.Sip.{Sipgo, Request, generic_header, options}
use comcent_ce.Registrar.{NatContact, nat_contacts, ping_answered, ping_missed}
use comcent_ce.Proxy.{Proxy, Effect}
use comcent_ce.Api.{IpNet}
use comcent_ce.Proxy.Register.{registration_lapsed}

-- The OPTIONS that a contact gets.
ping_request : NatContact → Request
ping_request c = record {
  method = options;
  recipient = c.uri;
  headers = generic_header (text "Content-Length") (text "0") ∷ [];
  body = [];
  source = [];
  destination = c.address;
  transport = [];
}

module _ (net : IpNet) (sip : Sipgo) where
  -- Behind a ping without an answer.
  after_missed : Proxy net → ℕ → Text → Bool → Proxy net × List Effect
  after_missed p now aor emptied =
      (p, if emptied then registration_lapsed net sip p now aor else [])

  -- pingContact; `answered` says that Do gives no error.
  ping_contact : Proxy net → ℕ → ℤ → NatContact → Bool → Proxy net × List Effect
  unfolding after_missed
  ping_contact p now max_missed c answered =
      let (reg, emptied) = ping_missed p.reg c.aor c.address max_missed in
      if answered
      then (record p { reg = ping_answered p.reg c.aor c.address }, [])
      else after_missed (record p { reg = reg }) now c.aor emptied

  ping_all : Proxy net → ℕ → ℤ → (NatContact → Bool) → List NatContact → Proxy net × List Effect
  unfolding ping_contact
  ping_all p now max_missed answers [] = (p, [])
  ping_all p now max_missed answers (c ∷ cs) =
      let (p', effects) = ping_contact p now max_missed c (answers c) in
      let (p'', more) = ping_all p' now max_missed answers cs in (p'', effects ++ more)

  -- One round of natKeepalive.
  keepalive_round : Proxy net → ℕ → ℤ → (NatContact → Bool) → Proxy net × List Effect
  unfolding ping_all
  keepalive_round p now max_missed answers =
      ping_all p now max_missed answers (nat_contacts sip.parse_uri p.reg now)
