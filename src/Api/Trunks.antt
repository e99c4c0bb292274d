-- ===== src/Api/Trunks.antt =====
-- sbc/api.go: the trunk cache, and the networks that are never banned.
use comcent_ce.Common.{
  ℕ, ◌≡◌, sym, ◌∙◌, Bool, true, false, ◌||◌, List, [], ◌∷◌, none, some, arith, Text, text_eq_iff,
  Dict, lookup, store, delete, any, Option-cases, Bool-cases, inl, inr,
}
use comcent_ce.Api.{
  IpNet, answer, TrunkData, Api, remember_nets, trunk_reply, get_sip_trunk, is_trunk_ip,
}

module _ (net : IpNet) where
  -- sbc/proxy.go: isIPAllowed
  unfoldable pub in_networks : net.Ip → List Text → Bool
  in_networks ip [] = false
  in_networks ip (cidr ∷ cidrs) =
      let rest = in_networks ip cidrs in
      elim (net.parse_cidr cidr) [ none ↦ rest | some network ↦ net.contains network ip || rest ]

  unfoldable pub is_ip_allowed : Text → List Text → Bool
  unfolding in_networks
  is_ip_allowed source cidrs = elim (net.parse_ip source) [
    | none ↦ false
    | some ip ↦ in_networks ip cidrs
  ]

  -- Every network was read from its key.
  abbrev pub AreParsed : Dict net.Network → Type 0
  AreParsed [] = Unit {0}
  AreParsed ((cidr, network) ∷ m) = (net.parse_cidr cidr ≡ some network) × AreParsed m

  abbrev covers : net.Ip → Dict net.Network → Bool
  covers ip nets = any (λ e. net.contains e.1 ip) nets

  covers-store :
      (ip : net.Ip) (cidr : Text) (network : net.Network) (nets : Dict net.Network)
      → lookup cidr nets ≡ none
      → covers ip (store cidr network nets) ≡ (covers ip nets || net.contains network ip)
  unfolding lookup store
  covers-store ip cidr network [] e = ground arith
  covers-store ip cidr network ((j, w) ∷ nets) e = ground (arith, covers-store ip cidr network nets)

  covers-lookup :
      (ip : net.Ip) (cidr : Text) (known network : net.Network) (nets : Dict net.Network)
      → AreParsed nets
      → lookup cidr nets ≡ some known
      → net.parse_cidr cidr ≡ some network
      → net.contains network ip ≡ true
      → covers ip nets ≡ true
  unfolding lookup
  covers-lookup ip cidr known network [] d e p c = cc
  covers-lookup ip cidr known network ((j, w) ∷ nets) d e p c =
      ground (arith, covers-lookup ip cidr known network nets d.1, text_eq_iff j cidr)

  store-AreParsed :
      (cidr : Text) (network : net.Network) (nets : Dict net.Network)
      → net.parse_cidr cidr ≡ some network
      → AreParsed nets
      → AreParsed (store cidr network nets)
  unfolding store
  store-AreParsed cidr network [] p d = (p, tt)
  store-AreParsed cidr network ((j, w) ∷ nets) p d =
      ground (arith, store-AreParsed cidr network nets p d.1)

  remember_nets-keeps :
      (ip : net.Ip) (cidrs : List Text) (nets : Dict net.Network)
      → covers ip nets ≡ true
      → covers ip (remember_nets net cidrs nets) ≡ true
  unfolding remember_nets
  remember_nets-keeps ip [] nets c = c
  remember_nets-keeps ip (cidr ∷ cidrs) nets c = elim (Option-cases (lookup cidr nets)) [
    | inr (known, e) ↦ rw (e, remember_nets-keeps ip cidrs nets c)
    | inl e ↦ elim (Option-cases (net.parse_cidr cidr)) [
      | inl p ↦ rw (e, p, remember_nets-keeps ip cidrs nets c)
      | inr (network, p) ↦ rw (
        e,
        p,
        remember_nets-keeps ip cidrs (store cidr network nets)
            (ground (arith, covers-store ip cidr network nets)),
      )
    ]
  ]

  remember_nets-covers :
      (ip : net.Ip) (cidrs : List Text) (nets : Dict net.Network)
      → AreParsed nets
      → in_networks ip cidrs ≡ true
      → covers ip (remember_nets net cidrs nets) ≡ true
  unfolding in_networks remember_nets
  remember_nets-covers ip [] nets d c = cc
  remember_nets-covers ip (cidr ∷ cidrs) nets d c = elim (Option-cases (net.parse_cidr cidr)) [
    | inl p ↦ elim (Option-cases (lookup cidr nets)) [
      | inl e ↦ ground (arith, remember_nets-covers ip cidrs nets d)
      | inr (known, e) ↦ ground (arith, remember_nets-covers ip cidrs nets d)
    ]
    | inr (network, p) ↦ elim (Bool-cases (net.contains network ip)) [
      | inl in_it ↦ elim (Option-cases (lookup cidr nets)) [
        | inl e ↦ ground (
          arith,
          remember_nets-keeps ip cidrs (store cidr network nets),
          covers-store ip cidr network nets,
        )
        | inr (known, e) ↦ ground (
          arith,
          remember_nets-keeps ip cidrs nets,
          covers-lookup ip cidr known network nets d e p in_it,
        )
      ]
      | inr out ↦ elim (Option-cases (lookup cidr nets)) [
        | inl e ↦ ground (
          arith,
          remember_nets-covers ip cidrs (store cidr network nets),
          store-AreParsed cidr network nets p d,
        )
        | inr (known, e) ↦ ground (arith, remember_nets-covers ip cidrs nets d)
      ]
    ]
  ]

  trunk_fresh :
      (api : Api net) (now : ℕ) (number : Text) (t : TrunkData)
      → lookup number api.trunk_cache ≡ none
      → get_sip_trunk net api now number (answer 200 (some t))
        ≡ trunk_reply net
            (record api { trunk_cache = delete number api.trunk_cache })
            now
            number
            (answer 200 (some t))
  unfolding get_sip_trunk
  trunk_fresh api now number t e = rw (e, get_sip_trunk)

  is_trunk_ip-eq :
      (api : Api net) (ip : Text) (parsed : net.Ip)
      → net.parse_ip ip ≡ some parsed
      → is_trunk_ip net api ip ≡ covers parsed api.trunk_nets
  unfolding is_trunk_ip
  is_trunk_ip-eq api ip parsed e = rw (e, is_trunk_ip)

  is_ip_allowed-eq :
      (ip : Text) (cidrs : List Text) (parsed : net.Ip)
      → net.parse_ip ip ≡ some parsed
      → is_ip_allowed ip cidrs ≡ in_networks parsed cidrs
  unfolding is_ip_allowed
  is_ip_allowed-eq ip cidrs parsed e = rw (e, is_ip_allowed)

  covered_now :
      (api : Api net) (now : ℕ) (number : Text) (t : TrunkData) (parsed : net.Ip)
      → lookup number api.trunk_cache ≡ none
      → AreParsed api.trunk_nets
      → in_networks parsed t.inbound_ips ≡ true
      → covers parsed (get_sip_trunk net api now number (answer 200 (some t))).0.trunk_nets ≡ true
  unfolding trunk_reply
  covered_now api now number t parsed e d c =
      rw (trunk_fresh api now number t e)
        (remember_nets-covers parsed t.inbound_ips api.trunk_nets d c)

-- An address that a trunk may call from is a trunk address once the server has told of the trunk, if
-- the networks known by then were read from their texts.
pub is_trunk_ip-get_sip_trunk :
    (net : IpNet) (api : Api net) (now : ℕ) (number ip : Text) (t : TrunkData)
    → lookup number api.trunk_cache ≡ none
    → AreParsed net api.trunk_nets
    → is_ip_allowed net ip t.inbound_ips ≡ true
    → is_trunk_ip net (get_sip_trunk net api now number (answer 200 (some t))).0 ip ≡ true
unfolding is_ip_allowed
is_trunk_ip-get_sip_trunk net api now number ip t e d h = elim (Option-cases (net.parse_ip ip)) [
  | inl p ↦ ground (arith)
  | inr (parsed, p) ↦
      is_trunk_ip-eq net _ ip parsed p
      ∙ covered_now net api now number t parsed e d
          (sym (is_ip_allowed-eq net ip t.inbound_ips parsed p) ∙ h)
]
