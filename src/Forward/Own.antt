-- ===== src/Forward/Own.antt =====
-- sbc/proxy.go: which Route entries count as the controller's own.
use comcent_ce.Common.{
  ℕ, zero, suc, ◌≡◌, ◌≢◌, ◌<◌, refl, ap, sym, ◌∙◌, Bool, true, false, [], ◌∷◌, ◌++◌, Option, some,
  arith, Text, text, text_eq, text_eq_iff, ◌==◌, ==_iff, All, if◌then◌else◌, Bool-cases, inl, inr,
}
use mathlib.Core.Option.{some-injective}
use comcent_ce.Common.Int.{pos, pos_part}
use comcent_ce.Go.Strings.{cut_byte, contains_byte, trim_space}
use comcent_ce.Go.Strconv.{itoa, itoa_ℤ, atoi, int_limit, atoi-itoa}
use comcent_ce.Go.Net.{join_host_port}
use comcent_ce.Sip.{Uri}
use comcent_ce.Forward.Route.{RouteConfig, unbracket, route_hop, or_5060, keep_entry}

-- No colon stands in the text, as in a host name or an IPv4 address.
abbrev LacksColon : Text → Type 0
LacksColon = All (λ c. c ≢ b':')

cut_byte-append :
    (host rest : Text) → LacksColon host → cut_byte b':' (host ++ (b':' ∷ rest)) ≡ some (host, rest)
unfolding cut_byte
cut_byte-append [] rest h = refl
cut_byte-append (c ∷ host) rest h = ground (arith, cut_byte-append host rest h.1)

-- Two addresses are equal only if their ports are.
port_of :
    (a b x y : Text)
    → LacksColon a
    → LacksColon b
    → a ++ (b':' ∷ x) ≡ b ++ (b':' ∷ y)
    → (a ≡ b) × (x ≡ y)
port_of a b x y ha hb e =
    let same : some (a, x) ≡ some (b, y) =
      sym (cut_byte-append a x ha) ∙ ap (cut_byte b':') e ∙ cut_byte-append b y hb in
    let both : ◌≡◌ {A = Text × Text} (a, x) (b, y) = some-injective _ _ same in
    (ap (λ (t : Text × Text). t.0) both, ap (λ (t : Text × Text). t.1) both)

contains_byte-LacksColon : (s : Text) → LacksColon s → contains_byte b':' s ≡ false
unfolding contains_byte
contains_byte-LacksColon [] h = refl
contains_byte-LacksColon (c ∷ s) h = ground (arith, contains_byte-LacksColon s h.1)

itoa-injective : (m n : ℕ) → m < int_limit → n < int_limit → itoa m ≡ itoa n → m ≡ n
itoa-injective m n hm hn e =
    ap pos_part (some-injective _ _ (sym (atoi-itoa m hm) ∙ ap atoi e ∙ atoi-itoa n hn))

itoa_5060 : itoa 5060 ≡ text "5060"
unfolding itoa
itoa_5060 = refl

hop_text :
    (host : Text) (p : ℕ)
    → LacksColon host
    → 0 < p
    → join_host_port host (itoa_ℤ (or_5060 (pos p))) ≡ host ++ (b':' ∷ itoa p)
unfolding join_host_port itoa_ℤ or_5060
hop_text host zero h q = absurd (omega arith)
hop_text host (suc p) h q = rw (contains_byte-LacksColon host h) refl

is_port_5060 :
    (host : Text) (p : ℕ)
    → LacksColon host
    → p < int_limit
    → text_eq (host ++ (b':' ∷ itoa p)) (host ++ text ":5060") ≡ (p == 5060)
is_port_5060 host p h q = elim (Bool-cases (p == 5060)) [
  | inl e ↦
      let five : p ≡ 5060 = (==_iff p 5060).0 e in
      rw e ((text_eq_iff _ _).1 (ap (λ (t : Text). host ++ (b':' ∷ t)) (ap itoa five ∙ itoa_5060)))
  | inr e ↦ rw e (not_eq (text_eq _ _) refl e)
]
  where
    not_eq :
        (b : Bool)
        → text_eq (host ++ (b':' ∷ itoa p)) (host ++ text ":5060") ≡ b
        → (p == 5060) ≡ false
        → b ≡ false
    not_eq false t e = refl
    not_eq true t e =
        let ports : itoa p ≡ text "5060" =
          (port_of host host (itoa p) (text "5060") h h ((text_eq_iff _ _).0 t)).1 in
        let five : p ≡ 5060 = itoa-injective p 5060 q (omega arith) (ports ∙ sym itoa_5060) in
        ground (arith)

not_private :
    (host other : Text) (p : ℕ)
    → LacksColon host
    → LacksColon other
    → host ≢ other
    → text_eq (host ++ (b':' ∷ itoa p)) (other ++ text ":5065") ≡ false
not_private host other p h o n = go (text_eq _ _) refl
  where
    go : (b : Bool) → text_eq (host ++ (b':' ∷ itoa p)) (other ++ text ":5065") ≡ b → b ≡ false
    go false t = refl
    go true t = absurd (n (port_of host other (itoa p) (text "5065") h o ((text_eq_iff _ _).0 t)).0)

no_hop : (text_eq [] (text "public") ≡ false) × (text_eq [] (text "private") ≡ false)
unfolding text_eq
no_hop = (refl, refl)

-- A Route entry for the controller's public address with port `p` is taken out exactly when `p` is
-- 5060, whatever port the controller advertises: with the addresses free of colons and different, and
-- a non-empty entry that sipgo parses, and `p` positive and an int.
pub keep_entry-public :
    (parse_uri : Text → Option Uri) (cfg : RouteConfig) (entry : Text) (uri : Uri) (p : ℕ)
    → parse_uri (unbracket (trim_space entry)) ≡ some uri
    → uri.host ≡ cfg.public_ip
    → uri.port ≡ pos p
    → 0 < p
    → p < int_limit
    → LacksColon cfg.public_ip
    → LacksColon cfg.private_ip
    → cfg.public_ip ≢ cfg.private_ip
    → entry ≢ []
    → keep_entry parse_uri cfg [] entry ≡ (if p == 5060 then [] else entry ∷ [])
unfolding keep_entry
keep_entry-public parse_uri cfg entry uri p e host port q l hp ho n ne =
    rw (e, route_hop, host, port, hop_text cfg.public_ip p hp q)
      (ground (
        arith,
        is_port_5060 cfg.public_ip p hp l,
        not_private cfg.public_ip cfg.private_ip p hp ho n,
        text_eq_iff entry [],
        no_hop,
      ))
