-- ===== src/Proxy/Protected.antt =====
-- sbc/ip_ban.go: neverBan and Proxy.failed, over the registrar, the dispatcher and the trunks.
use comcent_ce.Common.{
  ℕ, ◌≡◌, ◌⊎◌, inl, inr, refl, ◌∙◌, true, none, some, arith, Text, text, lookup, if◌then◌else◌,
  Option-cases,
}
use comcent_ce.Sip.{Sipgo, Request, get_header}
use comcent_ce.Dispatcher.{is_target, fs_uri}
use comcent_ce.Dispatcher.Targets.{is_from_fs-target}
use comcent_ce.Registrar.Lookups.{LiveFrom, has_source_ip_iff}
use comcent_ce.IpBan.Protected.{fail_never}
use comcent_ce.Api.{
  IpNet, Outcome, found, not_found, failed, TrunkData, is_trunk_ip, get_sip_trunk, answer,
}
use comcent_ce.Api.Trunks.{AreParsed, is_ip_allowed, is_trunk_ip-get_sip_trunk}
use comcent_ce.Proxy.{Proxy, never_ban, source_ip, count_failed, failed_auth, counts}

module _ (net : IpNet) where
  -- The sources that the controller serves: a target of the dispatcher, a trunk, or a host with a live
  -- registration.
  abbrev Served : Proxy net → ℕ → Text → Type 0
  Served p now ip =
      (is_target (fs_uri ip) p.dispatcher.targets ≡ true)
      ⊎ ((is_trunk_ip net p.api ip ≡ true) ⊎ LiveFrom p.reg now ip)

  never_ban-Served :
      (p : Proxy net) (now : ℕ) (ip : Text) → Served p now ip → never_ban net p now ip ≡ true
  unfolding never_ban
  never_ban-Served p now ip (inl target) =
      let fs = is_from_fs-target p.dispatcher ip ∙ target in ground arith
  never_ban-Served p now ip (inr (inl trunk)) = ground arith
  never_ban-Served p now ip (inr (inr live)) =
      let from = (has_source_ip_iff p.reg now ip).1 live in ground arith

  count_failed_never :
      (p : Proxy net) (now : ℕ) (req : Request)
      → never_ban net p now (source_ip req) ≡ true
      → count_failed net p now req ≡ p
  unfolding count_failed
  count_failed_never p now req e = rw (e, fail_never p.ban now (source_ip req)) refl

module _ (net : IpNet) where
  -- A counted failure changes the ban list only.
  pub reg-count_failed :
      (p : Proxy net) (now : ℕ) (req : Request) → (count_failed net p now req).reg ≡ p.reg
  unfolding count_failed
  reg-count_failed p now req = refl

  pub reg-failed_auth :
      (sip : Sipgo) (p : Proxy net) (now : ℕ) (req : Request) (error : Outcome Text)
      → (failed_auth net sip p now req error).reg ≡ p.reg
  unfolding failed_auth
  reg-failed_auth sip p now req error =
      elim (Option-cases (get_header sip (text "Authorization") req.headers)) [
        | inl e ↦ rw (e, failed_auth) refl
        | inr (credentials, e) ↦ rw (e, failed_auth) (go error)
      ]
    where
      go : (o : Outcome Text) → (if counts net o then count_failed net p now req else p).reg ≡ p.reg
      go (found password) = reg-count_failed p now req
      go not_found = reg-count_failed p now req
      go failed = refl

-- A rejected request from a source that the controller serves is not counted: a target of the
-- dispatcher, a trunk, or a host with a live registration.
pub count_failed-Served :
    (net : IpNet) (p : Proxy net) (now : ℕ) (req : Request)
    → Served net p now (source_ip req)
    → count_failed net p now req ≡ p
count_failed-Served net p now req s =
    count_failed_never net p now req (never_ban-Served net p now (source_ip req) s)

-- Once the server has told of the trunk of a number that was not cached, no rejected request from an
-- address that the trunk may call from is counted, if the networks known before were read from their
-- texts.
count_failed-trunk :
    (net : IpNet) (p : Proxy net) (now later : ℕ) (number : Text) (t : TrunkData) (req : Request)
    → lookup number p.api.trunk_cache ≡ none
    → AreParsed net p.api.trunk_nets
    → is_ip_allowed net (source_ip req) t.inbound_ips ≡ true
    → count_failed net
        (record p { api = (get_sip_trunk net p.api now number (answer 200 (some t))).0 })
        later
        req
      ≡ record p { api = (get_sip_trunk net p.api now number (answer 200 (some t))).0 }
count_failed-trunk net p now later number t req e d h =
    count_failed-Served net
      (record p { api = (get_sip_trunk net p.api now number (answer 200 (some t))).0 }) later req
      (inr (inl (is_trunk_ip-get_sip_trunk net p.api now number (source_ip req) t e d h)))
