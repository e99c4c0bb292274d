-- ===== src/Forward/Loop.antt =====
-- sbc/proxy.go: a request that comes back to the controller after each time it is sent on.
use comcent_ce.Common.{
  ℕ, zero, suc, ◌≡◌, inl, inr, refl, ◌∙◌, Bool, true, false, Option, none, some, arith, Text, leb,
  Option-cases,
}
use comcent_ce.Sip.{Uri, Request, Sipgo, max_forwards}
use comcent_ce.Forward.Route.{RouteConfig}
use comcent_ce.Forward.{next_hops, build_forward, too_many_hops}
use comcent_ce.Forward.Hops.{max_forwards-build_forward, build_forward-none}

too_many_hops-eq :
    (req : Request) (k : ℕ) → max_forwards req.headers ≡ some k → too_many_hops req ≡ leb k 0
unfolding too_many_hops
too_many_hops-eq req k e = rw (e, too_many_hops) refl

positive : (k : ℕ) → leb (suc k) 0 ≡ false
positive k = ground arith

counted : (o : Option ℕ) (k : ℕ) → o ≡ some (suc k) → next_hops o ≡ some k
unfolding next_hops
counted o k e = rw e refl

abbrev pub is_some : Option Request → Bool
is_some none = false
is_some (some r) = true

module _ (sip : Sipgo) (cfg : RouteConfig) (keep_hop : Text) (uri : Uri) where
  -- `n` rounds in which the request is sent on and arrives again.
  pub send_times : ℕ → Request → Option Request
  send_times zero req = some req
  send_times (suc n) req = elim (build_forward sip cfg req uri keep_hop) [
    | none ↦ none
    | some fwd ↦ send_times n fwd
  ]

  -- A request that arrives with Max-Forwards `k` can be sent on `k` times and no more, however it is
  -- routed.
  pub send_times_limit :
      (n : ℕ) (req : Request) (k : ℕ)
      → max_forwards req.headers ≡ some k
      → is_some (send_times n req) ≡ leb n k
  unfolding send_times
  send_times_limit zero req k e = ground arith
  send_times_limit (suc n) req zero e =
      let stopped : build_forward sip cfg req uri keep_hop ≡ none =
        (build_forward-none sip cfg keep_hop req uri).1 (too_many_hops-eq req 0 e) in
      rw (stopped, send_times) (ground arith)
  send_times_limit (suc n) req (suc k) e =
      elim (Option-cases (build_forward sip cfg req uri keep_hop)) [
        | inl b ↦ cc (
          too_many_hops-eq req (suc k) e,
          (build_forward-none sip cfg keep_hop req uri).0 b,
          positive k,
        )
        | inr (fwd, b) ↦
            let left : max_forwards fwd.headers ≡ some k =
              max_forwards-build_forward sip cfg keep_hop req uri fwd b
              ∙ counted (max_forwards req.headers) k e in
            rw (b, send_times) (send_times_limit n fwd k left ∙ ground arith)
      ]
