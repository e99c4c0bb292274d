-- ===== src/Proxy/Fork/Ended.antt =====
-- sbc/proxy.go: when the handler of FreeSWITCH's INVITE to a user returns.
use comcent_ce.Common.{
  ℕ, zero, suc, ◌≡◌, ◌≤◌, refl, inl, inr, Bool, true, false, List, [], ◌∷◌, ◌++◌, Option, none,
  arith, Text, length, leb, if◌then◌else◌, Option-cases,
}
use comcent_ce.Sip.{Sipgo, Request, Response}
use comcent_ce.Contact.Targets.{is_webrtc_sdp}
use comcent_ce.Registrar.{lookup_by_type}
use comcent_ce.Registrar.Contacts.{Contact}
use comcent_ce.Forward.{Ports}
use comcent_ce.Forward.Route.{RouteConfig}
use comcent_ce.Proxy.Calls.{waiting, ended}
use comcent_ce.Proxy.Fork.{
  Branch, Report, answered, errored, nothing, withdrawn, Result, Shared, Trace, Kind, trying,
  provisional, declined, succeeded, refused, kind_of, on_response, on_report, gather, leave,
  branch_request, prepare, saved, fork, fork_contacts, invite_to_user,
}
use comcent_ce.Proxy.Fork.Relayed.{kind_final}

-- A report after which its branch has nothing more to say.
abbrev pub is_last : Report → Bool
is_last (answered resp) = leb 200 resp.status
is_last errored = true
is_last nothing = true
is_last withdrawn = false

-- How many branches have said their last.
abbrev pub last_reports : List Result → ℕ
last_reports [] = 0
last_reports (r ∷ results) =
    let rest = last_reports results in if is_last r.report then suc rest else rest

-- The handler has returned.
abbrev pub HasEnded : Trace → Type 0
HasEnded (s, acts, status) = (established : Bool) × (status ≡ ended established)

module _ (sip : Sipgo) (req : Request) (id aor : Text) where
  module _ (branches : List Branch) where
    -- The rest of the loop returns, if as many reports as it waits for are left.
    abbrev RestEnds : ℕ → (ℕ → Bool → Option Response → Shared → Trace) → Type 0
    RestEnds left rest =
        (m : ℕ) (relayed : Bool) (best : Option Response) (t : Shared)
        → m ≤ left
        → HasEnded (rest m relayed best t)

    response-HasEnded :
        (k : Kind) (n left : ℕ) (relayed : Bool) (best : Option Response) (s : Shared) (r : Result)
        (resp : Response) (rest : ℕ → Bool → Option Response → Shared → Trace)
        → kind_of resp.status ≡ k
        → suc n ≤ (if leb 200 resp.status then suc left else left)
        → RestEnds left rest
        → HasEnded (on_response sip req id aor branches k n relayed best s r resp rest)
    unfolding on_response
    response-HasEnded trying n left relayed best s r resp rest e l h =
        h (suc n) relayed best s (ground (arith, (kind_final resp.status).0 e))
    response-HasEnded provisional n left true best s r resp rest e l h =
        h (suc n) true best s (ground (arith, (kind_final resp.status).1 e))
    response-HasEnded provisional n left false best s r resp rest e l h =
        h (suc n) true best s (ground (arith, (kind_final resp.status).1 e))
    response-HasEnded declined n left relayed best s r resp rest e l h = (false, refl)
    response-HasEnded succeeded n left relayed best s r resp rest e l h = (true, refl)
    response-HasEnded refused n left relayed best s r resp rest e l h =
        h n relayed _ s (ground (arith, (kind_final resp.status).4 e))

    report-HasEnded :
        (report : Report) (n left : ℕ) (relayed : Bool) (best : Option Response) (s : Shared)
        (r : Result) (rest : ℕ → Bool → Option Response → Shared → Trace)
        → suc n ≤ (if is_last report then suc left else left)
        → RestEnds left rest
        → HasEnded (on_report sip req id aor branches n relayed best s r report rest)
    unfolding on_report
    report-HasEnded errored n left relayed best s r rest l h = h n relayed best _ (omega arith)
    report-HasEnded nothing n left relayed best s r rest l h = h n relayed best s (omega arith)
    report-HasEnded withdrawn n left relayed best s r rest l h =
        h (suc n) relayed best s (omega arith)
    report-HasEnded (answered resp) n left relayed best s r rest l h =
        response-HasEnded (kind_of resp.status) n left relayed best s r resp rest refl l h

    gather-HasEnded :
        (results : List Result) (n : ℕ) (relayed : Bool) (best : Option Response) (s : Shared)
        → n ≤ last_reports results
        → HasEnded (gather sip req id aor branches results n relayed best s)
    unfolding gather
    gather-HasEnded [] zero relayed best s l = (false, refl)
    gather-HasEnded (r ∷ results) zero relayed best s l = (false, refl)
    gather-HasEnded [] (suc n) relayed best s l = absurd (omega arith)
    gather-HasEnded (r ∷ results) (suc n) relayed best s l =
        report-HasEnded r.report n (last_reports results) relayed best s r
          (gather sip req id aor branches results) l (gather-HasEnded results)

    leave-HasEnded : (t : Trace) → HasEnded t → HasEnded (leave sip req id aor branches t)
    unfolding leave
    leave-HasEnded (s, acts, waiting) h = h
    leave-HasEnded (s, acts, ended b) h = h

  fork-HasEnded :
      (bs : List Branch) (results : List Result) (s : Shared)
      → length bs ≤ last_reports results
      → HasEnded (fork sip req id aor bs results s)
  unfolding fork
  fork-HasEnded [] results s l = (false, refl)
  fork-HasEnded (b ∷ bs) results s l =
      leave-HasEnded (b ∷ bs) _ (gather-HasEnded (b ∷ bs) results (suc (length bs)) false none _ l)

  length-prepare-le :
      (cfg : RouteConfig) (ports : Ports) (user domain : Text) (cs : List Contact)
      → length (prepare sip req cfg ports user domain cs) ≤ length cs
  unfolding prepare
  length-prepare-le cfg ports user domain [] = omega arith
  length-prepare-le cfg ports user domain (c ∷ cs) =
      elim (Option-cases (branch_request sip req cfg ports user domain c)) [
        | inl e ↦ rw (e, prepare) (omega (arith, length-prepare-le cfg ports user domain cs))
        | inr (fwd, e) ↦ rw (e, prepare) (omega (arith, length-prepare-le cfg ports user domain cs))
      ]

  contacts-HasEnded :
      (cfg : RouteConfig) (ports : Ports) (user domain : Text) (cs : List Contact)
      (results : List Result) (s : Shared)
      → length cs ≤ last_reports results
      → HasEnded (fork_contacts sip req id aor cfg ports user domain cs results s)
  unfolding fork_contacts
  contacts-HasEnded cfg ports user domain [] results s l = (false, refl)
  contacts-HasEnded cfg ports user domain (c ∷ cs) results s l =
      fork-HasEnded (prepare sip req cfg ports user domain (c ∷ cs)) results
        (saved sip req id aor s) (omega (arith, length-prepare-le cfg ports user domain (c ∷ cs)))

-- The handler of FreeSWITCH's INVITE to a user has returned once as many branches have reported a final
-- response or an error as the user has contacts of the type that the INVITE asks for.
pub invite_to_user-HasEnded :
    (sip : Sipgo) (cfg : RouteConfig) (ports : Ports) (now : ℕ) (req : Request)
    (id user domain : Text) (results : List Result) (s : Shared)
    → length (lookup_by_type s.reg now (user ++ (b'@' ∷ domain)) (is_webrtc_sdp req.body))
      ≤ last_reports results
    → HasEnded (invite_to_user sip cfg ports now req id user domain results s)
unfolding invite_to_user
invite_to_user-HasEnded sip cfg ports now req id user domain results s l =
    contacts-HasEnded sip req id (user ++ (b'@' ∷ domain)) cfg ports user domain
      (lookup_by_type s.reg now (user ++ (b'@' ∷ domain)) (is_webrtc_sdp req.body)) results s l
