-- ===== src/Proxy/Fork/Siblings.antt =====
-- sbc/proxy.go: the CANCELs of the handler of FreeSWITCH's INVITE to a user.
use comcent_ce.Common.{
  ℕ, zero, suc, ◌≡◌, ◌↔◌, refl, sym, ap, ◌∙◌, Bool, true, false, List, [], ◌∷◌, ◌++◌, Option, none,
  Text, store, length, In, if◌then◌else◌,
}
use comcent_ce.Sip.{Sipgo, Request, Response}
use comcent_ce.Contact.Targets.{is_webrtc_sdp}
use comcent_ce.Registrar.{lookup_by_type}
use comcent_ce.Registrar.Contacts.{Contact}
use comcent_ce.Forward.{Ports}
use comcent_ce.Forward.Route.{RouteConfig}
use comcent_ce.Proxy.Calls.{waiting, ended}
use comcent_ce.Proxy.Fork.{
  Branch, Report, answered, errored, nothing, withdrawn, Result, Shared, Trace, Kind, trying,
  provisional, declined, succeeded, refused, kind_of, cancel_branches, is_sibling, on_response,
  on_report, gather, leave, prepare, saved, fork, fork_contacts, invite_to_user,
}
use comcent_ce.Proxy.Fork.Relayed.{kind_final}
use comcent_ce.Proxy.Fork.Ended.{is_last}
use comcent_ce.Proxy.Fork.Best.{is_settling}
use comcent_ce.Proxy.Fork.CalledOff.{
  cancelled, taken, CallsOff, cancelled-append, append-nil, of_branches, at_report, off, off_iff,
}

module _ (sip : Sipgo) (req : Request) (id aor : Text) where
  module _ (branches : List Branch) where
    abbrev RestCallsOff : List Result → (ℕ → Bool → Option Response → Shared → Trace) → Type 0
    RestCallsOff results rest =
        (m : ℕ) (relayed : Bool) (best : Option Response) (t : Shared)
        → cancelled (rest m relayed best t).1 ≡ off branches (taken results m)

    -- The CANCELs at a report, and at what is taken then.
    abbrev expected : Result → Report → ℕ → List Result → List Request
    expected r report n results =
        let rest = taken results (if is_last report then n else suc n) in
        at_report branches r report ++ off branches (if is_settling report then [] else rest)

    cancelled-on_response :
        (k : Kind) (n : ℕ) (relayed : Bool) (best : Option Response) (s : Shared) (r : Result)
        (resp : Response) (results : List Result)
        (rest : ℕ → Bool → Option Response → Shared → Trace)
        → kind_of resp.status ≡ k
        → RestCallsOff results rest
        → cancelled (on_response sip req id aor branches k n relayed best s r resp rest).1
          ≡ expected r (answered resp) n results
    unfolding on_response
    cancelled-on_response trying n relayed best s r resp results rest e h =
        rw ((kind_final resp.status).0 e, e) (h (suc n) relayed best s)
    cancelled-on_response provisional n true best s r resp results rest e h =
        rw ((kind_final resp.status).1 e, e) (h (suc n) true best s)
    cancelled-on_response provisional n false best s r resp results rest e h =
        rw ((kind_final resp.status).1 e, e) (h (suc n) true best s)
    cancelled-on_response declined n relayed best s r resp results rest e h =
        rw e (cancelled-append (cancel_branches (is_sibling r) 0 branches) _)
    cancelled-on_response succeeded n relayed best s r resp results rest e h =
        rw e (sym (append-nil (of_branches (is_sibling r) branches)))
    cancelled-on_response refused n relayed best s r resp results rest e h =
        rw ((kind_final resp.status).4 e, e) (h n relayed _ s)

    cancelled-on_report :
        (report : Report) (n : ℕ) (relayed : Bool) (best : Option Response) (s : Shared)
        (r : Result) (results : List Result) (rest : ℕ → Bool → Option Response → Shared → Trace)
        → RestCallsOff results rest
        → cancelled (on_report sip req id aor branches n relayed best s r report rest).1
          ≡ expected r report n results
    unfolding on_report
    cancelled-on_report errored n relayed best s r results rest h = h n relayed best _
    cancelled-on_report nothing n relayed best s r results rest h = h n relayed best s
    cancelled-on_report withdrawn n relayed best s r results rest h =
        cancelled-append (cancel_branches r.is_open 0 branches) (rest (suc n) relayed best s).1
        ∙ ap (λ (l : List Request). of_branches r.is_open branches ++ l) (h (suc n) relayed best s)
    cancelled-on_report (answered resp) n relayed best s r results rest h =
        cancelled-on_response (kind_of resp.status) n relayed best s r resp results rest refl h

    cancelled-gather :
        (results : List Result) → RestCallsOff results (gather sip req id aor branches results)
    unfolding gather
    cancelled-gather [] zero relayed best s = refl
    cancelled-gather (r ∷ results) zero relayed best s = refl
    cancelled-gather [] (suc n) relayed best s = refl
    cancelled-gather (r ∷ results) (suc n) relayed best s =
        cancelled-on_report r.report n relayed best s r results
          (gather sip req id aor branches results) (cancelled-gather results)

    cancelled-leave : (t : Trace) → cancelled (leave sip req id aor branches t).1 ≡ cancelled t.1
    unfolding leave
    cancelled-leave (s, acts, waiting) = refl
    cancelled-leave (s, acts, ended b) = refl

  cancelled-fork :
      (bs : List Branch) (results : List Result) (s : Shared)
      → cancelled (fork sip req id aor bs results s).1 ≡ off bs (taken results (length bs))
  unfolding fork
  cancelled-fork [] [] s = refl
  cancelled-fork [] (r ∷ results) s = refl
  cancelled-fork (b ∷ bs) results s =
      let t = record s { table = record s.table { active = store id req s.table.active } } in
      cancelled-leave (b ∷ bs)
        (gather sip req id aor (b ∷ bs) results (suc (length bs)) false none t)
      ∙ cancelled-gather (b ∷ bs) results (suc (length bs)) false none t

  cancelled-fork_contacts :
      (cfg : RouteConfig) (ports : Ports) (user domain : Text) (cs : List Contact)
      (results : List Result) (s : Shared)
      → let branches = prepare sip req cfg ports user domain cs in
        cancelled (fork_contacts sip req id aor cfg ports user domain cs results s).1
        ≡ off branches (taken results (length branches))
  unfolding fork_contacts prepare
  cancelled-fork_contacts cfg ports user domain [] [] s = refl
  cancelled-fork_contacts cfg ports user domain [] (r ∷ results) s = refl
  cancelled-fork_contacts cfg ports user domain (c ∷ cs) results s =
      cancelled-fork (prepare sip req cfg ports user domain (c ∷ cs)) results
        (saved sip req id aor s)

-- The CANCELs that the handler sends are those of the branches that are open when FreeSWITCH cancels its
-- INVITE, and of the other open branches when one takes the call or refuses it everywhere; it sends no
-- other. That is up to the end of the handler, with what comes to it in order.
pub invite_to_user-cancelled :
    (sip : Sipgo) (cfg : RouteConfig) (ports : Ports) (now : ℕ) (req : Request)
    (id user domain : Text) (results : List Result) (s : Shared) (c : Request)
    → let branches =
        prepare sip req cfg ports user domain
          (lookup_by_type s.reg now (user ++ (b'@' ∷ domain)) (is_webrtc_sdp req.body)) in
      In c (cancelled (invite_to_user sip cfg ports now req id user domain results s).1)
      ↔ ((r : Result) × In r (taken results (length branches)) × CallsOff branches r c)
unfolding invite_to_user
invite_to_user-cancelled sip cfg ports now req id user domain results s c =
    let contacts = lookup_by_type s.reg now (user ++ (b'@' ∷ domain)) (is_webrtc_sdp req.body) in
    let branches = prepare sip req cfg ports user domain contacts in
    rw
      (cancelled-fork_contacts sip req id (user ++ (b'@' ∷ domain)) cfg ports user domain contacts
        results s)
      (off_iff branches (taken results (length branches)) c)
