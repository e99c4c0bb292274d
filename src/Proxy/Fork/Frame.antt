-- ===== src/Proxy/Fork/Frame.antt =====
-- sbc/proxy.go: other calls while handleInviteFromFSToUser runs.
use comcent_ce.Common.{
  ℕ, zero, suc, inl, inr, Bool, true, false, List, [], ◌∷◌, ◌++◌, Option, none, Text, store, length,
  get_elem?, Option-cases,
}
use comcent_ce.Sip.{Sipgo, Request, Response}
use comcent_ce.Contact.Targets.{is_webrtc_sdp}
use comcent_ce.Registrar.{lookup_by_type}
use comcent_ce.Registrar.Contacts.{Contact}
use comcent_ce.Forward.{Ports}
use comcent_ce.Forward.Route.{RouteConfig}
use comcent_ce.Proxy.Calls.{waiting, ended}
use comcent_ce.Proxy.Fork.{
  Branch, Report, answered, errored, nothing, withdrawn, Result, Shared, Trace, Kind, trying,
  provisional, declined, succeeded, refused, kind_of, won_call, win_call, unregister_branch,
  on_response, on_report, gather, leave, prepare, saved, fork, fork_contacts, invite_to_user,
}
use comcent_ce.Proxy.Isolation.{
  Apart, Apart-refl, Apart-trans, store_call-Apart, store_active-Apart, delete_active-Apart,
}

module _ (sip : Sipgo) (req : Request) (id aor : Text) where
  module _ (branches : List Branch) where
    win_call-Apart :
        (i : ℕ) (s : Shared) → Apart id s.table (win_call sip req id aor branches i s).table
    unfolding win_call
    win_call-Apart i s = elim (Option-cases (get_elem? branches i)) [
      | inl e ↦ rw (e, win_call) (Apart-refl id s.table)
      | inr (b, e) ↦ rw (e, win_call) (store_call-Apart id (won_call sip req aor b.contact) s.table)
    ]

    unregister_branch-Apart :
        (i : ℕ) (s : Shared)
        → Apart id s.table (unregister_branch sip req id aor branches i s).table
    unfolding unregister_branch
    unregister_branch-Apart i s = elim (Option-cases (get_elem? branches i)) [
      | inl e ↦ rw (e, unregister_branch) (Apart-refl id s.table)
      | inr (b, e) ↦ rw (e, unregister_branch) (Apart-refl id s.table)
    ]

    abbrev RestApart : (ℕ → Bool → Option Response → Shared → Trace) → Type 0
    RestApart rest =
        (m : ℕ) (relayed : Bool) (best : Option Response) (t : Shared)
        → Apart id t.table (rest m relayed best t).0.table

    response-Apart :
        (k : Kind) (n : ℕ) (relayed : Bool) (best : Option Response) (s : Shared) (r : Result)
        (resp : Response) (rest : ℕ → Bool → Option Response → Shared → Trace)
        → RestApart rest
        → Apart id s.table
            (on_response sip req id aor branches k n relayed best s r resp rest).0.table
    unfolding on_response
    response-Apart trying n relayed best s r resp rest h = h (suc n) relayed best s
    response-Apart provisional n true best s r resp rest h = h (suc n) true best s
    response-Apart provisional n false best s r resp rest h = h (suc n) true best s
    response-Apart declined n relayed best s r resp rest h = Apart-refl id s.table
    response-Apart succeeded n relayed best s r resp rest h = win_call-Apart r.idx s
    response-Apart refused n relayed best s r resp rest h = h n relayed _ s

    report-Apart :
        (report : Report) (n : ℕ) (relayed : Bool) (best : Option Response) (s : Shared)
        (r : Result) (rest : ℕ → Bool → Option Response → Shared → Trace)
        → RestApart rest
        → Apart id s.table
            (on_report sip req id aor branches n relayed best s r report rest).0.table
    unfolding on_report
    report-Apart errored n relayed best s r rest h =
        let t = unregister_branch sip req id aor branches r.idx s in
        Apart-trans id s.table t.table (rest n relayed best t).0.table
          (unregister_branch-Apart r.idx s) (h n relayed best t)
    report-Apart nothing n relayed best s r rest h = h n relayed best s
    report-Apart withdrawn n relayed best s r rest h = h (suc n) relayed best s
    report-Apart (answered resp) n relayed best s r rest h =
        response-Apart (kind_of resp.status) n relayed best s r resp rest h

    gather-Apart : (results : List Result) → RestApart (gather sip req id aor branches results)
    unfolding gather
    gather-Apart [] zero relayed best s = Apart-refl id s.table
    gather-Apart (r ∷ results) zero relayed best s = Apart-refl id s.table
    gather-Apart [] (suc n) relayed best s = Apart-refl id s.table
    gather-Apart (r ∷ results) (suc n) relayed best s =
        report-Apart r.report n relayed best s r (gather sip req id aor branches results)
          (gather-Apart results)

    leave-Apart : (t : Trace) → Apart id t.0.table (leave sip req id aor branches t).0.table
    unfolding leave
    leave-Apart (s, acts, waiting) = Apart-refl id s.table
    leave-Apart (s, acts, ended true) = delete_active-Apart id s.table
    leave-Apart (s, acts, ended false) = delete_active-Apart id s.table

  fork-Apart :
      (bs : List Branch) (results : List Result) (s : Shared)
      → Apart id s.table (fork sip req id aor bs results s).0.table
  unfolding fork
  fork-Apart [] results s = Apart-refl id s.table
  fork-Apart (b ∷ bs) results s =
      let t : Shared = record s {
        table = record s.table { active = store id req s.table.active };
      } in
      let u = gather sip req id aor (b ∷ bs) results (suc (length bs)) false none t in
      let v = (leave sip req id aor (b ∷ bs) u).0.table in
      Apart-trans id s.table t.table v (store_active-Apart id req s.table) (
        Apart-trans id t.table u.0.table v
          (gather-Apart (b ∷ bs) results (suc (length bs)) false none t) (leave-Apart (b ∷ bs) u))

  contacts-Apart :
      (cfg : RouteConfig) (ports : Ports) (user domain : Text) (cs : List Contact)
      (results : List Result) (s : Shared)
      → Apart id s.table (fork_contacts sip req id aor cfg ports user domain cs results s).0.table
  unfolding fork_contacts
  contacts-Apart cfg ports user domain [] results s = Apart-refl id s.table
  contacts-Apart cfg ports user domain (c ∷ cs) results s =
      fork-Apart (prepare sip req cfg ports user domain (c ∷ cs)) results (saved sip req id aor s)

pub invite_to_user-Apart :
    (sip : Sipgo) (cfg : RouteConfig) (ports : Ports) (now : ℕ) (req : Request)
    (id user domain : Text) (results : List Result) (s : Shared)
    → Apart id s.table (invite_to_user sip cfg ports now req id user domain results s).0.table
unfolding invite_to_user
invite_to_user-Apart sip cfg ports now req id user domain results s =
    contacts-Apart sip req id (user ++ (b'@' ∷ domain)) cfg ports user domain
      (lookup_by_type s.reg now (user ++ (b'@' ∷ domain)) (is_webrtc_sdp req.body)) results s
