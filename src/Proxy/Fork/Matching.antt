-- ===== src/Proxy/Fork/Matching.antt =====
-- sbc/proxy.go: for which INVITE the CANCELs are that end a call of FreeSWITCH to a user.
use comcent_ce.Common.{
  ℕ, zero, suc, ◌≡◌, ◌∙◌, refl, ap, inl, inr, Bool, true, false, List, [], ◌∷◌, ◌++◌, Option, none,
  some, Text, text_eq_iff, lookup, store, lookup-store, lookup-delete, length, get_elem?, In, All,
  Option-cases,
}
use comcent_ce.Sip.{Sipgo, Request, Response}
use comcent_ce.Contact.Targets.{is_webrtc_sdp}
use comcent_ce.Registrar.{lookup_by_type}
use comcent_ce.Registrar.Contacts.{Contact}
use comcent_ce.Forward.{Ports}
use comcent_ce.Forward.Route.{RouteConfig}
use comcent_ce.Proxy.Calls.{waiting, ended}
use comcent_ce.Proxy.Cancel.{cancel_request, cancel_outgoing}
use comcent_ce.Proxy.Cancel.Matching.{
  Matches, cancel_request-Matches, cancel_outgoing-stored, cancel_outgoing-none,
}
use comcent_ce.Proxy.Fork.{
  Branch, Report, answered, errored, nothing, withdrawn, Result, Shared, Trace, Kind, trying,
  provisional, declined, succeeded, refused, kind_of, win_call, unregister_branch, on_response,
  on_report, gather, leave, prepare, saved, fork, fork_contacts, invite_to_user,
}
use comcent_ce.Proxy.Fork.CalledOff.{cancelled, CallsOff}
use comcent_ce.Proxy.Fork.Siblings.{invite_to_user-cancelled}

-- The CANCEL is for the INVITE of a branch.
abbrev pub IsForBranch : List Branch → Request → Type 0
IsForBranch branches c = (b : Branch) × In b branches × Matches b.request c

-- A CANCEL by way of cancelOutgoing is for the INVITE of FreeSWITCH itself while the handler waits, and
-- behind it there is none.
abbrev pub CancelsOwn : Text → Request → Trace → Type 0
CancelsOwn id req (s, acts, waiting) =
    (c : Request) × (cancel_outgoing s.table id ≡ some c) × Matches req c
CancelsOwn id req (s, acts, ended established) = cancel_outgoing s.table id ≡ none

All-from_In : (P : Request → Type 0) (l : List Request) → ((c : Request) → In c l → P c) → All P l
All-from_In P [] f = tt
All-from_In P (c ∷ l) f = (f c (inl refl), All-from_In P l (λ x m. f x (inr m)))

In-get_elem? : (bs : List Branch) (i : ℕ) (b : Branch) → get_elem? bs i ≡ some b → In b bs
In-get_elem? [] i b e = cc
In-get_elem? (x ∷ bs) zero b e = inl cc
In-get_elem? (x ∷ bs) (suc i) b e = inr (In-get_elem? bs i b e)

called_off-IsForBranch :
    (branches : List Branch) (r : Result) (c : Request)
    → CallsOff branches r c
    → IsForBranch branches c
called_off-IsForBranch branches r c (i, b, at_i, is_open, same, why) = (
  b,
  In-get_elem? branches i b at_i,
  rw same (cancel_request-Matches b.request b.request.transport),
)

module _ (sip : Sipgo) (req : Request) (id aor : Text) where
  module _ (branches : List Branch) where
    active-win_call :
        (i : ℕ) (s : Shared) → (win_call sip req id aor branches i s).table.active ≡ s.table.active
    unfolding win_call
    active-win_call i s = elim (Option-cases (get_elem? branches i)) [
      | inl e ↦ rw (e, win_call) refl
      | inr (b, e) ↦ rw (e, win_call) refl
    ]

    active-unregister_branch :
        (i : ℕ) (s : Shared)
        → (unregister_branch sip req id aor branches i s).table.active ≡ s.table.active
    unfolding unregister_branch
    active-unregister_branch i s = elim (Option-cases (get_elem? branches i)) [
      | inl e ↦ rw (e, unregister_branch) refl
      | inr (b, e) ↦ rw (e, unregister_branch) refl
    ]

    abbrev RestKeeps : (ℕ → Bool → Option Response → Shared → Trace) → Type 0
    RestKeeps rest =
        (m : ℕ) (relayed : Bool) (best : Option Response) (t : Shared)
        → (rest m relayed best t).0.table.active ≡ t.table.active

    active-on_response :
        (k : Kind) (n : ℕ) (relayed : Bool) (best : Option Response) (s : Shared) (r : Result)
        (resp : Response) (rest : ℕ → Bool → Option Response → Shared → Trace)
        → RestKeeps rest
        → (on_response sip req id aor branches k n relayed best s r resp rest).0.table.active
          ≡ s.table.active
    unfolding on_response
    active-on_response trying n relayed best s r resp rest h = h (suc n) relayed best s
    active-on_response provisional n true best s r resp rest h = h (suc n) true best s
    active-on_response provisional n false best s r resp rest h = h (suc n) true best s
    active-on_response declined n relayed best s r resp rest h = refl
    active-on_response succeeded n relayed best s r resp rest h = active-win_call r.idx s
    active-on_response refused n relayed best s r resp rest h = h n relayed _ s

    active-on_report :
        (report : Report) (n : ℕ) (relayed : Bool) (best : Option Response) (s : Shared)
        (r : Result) (rest : ℕ → Bool → Option Response → Shared → Trace)
        → RestKeeps rest
        → (on_report sip req id aor branches n relayed best s r report rest).0.table.active
          ≡ s.table.active
    unfolding on_report
    active-on_report errored n relayed best s r rest h =
        h n relayed best (unregister_branch sip req id aor branches r.idx s)
        ∙ active-unregister_branch r.idx s
    active-on_report nothing n relayed best s r rest h = h n relayed best s
    active-on_report withdrawn n relayed best s r rest h = h (suc n) relayed best s
    active-on_report (answered resp) n relayed best s r rest h =
        active-on_response (kind_of resp.status) n relayed best s r resp rest h

    active-gather : (results : List Result) → RestKeeps (gather sip req id aor branches results)
    unfolding gather
    active-gather [] zero relayed best s = refl
    active-gather (r ∷ results) zero relayed best s = refl
    active-gather [] (suc n) relayed best s = refl
    active-gather (r ∷ results) (suc n) relayed best s =
        active-on_report r.report n relayed best s r (gather sip req id aor branches results)
          (active-gather results)

    leave-CancelsOwn :
        (t : Trace)
        → lookup id t.0.table.active ≡ some req
        → CancelsOwn id req (leave sip req id aor branches t)
    unfolding leave
    leave-CancelsOwn (s, acts, waiting) e = (
      cancel_request req [],
      cancel_outgoing-stored s.table id req e,
      cancel_request-Matches req [],
    )
    leave-CancelsOwn (s, acts, ended true) e =
        cancel_outgoing-none _ id
          (rw (lookup-delete id id s.table.active, (text_eq_iff id id).1 refl) refl)
    leave-CancelsOwn (s, acts, ended false) e =
        cancel_outgoing-none _ id
          (rw (lookup-delete id id s.table.active, (text_eq_iff id id).1 refl) refl)

  fork-CancelsOwn :
      (bs : List Branch) (results : List Result) (s : Shared)
      → lookup id s.table.active ≡ none
      → CancelsOwn id req (fork sip req id aor bs results s)
  unfolding fork
  fork-CancelsOwn [] results s e = cancel_outgoing-none _ id e
  fork-CancelsOwn (b ∷ bs) results s e =
      let t : Shared = record s {
        table = record s.table { active = store id req s.table.active };
      } in
      leave-CancelsOwn (b ∷ bs)
        (gather sip req id aor (b ∷ bs) results (suc (length bs)) false none t)
        (ap (lookup id) (active-gather (b ∷ bs) results (suc (length bs)) false none t)
          ∙ rw (lookup-store id id req s.table.active, (text_eq_iff id id).1 refl) refl)

  contacts-CancelsOwn :
      (cfg : RouteConfig) (ports : Ports) (user domain : Text) (cs : List Contact)
      (results : List Result) (s : Shared)
      → lookup id s.table.active ≡ none
      → CancelsOwn id req (fork_contacts sip req id aor cfg ports user domain cs results s)
  unfolding fork_contacts
  contacts-CancelsOwn cfg ports user domain [] results s e = cancel_outgoing-none s.table id e
  contacts-CancelsOwn cfg ports user domain (c ∷ cs) results s e =
      own
        (fork sip req id aor (prepare sip req cfg ports user domain (c ∷ cs)) results
          (saved sip req id aor s))
        (fork-CancelsOwn (prepare sip req cfg ports user domain (c ∷ cs)) results
          (saved sip req id aor s) e)
    where
      own : (t : Trace) → CancelsOwn id req t → CancelsOwn id req (t.0, [], t.2)
      own (t, acts, waiting) h = h
      own (t, acts, ended b) h = h

-- Every CANCEL that the handler of FreeSWITCH's INVITE to a user sends fits the INVITE that was sent to one
-- of the user's contacts, in its target, destination, first Via, From, To, Call-ID, number and Route. But a
-- CANCEL by way of cancelOutgoing fits the INVITE of FreeSWITCH itself as long as the handler waits, and
-- none is sent behind it. That is, if the call has no transaction before.
pub invite_to_user-Matches :
    (sip : Sipgo) (cfg : RouteConfig) (ports : Ports) (now : ℕ) (req : Request)
    (id user domain : Text) (results : List Result) (s : Shared)
    → lookup id s.table.active ≡ none
    → All
        (IsForBranch (
          prepare sip req cfg ports user domain
            (lookup_by_type s.reg now (user ++ (b'@' ∷ domain)) (is_webrtc_sdp req.body))))
        (cancelled (invite_to_user sip cfg ports now req id user domain results s).1)
      × CancelsOwn id req (invite_to_user sip cfg ports now req id user domain results s)
unfolding invite_to_user
invite_to_user-Matches sip cfg ports now req id user domain results s e =
    let contacts = lookup_by_type s.reg now (user ++ (b'@' ∷ domain)) (is_webrtc_sdp req.body) in
    let branches = prepare sip req cfg ports user domain contacts in
    (
      All-from_In (IsForBranch branches)
          (cancelled (invite_to_user sip cfg ports now req id user domain results s).1)
          (λ c m.
            let (r, at_r, why) =
              (invite_to_user-cancelled sip cfg ports now req id user domain results s c).0 m in
            called_off-IsForBranch branches r c why),
      contacts-CancelsOwn sip req id (user ++ (b'@' ∷ domain)) cfg ports user domain contacts
          results s e,
    )
