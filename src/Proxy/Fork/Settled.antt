-- ===== src/Proxy/Fork/Settled.antt =====
-- sbc/proxy.go: the tables behind FreeSWITCH's INVITE to a user, and handleAck on them.
use comcent_ce.Common.{
  ℕ, suc, ◌≡◌, refl, sym, ap, ◌∙◌, inl, inr, true, false, List, [], ◌∷◌, ◌++◌, none, some, Text,
  text, text_eq_iff, Dict, lookup, delete, store, lookup-delete, length, In, All-In, Option-cases,
}
use mathlib.Core.Bool.{true≢false}
use comcent_ce.Sip.{Sipgo, Request, Response}
use comcent_ce.Contact.Targets.{is_webrtc_sdp}
use comcent_ce.Registrar.{lookup_by_type}
use comcent_ce.Registrar.Contacts.{Contact}
use comcent_ce.Forward.{Ports, too_many_hops}
use comcent_ce.Forward.Route.{RouteConfig}
use comcent_ce.Proxy.Affinity.{delete_affinity}
use comcent_ce.Proxy.Affinity.Calls.{target_of}
use comcent_ce.Proxy.Calls.{Calls, waiting, ended, is_success, handle_ack}
use comcent_ce.Proxy.Calls.Acks.{ack_from_fs}
use comcent_ce.Proxy.Calls.Recorded.{KeepsStatus}
use comcent_ce.Proxy.Calls.Settled.{dropped}
use comcent_ce.Proxy.Fork.{
  Branch, Result, Action, replies, Shared, Trace, won_call, gather, leave, branch_request, prepare,
  saved, fork, fork_contacts, invite_to_user,
}
use comcent_ce.Proxy.Fork.Recorded.{
  NameBranches, HasCall, SentRecorded, AllRecorded, Kept, plain-Recorded, gather-Kept,
}

module _ (sip : Sipgo) (req : Request) (id aor user : Text) (contacts : List Contact) where
  -- The handler waits; or it has returned without a transaction left, and either the call is in the
  -- table as that of a contact, or `user` has no target for it.
  abbrev pub Settled : Trace → Type 0
  Settled (s, acts, waiting) = Unit {0}
  Settled (s, acts, ended true) =
      HasCall sip req id aor contacts s.table × (lookup id s.table.active ≡ none)
  Settled (s, acts, ended false) =
      (target_of s.table.affinity user id ≡ none) × (lookup id s.table.active ≡ none)

  -- No target for the call is left once the call is dropped.
  abbrev Drops : Dict (Dict Text) → Type 0
  Drops affinity = target_of (delete_affinity id (aor ∷ []) affinity) user id ≡ none

  no_transaction : (active : Dict Request) → lookup id (delete id active) ≡ none
  no_transaction active = rw (lookup-delete id id active, (text_eq_iff id id).1 refl) refl

  leave-Settled :
      (branches : List Branch) (affinity : Dict (Dict Text)) (t : Trace)
      → Kept sip req id aor contacts affinity t
      → Drops affinity
      → Settled (leave sip req id aor branches t)
  unfolding leave
  leave-Settled branches affinity (s, acts, waiting) (a, all, c) d = tt
  leave-Settled branches affinity (s, acts, ended true) (a, all, c) d =
      (c refl, no_transaction s.table.active)
  leave-Settled branches affinity (s, acts, ended false) (a, all, c) d =
      (rw a d, no_transaction s.table.active)

  leave-actions : (branches : List Branch) (t : Trace) → (leave sip req id aor branches t).1 ≡ t.1
  unfolding leave
  leave-actions branches (s, acts, waiting) = refl
  leave-actions branches (s, acts, ended b) = refl

  prepare-contacts :
      (cfg : RouteConfig) (ports : Ports) (name domain : Text) (cs : List Contact) (b : Branch)
      → In b (prepare sip req cfg ports name domain cs)
      → In b.contact cs
  unfolding prepare
  prepare-contacts cfg ports name domain [] b m = absurd m
  prepare-contacts cfg ports name domain (c ∷ cs) b m =
      elim (Option-cases (branch_request sip req cfg ports name domain c)) [
        | inl e ↦ inr (prepare-contacts cfg ports name domain cs b (rw (e, prepare) at m))
        | inr (fwd, e) ↦
            elim (let n : In b (
                  record { contact = c; request = fwd }
                  ∷ prepare sip req cfg ports name domain cs) =
                rw (e, prepare) at m in
              n) [
                | inl same ↦ inl (ap (λ (x : Branch). x.contact) same)
                | inr n ↦ inr (prepare-contacts cfg ports name domain cs b n)
              ]
      ]

  module _ (keeps : KeepsStatus sip) (results : List Result) where
    abbrev stored : Shared → Shared
    stored s = record s { table = record s.table { active = store id req s.table.active } }

    fork-Recorded :
        (bs : List Branch) (s : Shared)
        → ((b : Branch) → In b bs → In b.contact contacts)
        → NameBranches (length bs) results
        → AllRecorded sip req id aor contacts (fork sip req id aor bs results s).1
    unfolding fork
    fork-Recorded [] s from i = (
      plain-Recorded sip req id aor contacts keeps s.table 480 (text "Temporarily Unavailable")
          refl,
      tt,
    )
    fork-Recorded (b ∷ bs) s from i =
        rw
          (leave-actions (b ∷ bs)
            (gather sip req id aor (b ∷ bs) results (suc (length bs)) false none (stored s)))
          (gather-Kept sip req id aor contacts keeps (b ∷ bs) from results (suc (length bs)) false
            none (stored s) i tt).1

    fork-Settled :
        (bs : List Branch) (s : Shared)
        → ((b : Branch) → In b bs → In b.contact contacts)
        → NameBranches (length bs) results
        → Drops s.table.affinity
        → lookup id s.table.active ≡ none
        → Settled (fork sip req id aor bs results s)
    unfolding fork
    fork-Settled [] s from i d a = (d, a)
    fork-Settled (b ∷ bs) s from i d a =
        leave-Settled (b ∷ bs) s.table.affinity _
          (gather-Kept sip req id aor contacts keeps (b ∷ bs) from results (suc (length bs)) false
            none (stored s) i tt)
          d

module _ (sip : Sipgo) (req : Request) (id aor user : Text) (keeps : KeepsStatus sip)
    (cfg : RouteConfig) (ports : Ports) (name domain : Text) (results : List Result) where
  abbrev branches_of : List Contact → List Branch
  branches_of = prepare sip req cfg ports name domain

  contacts-Recorded :
      (contacts : List Contact) (s : Shared)
      → NameBranches (length (branches_of contacts)) results
      → AllRecorded sip req id aor contacts
          (fork_contacts sip req id aor cfg ports name domain contacts results s).1
  unfolding fork_contacts
  contacts-Recorded [] s i =
      (plain-Recorded sip req id aor [] keeps s.table 480 (text "Temporarily Unavailable") refl, tt)
  contacts-Recorded (c ∷ cs) s i = (
    plain-Recorded sip req id aor (c ∷ cs) keeps (saved sip req id aor s).table 100 (text "Trying")
        refl,
    fork-Recorded sip req id aor user (c ∷ cs) keeps results (branches_of (c ∷ cs))
        (saved sip req id aor s)
        (prepare-contacts sip req id aor user (c ∷ cs) cfg ports name domain (c ∷ cs)) i,
  )

  contacts-Settled :
      (contacts : List Contact) (s : Shared)
      → NameBranches (length (branches_of contacts)) results
      → target_of s.table.affinity user id ≡ none
      → lookup id s.table.active ≡ none
      → Settled sip req id aor user contacts
          (fork_contacts sip req id aor cfg ports name domain contacts results s)
  unfolding fork_contacts
  contacts-Settled [] s i e a = (e, a)
  contacts-Settled (c ∷ cs) s i e a =
      fork-Settled sip req id aor user (c ∷ cs) keeps results (branches_of (c ∷ cs))
        (saved sip req id aor s)
        (prepare-contacts sip req id aor user (c ∷ cs) cfg ports name domain (c ∷ cs)) i
        (dropped id req.source user (aor ∷ []) s.table.affinity e) a

  HasCall-when_sent :
      (contacts : List Contact) (acts : List Action) (t : Calls) (r : Response)
      → AllRecorded sip req id aor contacts acts
      → In (replies t r) acts
      → is_success r.status ≡ true
      → HasCall sip req id aor contacts t
  HasCall-when_sent contacts acts t r all m e =
      elim (All-In (SentRecorded sip req id aor contacts) (replies t r) acts all m) [
        | inl f ↦ absurd (true≢false (sym e ∙ f))
        | inr c ↦ c
      ]

  acknowledged :
      (contacts : List Contact) (t : Calls) (a : Request)
      → HasCall sip req id aor contacts t
      → too_many_hops a ≡ false
      → (c : Contact) × In c contacts
        × (fwd : Request) × (handle_ack sip cfg t true id a ≡ some fwd)
        × (fwd.destination ≡ c.address)
  unfolding won_call
  acknowledged contacts t a (c, m, e) h =
      let (fwd, found, same, built, numbered, headers) =
        ack_from_fs sip cfg t (won_call sip req aor c) id a e h in
      (c, m, fwd, found, same)

-- Whenever a 2xx to FreeSWITCH's INVITE to a user is sent, an ACK of FreeSWITCH that arrives at that moment
-- finds the call and is sent on to the address of one of the contacts that the INVITE went to, unless its
-- hop limit is used up; if the results name branches that were started and sipgo gives a response
-- the status that it is built with.
pub invite_to_user-acknowledged :
    (sip : Sipgo) (cfg : RouteConfig) (ports : Ports) (now : ℕ) (req : Request)
    (id name domain : Text) (results : List Result) (s : Shared) (t : Calls) (r : Response)
    (a : Request)
    → KeepsStatus sip
    → NameBranches
        (length (
          prepare sip req cfg ports name domain
            (lookup_by_type s.reg now (name ++ (b'@' ∷ domain)) (is_webrtc_sdp req.body))))
        results
    → In (replies t r) (invite_to_user sip cfg ports now req id name domain results s).1
    → is_success r.status ≡ true
    → too_many_hops a ≡ false
    → (c : Contact) × In c
        (lookup_by_type s.reg now (name ++ (b'@' ∷ domain)) (is_webrtc_sdp req.body))
      × (fwd : Request) × (handle_ack sip cfg t true id a ≡ some fwd)
      × (fwd.destination ≡ c.address)
unfolding invite_to_user
invite_to_user-acknowledged sip cfg ports now req id name domain results s t r a k i m f h =
    let aor = name ++ (b'@' ∷ domain) in
    let contacts = lookup_by_type s.reg now aor (is_webrtc_sdp req.body) in
    acknowledged sip req id aor aor k cfg ports name domain results contacts t a
      (HasCall-when_sent sip req id aor aor k cfg ports name domain results contacts _ t r
        (contacts-Recorded sip req id aor aor k cfg ports name domain results contacts s i) m f)
      h

-- When the handler of FreeSWITCH's INVITE to a user has returned, its transaction is gone, and either the
-- call is in the table as that of one of the contacts that the INVITE went to, or no user has a target
-- for it who had none before; if the results name branches that were started, the call has no
-- transaction before, and sipgo gives a response the status that it is built with.
pub invite_to_user-Settled :
    (sip : Sipgo) (cfg : RouteConfig) (ports : Ports) (now : ℕ) (req : Request)
    (id name domain user : Text) (results : List Result) (s : Shared)
    → KeepsStatus sip
    → NameBranches
        (length (
          prepare sip req cfg ports name domain
            (lookup_by_type s.reg now (name ++ (b'@' ∷ domain)) (is_webrtc_sdp req.body))))
        results
    → target_of s.table.affinity user id ≡ none
    → lookup id s.table.active ≡ none
    → Settled sip req id
        (name ++ (b'@' ∷ domain))
        user
        (lookup_by_type s.reg now (name ++ (b'@' ∷ domain)) (is_webrtc_sdp req.body))
        (invite_to_user sip cfg ports now req id name domain results s)
unfolding invite_to_user
invite_to_user-Settled sip cfg ports now req id name domain user results s k i e n =
    let aor = name ++ (b'@' ∷ domain) in
    contacts-Settled sip req id aor user k cfg ports name domain results
      (lookup_by_type s.reg now aor (is_webrtc_sdp req.body)) s i e n
