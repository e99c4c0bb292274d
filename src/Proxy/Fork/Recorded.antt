-- ===== src/Proxy/Fork/Recorded.antt =====
-- sbc/proxy.go: the call table while FreeSWITCH's INVITE to a user is handled.
use comcent_ce.Common.{
  ℕ, zero, suc, ◌≡◌, ◌<◌, ◌⊎◌, refl, ap, ◌∙◌, inl, inr, Bool, true, false, List, [], ◌∷◌, Option,
  none, some, arith, Text, text, text_eq_iff, Dict, lookup, lookup-store, length, get_elem?, In,
  All, All-append, Option-cases,
}
use comcent_ce.Sip.{Sipgo, Request, Response}
use comcent_ce.Registrar.Contacts.{Contact}
use comcent_ce.Proxy.Calls.{Calls, ended, is_success}
use comcent_ce.Proxy.Calls.Recorded.{KeepsStatus}
use comcent_ce.Proxy.Fork.Relayed.{status-relayed_response, kind_success}
use comcent_ce.Proxy.Fork.{
  Branch, Report, answered, errored, nothing, withdrawn, Result, Action, replies, cancels, lapses,
  Shared, Trace, Kind, trying, provisional, declined, succeeded, refused, kind_of, better,
  cancel_branches, is_sibling, plain, relayed_response, won_call, conclude, unregister_branch,
  win_call, on_response, on_report, gather,
}

get_elem?-lt :
    (i : ℕ) (bs : List Branch) → i < length bs → (b : Branch) × (get_elem? bs i ≡ some b) × In b bs
get_elem?-lt i [] h = absurd (omega arith)
get_elem?-lt zero (b ∷ bs) h = (b, refl, inl refl)
get_elem?-lt (suc i) (b ∷ bs) h = let (c, e, m) = get_elem?-lt i bs (omega arith) in (c, e, inr m)

-- The index is that of a branch that was started. A CANCEL of FreeSWITCH has none.
abbrev IsNamed : ℕ → ℕ → Report → Type 0
IsNamed n idx (answered resp) = idx < n
IsNamed n idx errored = idx < n
IsNamed n idx nothing = idx < n
IsNamed n idx withdrawn = Unit {0}

-- The results name branches that were started.
abbrev pub NameBranches : ℕ → List Result → Type 0
NameBranches n = All (λ (r : Result). IsNamed n r.idx r.report)

module _ (sip : Sipgo) (req : Request) (id aor : Text) (contacts : List Contact) where
  -- The call is in the table, as that of one of the contacts.
  abbrev pub HasCall : Calls → Type 0
  HasCall t = (c : Contact) × In c contacts × (lookup id t.calls ≡ some (won_call sip req aor c))

  abbrev pub SentRecorded : Action → Type 0
  SentRecorded (replies t r) = (is_success r.status ≡ false) ⊎ HasCall t
  SentRecorded (cancels c) = Unit {0}
  SentRecorded (lapses a) = Unit {0}

  abbrev pub AllRecorded : List Action → Type 0
  AllRecorded = All SentRecorded

  -- The affinity is the same, every 2xx is sent with its call in the table, and an established call is
  -- there at the end.
  abbrev pub Kept : Dict (Dict Text) → Trace → Type 0
  Kept affinity (s, acts, status) =
      (s.table.affinity ≡ affinity) × AllRecorded acts × (status ≡ ended true → HasCall s.table)

  branches-Recorded :
      (chosen : ℕ → Bool) (i : ℕ) (bs : List Branch) → AllRecorded (cancel_branches chosen i bs)
  unfolding cancel_branches
  branches-Recorded chosen i [] = tt
  branches-Recorded chosen i (b ∷ bs) = ground (arith, branches-Recorded chosen (suc i) bs)

  module _ (keeps : KeepsStatus sip) where
    pub plain-Recorded :
        (t : Calls) (n : ℕ) (reason : Text)
        → is_success n ≡ false
        → SentRecorded (replies t (plain sip req n reason))
    plain-Recorded t n reason e = inl (rw (keeps req n reason []) e)

    relayed-Recorded :
        (t : Calls) (r : Response)
        → is_success r.status ≡ false
        → SentRecorded (replies t (relayed_response sip req r))
    relayed-Recorded t r e = inl (rw (status-relayed_response sip keeps req r) e)

    abbrev NoSuccess : Option Response → Type 0
    NoSuccess none = Unit {0}
    NoSuccess (some r) = is_success r.status ≡ false

    better-NoSuccess :
        (o : Option Response) (r : Response)
        → NoSuccess o
        → is_success r.status ≡ false
        → NoSuccess (some (better o r))
    unfolding better
    better-NoSuccess none r h e = e
    better-NoSuccess (some b) r h e = ground arith

    conclude-Recorded :
        (t : Calls) (o : Option Response)
        → NoSuccess o
        → SentRecorded (replies t (conclude sip req o))
    unfolding conclude
    conclude-Recorded t none h = plain-Recorded t 480 (text "Temporarily Unavailable") refl
    conclude-Recorded t (some r) h = relayed-Recorded t r h

    module _ (branches : List Branch)
        (from_contacts : (b : Branch) → In b branches → In b.contact contacts) where
      win-HasCall :
          (i : ℕ) (s : Shared)
          → i < length branches
          → HasCall (win_call sip req id aor branches i s).table
      unfolding win_call
      win-HasCall i s h =
          let (b, e, m) = get_elem?-lt i branches h in
          (
            b.contact,
            from_contacts b m,
            rw
                (
                  e,
                  win_call,
                  lookup-store id id (won_call sip req aor b.contact) s.table.calls,
                  (text_eq_iff id id).1 refl,
                )
                refl,
          )

      win-affinity :
          (i : ℕ) (s : Shared)
          → (win_call sip req id aor branches i s).table.affinity ≡ s.table.affinity
      unfolding win_call
      win-affinity i s = elim (Option-cases (get_elem? branches i)) [
        | inl e ↦ rw (e, win_call) refl
        | inr (b, e) ↦ rw (e, win_call) refl
      ]

      unregister-table :
          (i : ℕ) (s : Shared) → (unregister_branch sip req id aor branches i s).table ≡ s.table
      unfolding unregister_branch
      unregister-table i s = elim (Option-cases (get_elem? branches i)) [
        | inl e ↦ rw (e, unregister_branch) refl
        | inr (b, e) ↦ rw (e, unregister_branch) refl
      ]

      abbrev RestKeeps : (ℕ → Bool → Option Response → Shared → Trace) → Type 0
      RestKeeps rest =
          (m : ℕ) (relayed : Bool) (best : Option Response) (t : Shared)
          → NoSuccess best
          → Kept t.table.affinity (rest m relayed best t)

      response-Kept :
          (k : Kind) (n : ℕ) (relayed : Bool) (best : Option Response) (s : Shared) (r : Result)
          (resp : Response) (rest : ℕ → Bool → Option Response → Shared → Trace)
          → kind_of resp.status ≡ k
          → r.idx < length branches
          → NoSuccess best
          → RestKeeps rest
          → Kept s.table.affinity
              (on_response sip req id aor branches k n relayed best s r resp rest)
      unfolding on_response
      response-Kept trying n relayed best s r resp rest e i f h = h (suc n) relayed best s f
      response-Kept provisional n true best s r resp rest e i f h = h (suc n) true best s f
      response-Kept provisional n false best s r resp rest e i f h =
          let (a, all, c) = h (suc n) true best s f in
          (a, (relayed-Recorded s.table resp ((kind_success resp.status).1 e), all), c)
      response-Kept declined n relayed best s r resp rest e i f h = (
        refl,
        All-append SentRecorded (cancel_branches (is_sibling r) 0 branches) _
            (branches-Recorded (is_sibling r) 0 branches)
            (plain-Recorded s.table resp.status resp.reason ((kind_success resp.status).0 e), tt),
        λ g. cc,
      )
      response-Kept succeeded n relayed best s r resp rest e i f h = (
        win-affinity r.idx s,
        (inr (win-HasCall r.idx s i), branches-Recorded (is_sibling r) 0 branches),
        λ g. win-HasCall r.idx s i,
      )
      response-Kept refused n relayed best s r resp rest e i f h =
          h n relayed (some (better best resp)) s
            (better-NoSuccess best resp f ((kind_success resp.status).2 e))

      report-Kept :
          (report : Report) (n : ℕ) (relayed : Bool) (best : Option Response) (s : Shared)
          (r : Result) (rest : ℕ → Bool → Option Response → Shared → Trace)
          → IsNamed (length branches) r.idx report
          → NoSuccess best
          → RestKeeps rest
          → Kept s.table.affinity (on_report sip req id aor branches n relayed best s r report rest)
      unfolding on_report
      report-Kept errored n relayed best s r rest i f h =
          let (a, all, c) =
            h n relayed best (unregister_branch sip req id aor branches r.idx s) f in
          (a ∙ ap (λ (t : Calls). t.affinity) (unregister-table r.idx s), (tt, all), c)
      report-Kept nothing n relayed best s r rest i f h = h n relayed best s f
      report-Kept withdrawn n relayed best s r rest i f h =
          let (a, all, c) = h (suc n) relayed best s f in
          (
            a,
            All-append SentRecorded (cancel_branches r.is_open 0 branches) _
                (branches-Recorded r.is_open 0 branches) all,
            c,
          )
      report-Kept (answered resp) n relayed best s r rest i f h =
          response-Kept (kind_of resp.status) n relayed best s r resp rest refl i f h

      pub gather-Kept :
          (results : List Result) (n : ℕ) (relayed : Bool) (best : Option Response) (s : Shared)
          → NameBranches (length branches) results
          → NoSuccess best
          → Kept s.table.affinity (gather sip req id aor branches results n relayed best s)
      unfolding gather
      gather-Kept [] zero relayed best s i f =
          (refl, (conclude-Recorded s.table best f, tt), λ g. cc)
      gather-Kept (r ∷ results) zero relayed best s i f =
          (refl, (conclude-Recorded s.table best f, tt), λ g. cc)
      gather-Kept [] (suc n) relayed best s i f = (refl, tt, λ g. cc)
      gather-Kept (r ∷ results) (suc n) relayed best s i f =
          report-Kept r.report n relayed best s r (gather sip req id aor branches results) i.0 f
            (λ m relayed' best' t e. gather-Kept results m relayed' best' t i.1 e)
