-- ===== src/Proxy/Fork/Best.antt =====
-- sbc/proxy.go: the response that FreeSWITCH gets when no contact takes the call.
use comcent_ce.Common.{
  ℕ, zero, suc, ◌≡◌, ◌≤◌, ◌⊎◌, ◌∙◌, refl, sym, ap, inl, inr, Bool, true, false, List, [], ◌∷◌, ◌++◌,
  Option, none, some, arith, Text, text, length, leb, ltb, In, All, if◌then◌else◌, Bool-cases,
}
use comcent_ce.Sip.{Sipgo, Request, Response}
use comcent_ce.Contact.Targets.{is_webrtc_sdp}
use comcent_ce.Registrar.{lookup_by_type}
use comcent_ce.Registrar.Contacts.{Contact}
use comcent_ce.Forward.{Ports}
use comcent_ce.Forward.Route.{RouteConfig}
use comcent_ce.Proxy.Calls.{waiting, ended}
use comcent_ce.Proxy.Fork.{
  Branch, Report, answered, errored, nothing, withdrawn, Result, Action, replies, cancels, lapses,
  Shared, Trace, before_all, cancel_branches, Kind, trying, provisional, declined, succeeded,
  refused, kind_of, better, plain, relayed_response, conclude, on_response, on_report, gather,
  leave, prepare, saved, fork, fork_contacts, invite_to_user,
}
use comcent_ce.Proxy.Fork.Relayed.{kind_final}
use comcent_ce.Proxy.Fork.Ended.{is_last, last_reports}

-- The response takes the call or refuses it everywhere.
abbrev pub settles : Kind → Bool
settles declined = true
settles succeeded = true
settles _ = false

abbrev pub is_settling : Report → Bool
is_settling (answered resp) = settles (kind_of resp.status)
is_settling errored = false
is_settling nothing = false
is_settling withdrawn = false

abbrev pub refusal : Kind → Response → List Response
refusal refused resp = resp ∷ []
refusal _ resp = []

abbrev refusal_of : Report → List Response
refusal_of (answered resp) = refusal (kind_of resp.status) resp
refusal_of errored = []
refusal_of nothing = []
refusal_of withdrawn = []

-- The final responses by which single branches refuse the call.
abbrev pub refusals : List Result → List Response
refusals [] = []
refusals (r ∷ results) = refusal_of r.report ++ refusals results

abbrev pub NoneSettles : List Result → Type 0
NoneSettles = All (λ (r : Result). is_settling r.report ≡ false)

-- One of the responses, with the least status; or none, of none.
abbrev pub IsBest : Option Response → List Response → Type 0
IsBest none l = l ≡ []
IsBest (some b) l = In b l × All (λ (r : Response). b.status ≤ r.status) l

abbrev or_first : Response → Option Response → Option Response
or_first r none = some r
or_first r (some later) = some later

abbrev last_reply : List Action → Option Response
last_reply [] = none
last_reply (replies t r ∷ acts) = or_first r (last_reply acts)
last_reply (cancels c ∷ acts) = last_reply acts
last_reply (lapses aor ∷ acts) = last_reply acts

last-branches :
    (chosen : ℕ → Bool) (i : ℕ) (bs : List Branch) (acts : List Action)
    → last_reply (cancel_branches chosen i bs ++ acts) ≡ last_reply acts
unfolding cancel_branches
last-branches chosen i [] acts = refl
last-branches chosen i (b ∷ bs) acts = ground (arith, last-branches chosen (suc i) bs acts)

-- bestFinal after more final responses.
best_from : Option Response → List Response → Option Response
best_from o [] = o
best_from o (r ∷ rs) = best_from (some (better o r)) rs

-- The response that is kept is `b` or one of the list, and none has a smaller status.
abbrev Beats : Response → List Response → Response → Type 0
Beats b l c =
    ((c ≡ b) ⊎ In c l) × (c.status ≤ b.status) × All (λ (r : Response). c.status ≤ r.status) l

best_from-some :
    (b : Response) (l : List Response)
    → (c : Response) × (best_from (some b) l ≡ some c) × Beats b l c
unfolding best_from better
best_from-some b [] = (b, refl, (inl refl, omega arith, tt))
best_from-some b (r ∷ l) = elim (Bool-cases (ltb r.status b.status)) [
  | inl e ↦
      let (c, same, (found, le, all)) = best_from-some r l in
      (c, rw e same, (inr found, ground arith, (le, all)))
  | inr e ↦
      let (c, same, (found, le, all)) = best_from-some b l in
      (c, rw e same, (later b r l c found, le, (ground arith, all)))
]
  where
    later :
        (b r : Response) (l : List Response) (c : Response)
        → (c ≡ b) ⊎ In c l
        → (c ≡ b) ⊎ In c (r ∷ l)
    later b r l c (inl e) = inl e
    later b r l c (inr m) = inr (inr m)

best_from-IsBest : (l : List Response) → IsBest (best_from none l) l
unfolding best_from better
best_from-IsBest [] = refl
best_from-IsBest (r ∷ l) =
    let (c, same, (found, le, all)) = best_from-some r l in rw same (found, (le, all))

quiet_kind :
    (k : Kind) (resp : Response)
    → kind_of resp.status ≡ k
    → leb 200 resp.status ≡ false
    → refusal k resp ≡ []
quiet_kind trying resp e f = refl
quiet_kind provisional resp e f = refl
quiet_kind declined resp e f = refl
quiet_kind succeeded resp e f = refl
quiet_kind refused resp e f = cc ((kind_final resp.status).4 e)

quiet_report : (report : Report) → is_last report ≡ false → refusal_of report ≡ []
quiet_report (answered resp) f = quiet_kind (kind_of resp.status) resp refl f
quiet_report errored f = refl
quiet_report nothing f = refl
quiet_report withdrawn f = refl

no_refusals : (results : List Result) → last_reports results ≡ 0 → refusals results ≡ []
no_refusals [] e = refl
no_refusals (r ∷ results) e = elim (Bool-cases (is_last r.report)) [
  | inl f ↦ absurd (ground arith)
  | inr f ↦ rw (quiet_report r.report f) (no_refusals results (ground arith))
]

module _ (sip : Sipgo) (req : Request) (id aor : Text) where
  -- The handler has returned without a call, and its last response is that one.
  abbrev pub ConcludesWith : Option Response → Trace → Type 0
  ConcludesWith o t = (last_reply t.1 ≡ some (conclude sip req o)) × (t.2 ≡ ended false)

  module _ (branches : List Branch) where
    abbrev RestConcludes : List Result → (ℕ → Bool → Option Response → Shared → Trace) → Type 0
    RestConcludes results rest =
        (m : ℕ) (relayed : Bool) (best : Option Response) (t : Shared)
        → m ≡ last_reports results
        → ConcludesWith (best_from best (refusals results)) (rest m relayed best t)

    -- CANCELs before them are no responses.
    before_all-Concludes :
        (chosen : ℕ → Bool) (i : ℕ) (bs : List Branch) (o : Option Response) (t : Trace)
        → ConcludesWith o t
        → ConcludesWith o (before_all (cancel_branches chosen i bs) t)
    before_all-Concludes chosen i bs o (s, rest, status) (a, b) =
        (last-branches chosen i bs rest ∙ a, b)

    response-Concludes :
        (k : Kind) (n : ℕ) (relayed : Bool) (best : Option Response) (s : Shared) (r : Result)
        (resp : Response) (results : List Result)
        (rest : ℕ → Bool → Option Response → Shared → Trace)
        → kind_of resp.status ≡ k
        → settles k ≡ false
        → suc n ≡ (if leb 200 resp.status then suc (last_reports results) else last_reports results)
        → RestConcludes results rest
        → ConcludesWith
            (best_from best (refusal k resp ++ refusals results))
            (on_response sip req id aor branches k n relayed best s r resp rest)
    unfolding on_response best_from
    response-Concludes trying n relayed best s r resp results rest e f l h =
        h (suc n) relayed best s (ground (arith, (kind_final resp.status).0 e))
    response-Concludes provisional n true best s r resp results rest e f l h =
        h (suc n) true best s (ground (arith, (kind_final resp.status).1 e))
    response-Concludes provisional n false best s r resp results rest e f l h =
        let (a, b) = h (suc n) true best s (ground (arith, (kind_final resp.status).1 e)) in
        (ap (or_first (relayed_response sip req resp)) a, b)
    response-Concludes declined n relayed best s r resp results rest e f l h = cc
    response-Concludes succeeded n relayed best s r resp results rest e f l h = cc
    response-Concludes refused n relayed best s r resp results rest e f l h =
        h n relayed (some (better best resp)) s (ground (arith, (kind_final resp.status).4 e))

    report-Concludes :
        (report : Report) (n : ℕ) (relayed : Bool) (best : Option Response) (s : Shared)
        (r : Result) (results : List Result) (rest : ℕ → Bool → Option Response → Shared → Trace)
        → is_settling report ≡ false
        → suc n ≡ (if is_last report then suc (last_reports results) else last_reports results)
        → RestConcludes results rest
        → ConcludesWith
            (best_from best (refusal_of report ++ refusals results))
            (on_report sip req id aor branches n relayed best s r report rest)
    unfolding on_report
    report-Concludes errored n relayed best s r results rest f l h =
        h n relayed best _ (omega arith)
    report-Concludes withdrawn n relayed best s r results rest f l h =
        before_all-Concludes r.is_open 0 branches _ (rest (suc n) relayed best s)
          (h (suc n) relayed best s (omega arith))
    report-Concludes nothing n relayed best s r results rest f l h =
        h n relayed best s (omega arith)
    report-Concludes (answered resp) n relayed best s r results rest f l h =
        response-Concludes (kind_of resp.status) n relayed best s r resp results rest refl f l h

    gather-Concludes :
        (results : List Result) (n : ℕ) (relayed : Bool) (best : Option Response) (s : Shared)
        → n ≡ last_reports results
        → NoneSettles results
        → ConcludesWith
            (best_from best (refusals results))
            (gather sip req id aor branches results n relayed best s)
    unfolding gather best_from
    gather-Concludes [] zero relayed best s l f = (refl, refl)
    gather-Concludes (r ∷ results) zero relayed best s l f =
        rw (no_refusals (r ∷ results) (sym l)) (refl, refl)
    gather-Concludes [] (suc n) relayed best s l f = absurd (omega arith)
    gather-Concludes (r ∷ results) (suc n) relayed best s l f =
        report-Concludes r.report n relayed best s r results
          (gather sip req id aor branches results) f.0 l
          (λ m relayed' best' t e. gather-Concludes results m relayed' best' t e f.1)

    leave-Concludes :
        (o : Option Response) (t : Trace)
        → ConcludesWith o t
        → ConcludesWith o (leave sip req id aor branches t)
    unfolding leave
    leave-Concludes o (s, acts, waiting) h = h
    leave-Concludes o (s, acts, ended b) h = h

  fork-Concludes :
      (bs : List Branch) (results : List Result) (s : Shared)
      → length bs ≡ last_reports results
      → NoneSettles results
      → ConcludesWith (best_from none (refusals results)) (fork sip req id aor bs results s)
  unfolding fork conclude best_from
  fork-Concludes [] results s l f = rw (no_refusals results (sym l)) (refl, refl)
  fork-Concludes (b ∷ bs) results s l f =
      leave-Concludes (b ∷ bs) _ _
        (gather-Concludes (b ∷ bs) results (suc (length bs)) false none _ l f)

  contacts-Concludes :
      (cfg : RouteConfig) (ports : Ports) (user domain : Text) (cs : List Contact)
      (results : List Result) (s : Shared)
      → length (prepare sip req cfg ports user domain cs) ≡ last_reports results
      → NoneSettles results
      → ConcludesWith
          (best_from none (refusals results))
          (fork_contacts sip req id aor cfg ports user domain cs results s)
  unfolding fork_contacts prepare conclude best_from
  contacts-Concludes cfg ports user domain [] results s l f =
      rw (no_refusals results (sym l)) (refl, refl)
  contacts-Concludes cfg ports user domain (c ∷ cs) results s l f =
      let (a, b) =
        fork-Concludes (prepare sip req cfg ports user domain (c ∷ cs)) results
          (saved sip req id aor s) l f in
      (ap (or_first (plain sip req 100 (text "Trying"))) a, b)

-- When each branch has reported a last time and none of them has taken the call or refused it for all,
-- the handler has returned without a call, and its last response is one of the branches' final responses
-- relayed, one with the least status; or it is a 480, where every branch ended in an error.
pub invite_to_user-ConcludesWith :
    (sip : Sipgo) (cfg : RouteConfig) (ports : Ports) (now : ℕ) (req : Request)
    (id user domain : Text) (results : List Result) (s : Shared)
    → length (
        prepare sip req cfg ports user domain
          (lookup_by_type s.reg now (user ++ (b'@' ∷ domain)) (is_webrtc_sdp req.body)))
      ≡ last_reports results
    → NoneSettles results
    → (o : Option Response) × IsBest o (refusals results)
      × ConcludesWith sip req id
          (user ++ (b'@' ∷ domain))
          o
          (invite_to_user sip cfg ports now req id user domain results s)
unfolding invite_to_user
invite_to_user-ConcludesWith sip cfg ports now req id user domain results s l f = (
  best_from none (refusals results),
  best_from-IsBest (refusals results),
  contacts-Concludes sip req id (user ++ (b'@' ∷ domain)) cfg ports user domain
      (lookup_by_type s.reg now (user ++ (b'@' ∷ domain)) (is_webrtc_sdp req.body)) results s l f,
)
