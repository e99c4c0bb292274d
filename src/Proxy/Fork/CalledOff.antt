-- ===== src/Proxy/Fork/CalledOff.antt =====
-- sbc/proxy.go: which CANCELs the handler owes to what comes in for FreeSWITCH's INVITE to a user.
use comcent_ce.Common.{
  ℕ, zero, suc, ◌+◌, ◌≡◌, ◌≢◌, ◌⊎◌, ◌↔◌, refl, sym, ap, ◌∙◌, inl, inr, Bool, true, List, [], ◌∷◌,
  ◌++◌, some, arith, get_elem?, In, In-append_left, In-append_right, if◌then◌else◌, Bool-cases,
}
use mathlib.Core.Path.{subst}
use comcent_ce.Sip.{Request}
use comcent_ce.Proxy.Cancel.{cancel_request}
use comcent_ce.Proxy.Fork.{
  Branch, Report, answered, errored, nothing, withdrawn, Result, Action, replies, cancels, lapses,
  kind_of, cancel_branches, is_sibling,
}
use comcent_ce.Proxy.Fork.Ended.{is_last}
use comcent_ce.Proxy.Fork.Best.{settles, is_settling}

-- The CANCELs that were sent.
abbrev pub cancelled : List Action → List Request
cancelled [] = []
cancelled (cancels c ∷ acts) = c ∷ cancelled acts
cancelled (replies t r ∷ acts) = cancelled acts
cancelled (lapses aor ∷ acts) = cancelled acts

-- The results that the handler takes while as many branches are pending: up to the one by which a branch
-- takes the call or refuses it everywhere, or by which none is pending.
abbrev pub taken : List Result → ℕ → List Result
taken results zero = []
taken [] (suc n) = []
taken (r ∷ results) (suc n) =
    let rest = taken results (if is_last r.report then n else suc n) in
    r ∷ (if is_settling r.report then [] else rest)

-- The request is the CANCEL of a branch that is open at that result: of any branch, if FreeSWITCH has
-- cancelled the INVITE; of any but the result's own, if that takes the call or refuses it everywhere.
abbrev pub CallsOff : List Branch → Result → Request → Type 0
CallsOff branches r c =
    (i : ℕ) × (b : Branch) × (get_elem? branches i ≡ some b)
    × (r.is_open i ≡ true)
    × (c ≡ cancel_request b.request b.request.transport)
    × ((r.report ≡ withdrawn) ⊎ ((is_settling r.report ≡ true) × (i ≢ r.idx)))

pub cancelled-append : (xs ys : List Action) → cancelled (xs ++ ys) ≡ cancelled xs ++ cancelled ys
cancelled-append [] ys = refl
cancelled-append (cancels c ∷ xs) ys = ap (λ (l : List Request). c ∷ l) (cancelled-append xs ys)
cancelled-append (replies t r ∷ xs) ys = cancelled-append xs ys
cancelled-append (lapses aor ∷ xs) ys = cancelled-append xs ys

pub append-nil : (l : List Request) → l ++ [] ≡ l
append-nil [] = refl
append-nil (c ∷ l) = ap (λ (t : List Request). c ∷ t) (append-nil l)

-- The branches that are chosen, counted from `k` on.
abbrev ChosenFrom : (ℕ → Bool) → ℕ → List Branch → Request → Type 0
ChosenFrom chosen k branches c =
    (i : ℕ) × (b : Branch) × (get_elem? branches i ≡ some b)
    × (chosen (i + k) ≡ true)
    × (c ≡ cancel_request b.request b.request.transport)

shift_index : (i k : ℕ) → i + suc k ≡ suc i + k
shift_index i k = omega arith

add_zero : (i : ℕ) → i + 0 ≡ i
add_zero i = omega arith

ChosenFrom-behind :
    (chosen : ℕ → Bool) (k : ℕ) (b : Branch) (bs : List Branch) (c : Request)
    → ChosenFrom chosen (suc k) bs c
    → ChosenFrom chosen k (b ∷ bs) c
ChosenFrom-behind chosen k b bs c (i, b', at_i, picked, same) =
    (suc i, b', at_i, ap chosen (sym (shift_index i k)) ∙ picked, same)

branches-ChosenFrom :
    (chosen : ℕ → Bool) (k : ℕ) (bs : List Branch) (c : Request)
    → In c (cancelled (cancel_branches chosen k bs))
    → ChosenFrom chosen k bs c
unfolding cancel_branches
branches-ChosenFrom chosen k [] c m = absurd m
branches-ChosenFrom chosen k (b ∷ bs) c m = elim (Bool-cases (chosen k)) [
  | inl e ↦ elim (rw e at m) [
    | inl same ↦ (0, b, refl, ground arith, same)
    | inr m' ↦ ChosenFrom-behind chosen k b bs c (branches-ChosenFrom chosen (suc k) bs c m')
  ]
  | inr e ↦ ChosenFrom-behind chosen k b bs c (branches-ChosenFrom chosen (suc k) bs c (rw e at m))
]

In-branches :
    (chosen : ℕ → Bool) (k i : ℕ) (b : Branch) (bs : List Branch)
    → get_elem? bs i ≡ some b
    → chosen (i + k) ≡ true
    → In (cancel_request b.request b.request.transport) (cancelled (cancel_branches chosen k bs))
unfolding cancel_branches
In-branches chosen k i b [] at_i picked = cc
In-branches chosen k zero b (b' ∷ bs) at_i picked =
    let sent : chosen k ≡ true = ground arith in
    let same : b ≡ b' = cc in
    rw sent (inl (ap (λ (x : Branch). cancel_request x.request x.request.transport) same))
In-branches chosen k (suc i) b (b' ∷ bs) at_i picked =
    let found = In-branches chosen (suc k) i b bs at_i (ap chosen (shift_index i k) ∙ picked) in
    elim (Bool-cases (chosen k)) [ inl e ↦ rw e (inr found) | inr e ↦ rw e found ]

-- The CANCELs of the branches that are chosen.
abbrev pub of_branches : (ℕ → Bool) → List Branch → List Request
of_branches chosen branches = cancelled (cancel_branches chosen 0 branches)

of_branches_iff :
    (chosen : ℕ → Bool) (branches : List Branch) (c : Request)
    → In c (of_branches chosen branches) ↔ (
        (i : ℕ) × (b : Branch) × (get_elem? branches i ≡ some b)
        × (chosen i ≡ true)
        × (c ≡ cancel_request b.request b.request.transport))
of_branches_iff chosen branches c = (
  (λ m.
      let (i, b, at_i, picked, same) = branches-ChosenFrom chosen 0 branches c m in
      (i, b, at_i, ap chosen (sym (add_zero i)) ∙ picked, same)),
  (λ (i, b, at_i, picked, same).
      rw same (In-branches chosen 0 i b branches at_i (ap chosen (add_zero i) ∙ picked))),
)

-- The CANCELs at one result, and at all.
abbrev pub at_report : List Branch → Result → Report → List Request
at_report branches r withdrawn = of_branches r.is_open branches
at_report branches r (answered resp) =
    if is_settling (answered resp) then of_branches (is_sibling r) branches else []
at_report branches r errored = []
at_report branches r nothing = []

abbrev pub off : List Branch → List Result → List Request
off branches [] = []
off branches (r ∷ results) = at_report branches r r.report ++ off branches results

-- CallsOff at a report.
abbrev At : List Branch → Result → Report → Request → Type 0
At branches r report c =
    (i : ℕ) × (b : Branch) × (get_elem? branches i ≡ some b)
    × (r.is_open i ≡ true)
    × (c ≡ cancel_request b.request b.request.transport)
    × ((report ≡ withdrawn) ⊎ ((is_settling report ≡ true) × (i ≢ r.idx)))

at_report_iff :
    (branches : List Branch) (r : Result) (report : Report) (c : Request)
    → In c (at_report branches r report) ↔ At branches r report c
unfolding is_sibling
at_report_iff branches r withdrawn c = (
  (λ m.
      let (i, b, at_i, picked, same) = (of_branches_iff r.is_open branches c).0 m in
      (i, b, at_i, picked, same, inl refl)),
  (λ (i, b, at_i, picked, same, why).
      (of_branches_iff r.is_open branches c).1 (i, b, at_i, picked, same)),
)
at_report_iff branches r (answered resp) c = elim (Bool-cases (settles (kind_of resp.status))) [
  | inl e ↦ rw e (
    (λ m.
        let (i, b, at_i, picked, same) = (of_branches_iff (is_sibling r) branches c).0 m in
        (i, b, at_i, ground arith, same, inr (refl, λ q. ground arith))),
    (λ (i, b, at_i, picked, same, why). elim why [
      | inl w ↦ cc
      | inr (s, other) ↦
          (of_branches_iff (is_sibling r) branches c).1 (i, b, at_i, ground arith, same)
    ]),
  )
  | inr e ↦ rw e (
    (λ m. absurd m),
    (λ (i, b, at_i, picked, same, why). elim why [ inl w ↦ cc | inr (s, other) ↦ cc ]),
  )
]
at_report_iff branches r errored c = (
  (λ m. absurd m),
  (λ (i, b, at_i, picked, same, why). elim why [ inl w ↦ cc | inr (s, other) ↦ cc ]),
)
at_report_iff branches r nothing c = (
  (λ m. absurd m),
  (λ (i, b, at_i, picked, same, why). elim why [ inl w ↦ cc | inr (s, other) ↦ cc ]),
)

In-append_cases : (c : Request) (xs ys : List Request) → In c (xs ++ ys) → In c xs ⊎ In c ys
In-append_cases c [] ys m = inr m
In-append_cases c (x ∷ xs) ys (inl e) = inl (inl e)
In-append_cases c (x ∷ xs) ys (inr m) = elim (In-append_cases c xs ys m) [
  | inl a ↦ inl (inr a)
  | inr b ↦ inr b
]

pub off_iff :
    (branches : List Branch) (results : List Result) (c : Request)
    → In c (off branches results) ↔ ((r : Result) × In r results × CallsOff branches r c)
off_iff branches [] c = ((λ m. absurd m), (λ (r, m, why). absurd m))
off_iff branches (r ∷ results) c = (
  (λ m. elim (In-append_cases c (at_report branches r r.report) (off branches results) m) [
    | inl a ↦ (r, inl refl, (at_report_iff branches r r.report c).0 a)
    | inr b ↦ let (q, at_q, why) = (off_iff branches results c).0 b in (q, inr at_q, why)
  ]),
  (λ (q, at_q, why). elim at_q [
    | inl same ↦ In-append_left c (at_report branches r r.report) (off branches results) (
        (at_report_iff branches r r.report c).1
          (subst (λ (x : Result). CallsOff branches x c) same why))
    | inr m ↦
        In-append_right c (at_report branches r r.report) (off branches results)
          ((off_iff branches results c).1 (q, m, why))
  ]),
)
