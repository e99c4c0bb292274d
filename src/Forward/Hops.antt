-- ===== src/Forward/Hops.antt =====
-- sbc/proxy.go: the hop limit of forwarded requests, and what a forwarded request keeps.
use comcent_ce.Common.{
  ℕ, zero, suc, ◌≡◌, ◌↔◌, refl, sym, ap, ◌∙◌, true, false, List, [], ◌∷◌, ◌++◌, Option, none, some,
  arith, Text, text_eq, leb, append_assoc, Option-cases, inl, inr,
}
use mathlib.Core.Option.{none-ne-some, some-injective}
use mathlib.Core.Bool.{true≢false}
use comcent_ce.Go.Strings.{to_lower}
use comcent_ce.Sip.{
  Uri, Header, Request, Sipgo, max_forwards_header, generic_header, max_forwards, from_address,
  to_address, call_id, cseq_number, first, pick_from, pick_to, pick_call_id, pick_cseq,
}
use comcent_ce.Forward.Route.{RouteConfig}
use comcent_ce.Forward.{
  copy_header, copy_headers, next_hops, build_forward, build_in_dialog, too_many_hops,
}

first-cons {ℓ} :
    {A : Type ℓ} (pick : Header → Option A) (h : Header) (xs ys : List Header)
    → first pick xs ≡ first pick ys
    → first pick (h ∷ xs) ≡ first pick (h ∷ ys)
unfolding first
first-cons pick h xs ys e = ground (arith, e)

module _ (sip : Sipgo) (cfg : RouteConfig) (keep_hop : Text) where
  abbrev copied : List Header → List Header
  copied = copy_headers sip cfg keep_hop

  -- The copy of a header is read like the header.
  abbrev Keeps {ℓ} : {A : Type ℓ} → (Header → Option A) → Type ℓ
  Keeps pick =
      (h : Header) (tail : List Header)
      → first pick (copy_header sip cfg keep_hop h ++ tail) ≡ first pick (h ∷ tail)

  first-copy {ℓ} :
      {A : Type ℓ} (pick : Header → Option A) (hs tail : List Header)
      → Keeps pick
      → first pick (copied hs ++ tail) ≡ first pick (hs ++ tail)
  unfolding copy_headers
  first-copy pick [] tail k = refl
  first-copy pick (h ∷ hs) tail k =
      ap (first pick) (append_assoc (copy_header sip cfg keep_hop h) (copied hs) tail)
      ∙ k h (copied hs ++ tail)
      ∙ first-cons pick h (copied hs ++ tail) (hs ++ tail) (first-copy pick hs tail k)

  from-copy : Keeps pick_from
  unfolding copy_header first to_lower text_eq
  from-copy (generic_header n v) tail = ground arith
  from-copy _ tail = refl

  to-copy : Keeps pick_to
  unfolding copy_header first to_lower text_eq
  to-copy (generic_header n v) tail = ground arith
  to-copy _ tail = refl

  call_id-copy : Keeps pick_call_id
  unfolding copy_header first to_lower text_eq
  call_id-copy (generic_header n v) tail = ground arith
  call_id-copy _ tail = refl

  cseq-copy : Keeps pick_cseq
  unfolding copy_header first to_lower text_eq
  cseq-copy (generic_header n v) tail = ground arith
  cseq-copy _ tail = refl

  max_forwards-copy :
      (h : Header) (tail : List Header)
      → max_forwards (copy_header sip cfg keep_hop h ++ tail) ≡ max_forwards tail
  unfolding copy_header first to_lower text_eq
  max_forwards-copy (generic_header n v) tail = ground arith
  max_forwards-copy _ tail = refl

  max_forwards-copy_all :
      (hs tail : List Header) → max_forwards (copied hs ++ tail) ≡ max_forwards tail
  unfolding copy_headers
  max_forwards-copy_all [] tail = refl
  max_forwards-copy_all (h ∷ hs) tail =
      ap max_forwards (append_assoc (copy_header sip cfg keep_hop h) (copied hs) tail)
      ∙ max_forwards-copy h (copied hs ++ tail)
      ∙ max_forwards-copy_all hs tail

first-append {ℓ} :
    {A : Type ℓ} (pick : Header → Option A) (hs : List Header) (h : Header)
    → pick h ≡ none
    → first pick (hs ++ h ∷ []) ≡ first pick hs
unfolding first
first-append pick [] h e = rw e
first-append pick (x ∷ hs) h e = ground (arith, first-append pick hs h e)

module _ (sip : Sipgo) (cfg : RouteConfig) (keep_hop : Text) (req : Request) (uri : Uri) where
  -- The request that is sent on, for a hop limit.
  forwarded : ℕ → Request
  forwarded mf = record {
    method = req.method;
    recipient = uri;
    headers = copy_headers sip cfg keep_hop req.headers ++ max_forwards_header mf ∷ [];
    body = req.body;
    source = [];
    destination = [];
    transport = [];
  }

  built : Option ℕ → Option Request
  unfolding forwarded
  built none = none
  built (some mf) = some (forwarded mf)

  build_forward-built :
      build_forward sip cfg req uri keep_hop ≡ built (next_hops (max_forwards req.headers))
  unfolding build_forward built
  build_forward-built = ground arith

  built-none :
      (o : Option ℕ)
      → (built (next_hops o) ≡ none) ↔ (elim o [ none ↦ false | some n ↦ leb n 0 ] ≡ true)
  unfolding built next_hops
  built-none none = ground arith
  built-none (some zero) = ground arith
  built-none (some (suc n)) = ground arith

  -- `fwd` is the request that is sent on for the request.
  abbrev SentOn : Request → Type 0
  SentOn fwd = build_forward sip cfg req uri keep_hop ≡ some fwd

  built_cases :
      (fwd : Request)
      → SentOn fwd
      → (mf : ℕ) × (next_hops (max_forwards req.headers) ≡ some mf) × (fwd ≡ forwarded mf)
  unfolding built
  built_cases fwd e = go (next_hops (max_forwards req.headers)) refl (sym build_forward-built ∙ e)
    where
      go :
          (o : Option ℕ)
          → next_hops (max_forwards req.headers) ≡ o
          → built o ≡ some fwd
          → (mf : ℕ) × (next_hops (max_forwards req.headers) ≡ some mf) × (fwd ≡ forwarded mf)
      go none n b = absurd (none-ne-some fwd b)
      go (some mf) n b = (mf, n, sym (some-injective _ _ b))

  -- A request that is sent on has its hop limit counted down, or 70 where it had none.
  pub max_forwards-build_forward :
      (fwd : Request) → SentOn fwd → max_forwards fwd.headers ≡ next_hops (max_forwards req.headers)
  unfolding forwarded first
  max_forwards-build_forward fwd e =
      let (mf, n, q) = built_cases fwd e in
      ap (λ (r : Request). max_forwards r.headers) q
      ∙ max_forwards-copy_all sip cfg keep_hop req.headers (max_forwards_header mf ∷ [])
      ∙ sym n

  kept {ℓ} :
      {A : Type ℓ} (pick : Header → Option A)
      → Keeps sip cfg keep_hop pick
      → ((mf : ℕ) → pick (max_forwards_header mf) ≡ none)
      → (mf : ℕ) → first pick (forwarded mf).headers ≡ first pick req.headers
  unfolding forwarded
  kept pick k m mf =
      first-copy sip cfg keep_hop pick req.headers (max_forwards_header mf ∷ []) k
      ∙ first-append pick req.headers (max_forwards_header mf) (m mf)

  -- A request that is sent on has the method, the body and the dialog of the original: the From and To
  -- with their tags, the Call-ID and the number of the CSeq.
  pub build_forward-dialog :
      (fwd : Request)
      → SentOn fwd
      → (fwd.method ≡ req.method)
        × (fwd.body ≡ req.body)
        × (from_address fwd.headers ≡ from_address req.headers)
        × (to_address fwd.headers ≡ to_address req.headers)
        × (call_id fwd.headers ≡ call_id req.headers)
        × (cseq_number fwd.headers ≡ cseq_number req.headers)
  build_forward-dialog fwd e =
      let (mf, n, q) = built_cases fwd e in
      (
        unfold forwarded in ap (λ (r : Request). r.method) q,
        unfold forwarded in ap (λ (r : Request). r.body) q,
        ap (λ (r : Request). from_address r.headers) q
            ∙ kept pick_from (from-copy sip cfg keep_hop) (λ _. refl) mf,
        ap (λ (r : Request). to_address r.headers) q
            ∙ kept pick_to (to-copy sip cfg keep_hop) (λ _. refl) mf,
        ap (λ (r : Request). call_id r.headers) q
            ∙ kept pick_call_id (call_id-copy sip cfg keep_hop) (λ _. refl) mf,
        ap (λ (r : Request). cseq_number r.headers) q
            ∙ kept pick_cseq (cseq-copy sip cfg keep_hop) (λ _. refl) mf,
      )

  -- A request is not sent on exactly when its hop limit is 0, which is when `tooManyHops` says so.
  pub build_forward-none :
      (build_forward sip cfg req uri keep_hop ≡ none) ↔ (too_many_hops req ≡ true)
  unfolding too_many_hops
  build_forward-none = rw build_forward-built (built-none (max_forwards req.headers))

build_forward_sent :
    (sip : Sipgo) (cfg : RouteConfig) (keep_hop : Text) (req : Request) (uri : Uri)
    → too_many_hops req ≡ false
    → (fwd : Request) × (build_forward sip cfg req uri keep_hop ≡ some fwd)
build_forward_sent sip cfg keep_hop req uri h =
    elim (Option-cases (build_forward sip cfg req uri keep_hop)) [
      | inl e ↦ absurd (true≢false (sym ((build_forward-none sip cfg keep_hop req uri).0 e) ∙ h))
      | inr (fwd, e) ↦ (fwd, e)
    ]

-- A request in a dialog is sent on, unless its hop limit is used up.
pub build_in_dialog_sent :
    (sip : Sipgo) (cfg : RouteConfig) (req : Request) (raw_target keep_hop : Text)
    → too_many_hops req ≡ false
    → (fwd : Request) × (build_in_dialog sip cfg req raw_target keep_hop ≡ some fwd)
unfolding build_in_dialog
build_in_dialog_sent sip cfg req raw_target keep_hop h = build_forward_sent sip cfg keep_hop req _ h

-- No destination is set on what was built.
pub destination-build_in_dialog :
    (sip : Sipgo) (cfg : RouteConfig) (req : Request) (raw_target keep_hop : Text) (fwd : Request)
    → build_in_dialog sip cfg req raw_target keep_hop ≡ some fwd
    → fwd.destination ≡ []
unfolding build_in_dialog build_forward
destination-build_in_dialog sip cfg req raw_target keep_hop fwd e = ground arith

-- What was built for a request in a dialog has its CSeq number.
pub cseq-build_in_dialog :
    (sip : Sipgo) (cfg : RouteConfig) (req : Request) (raw_target keep_hop : Text) (fwd : Request)
    → build_in_dialog sip cfg req raw_target keep_hop ≡ some fwd
    → cseq_number fwd.headers ≡ cseq_number req.headers
unfolding build_in_dialog
cseq-build_in_dialog sip cfg req raw_target keep_hop fwd e =
    (build_forward-dialog sip cfg keep_hop req _ fwd e).5
