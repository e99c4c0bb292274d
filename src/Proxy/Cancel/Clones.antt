-- ===== src/Proxy/Cancel/Clones.antt =====
-- sbc/proxy.go: what is read from headers that cancelOutgoing has cloned.
use comcent_ce.Common.{
  ℕ, ◌≡◌, ◌⊎◌, refl, inl, inr, Bool, true, false, List, [], ◌∷◌, ◌++◌, Option, none, some, arith,
  Text, text, text_eq, text_eq_iff, keep, if◌then◌else◌, Bool-cases,
}
use comcent_ce.Go.Strings.{to_lower}
use comcent_ce.Sip.{
  Header, name, from_header, to_header, call_id_header, cseq_header, Address, first, pick_from,
  pick_to, pick_call_id, pick_cseq,
}
use comcent_ce.Forward.{named}
use comcent_ce.Proxy.Cancel.{clone_first, is_from, is_to, is_call_id}

abbrev pub pick_via : Header → Option Header
pick_via h = if named (text "via") h then some h else none

abbrev pub routes : List Header → List Header
routes = keep (named (text "route"))

module _ {A : Type 0} (pick : Header → Option A) where
  -- The headers of one kind are not read.
  abbrev pub Skips : (Header → Bool) → Type 0
  Skips p = (h : Header) → p h ≡ true → pick h ≡ none

  -- The headers of one kind are those that are read.
  abbrev Owns : (Header → Bool) → Type 0
  Owns p =
      (h : Header)
      → ((p h ≡ true) × (a : A) × (pick h ≡ some a)) ⊎ ((p h ≡ false) × (pick h ≡ none))

  pub first-clone_skipped :
      (p : Header → Bool) (hs rest : List Header)
      → Skips p
      → first pick (clone_first p hs ++ rest) ≡ first pick rest
  unfolding clone_first first
  first-clone_skipped p [] rest k = refl
  first-clone_skipped p (h ∷ hs) rest k = elim (Bool-cases (p h)) [
    | inl e ↦ rw (e, k h e) refl
    | inr e ↦ rw e (first-clone_skipped p hs rest k)
  ]

  pub first-keep_skipped :
      (p : Header → Bool) (hs : List Header) → Skips p → first pick (keep p hs) ≡ none
  unfolding first
  first-keep_skipped p [] k = refl
  first-keep_skipped p (h ∷ hs) k = elim (Bool-cases (p h)) [
    | inl e ↦ rw (e, k h e) (first-keep_skipped p hs k)
    | inr e ↦ rw e (first-keep_skipped p hs k)
  ]

  pub first-clone :
      (p : Header → Bool) (hs rest : List Header)
      → Owns p
      → first pick rest ≡ none
      → first pick (clone_first p hs ++ rest) ≡ first pick hs
  unfolding clone_first first
  first-clone p [] rest o e = e
  first-clone p (h ∷ hs) rest o e = elim (o h) [
    | inl (q, a, f) ↦ rw (q, f, first) refl
    | inr (q, f) ↦ rw (q, f, first) (first-clone p hs rest o e)
  ]

pub keep-clone :
    (p q : Header → Bool) (hs rest : List Header)
    → ((h : Header) → q h ≡ true → p h ≡ false)
    → keep p (clone_first q hs ++ rest) ≡ keep p rest
unfolding clone_first
keep-clone p q [] rest k = refl
keep-clone p q (h ∷ hs) rest k = elim (Bool-cases (q h)) [
  | inl e ↦ rw (e, k h e) refl
  | inr e ↦ rw e (keep-clone p q hs rest k)
]

pub other_name :
    (n m : Text) (h : Header) → text_eq n m ≡ false → named n h ≡ true → named m h ≡ false
other_name n m h e f =
    ground
      (arith, text_eq_iff (to_lower (name h)) n, text_eq_iff (to_lower (name h)) m, text_eq_iff n m)

module _ (p : Header → Bool) where
  pub skip_from : ((a : Address) → p (from_header a) ≡ false) → Skips pick_from p
  skip_from f (from_header a) e = cc (f a)
  skip_from f _ e = refl

  pub skip_to : ((a : Address) → p (to_header a) ≡ false) → Skips pick_to p
  skip_to f (to_header a) e = cc (f a)
  skip_to f _ e = refl

  pub skip_call_id : ((id : Text) → p (call_id_header id) ≡ false) → Skips pick_call_id p
  skip_call_id f (call_id_header id) e = cc (f id)
  skip_call_id f _ e = refl

  pub skip_cseq : ((n : ℕ) (m : Text) → p (cseq_header n m) ≡ false) → Skips pick_cseq p
  skip_cseq f (cseq_header n m) e = cc (f n m)
  skip_cseq f _ e = refl

  pub skip_via : ((h : Header) → p h ≡ true → named (text "via") h ≡ false) → Skips pick_via p
  skip_via f h e = rw (f h e) refl

pub own_from : Owns pick_from is_from
own_from (from_header a) = inl (refl, a, refl)
own_from _ = inr (refl, refl)

pub own_to : Owns pick_to is_to
own_to (to_header a) = inl (refl, a, refl)
own_to _ = inr (refl, refl)

pub own_call_id : Owns pick_call_id is_call_id
own_call_id (call_id_header id) = inl (refl, id, refl)
own_call_id _ = inr (refl, refl)

pub own_via : Owns pick_via (named (text "via"))
own_via h = elim (Bool-cases (named (text "via") h)) [
  | inl e ↦ inl (e, h, rw e refl)
  | inr e ↦ inr (e, rw e refl)
]

-- A header of a type of sipgo's own has no other name.
pub name_from :
    (n : Text) (h : Header) → text_eq (text "from") n ≡ false → is_from h ≡ true → named n h ≡ false
unfolding to_lower
name_from n (from_header a) f e = f
name_from n _ f e = cc

pub name_to :
    (n : Text) (h : Header) → text_eq (text "to") n ≡ false → is_to h ≡ true → named n h ≡ false
unfolding to_lower
name_to n (to_header a) f e = f
name_to n _ f e = cc

pub name_call_id :
    (n : Text) (h : Header)
    → text_eq (text "call-id") n ≡ false
    → is_call_id h ≡ true
    → named n h ≡ false
unfolding to_lower
name_call_id n (call_id_header id) f e = f
name_call_id n _ f e = cc
