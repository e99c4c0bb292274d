-- ===== src/Common/Lists.antt =====
-- Lists measured and searched with native numbers and Boolean tests.
use Prim.Native.Nat.{ℕ, zero, suc, ◌+◌, ◌≤◌}
use mathlib.Core.Path.{◌≡◌, refl, sym, subst}
use mathlib.Core.Logic.{◌⊎◌, inl, inr}
use mathlib.Core.Bool.{Bool, true, false, ◌||◌}
use mathlib.Core.Option.{Option, none, some}
use mathlib.Core.List.{List, [], ◌∷◌, ◌++◌}
use native.Mathlib.Omega.{arith}
use comcent_ce.Common.Tests.{if◌then◌else◌, Bool-cases}

module _ {ℓ} {A : Type ℓ} where
  abbrev pub length : List A → ℕ
  length [] = 0
  length (x ∷ xs) = suc (length xs)

  abbrev pub get_elem? : List A → ℕ → Option A
  get_elem? [] i = none
  get_elem? (x ∷ xs) zero = some x
  get_elem? (x ∷ xs) (suc i) = get_elem? xs i

  -- `for _, x := range xs { if p(x) { kept = append(kept, x) } }`
  abbrev pub keep : (A → Bool) → List A → List A
  keep p [] = []
  keep p (x ∷ xs) = let rest = keep p xs in if p x then x ∷ rest else rest

  -- A loop that returns true at the first element that passes the test.
  abbrev pub any : (A → Bool) → List A → Bool
  any p [] = false
  any p (x ∷ xs) = p x || any p xs

  abbrev pub All {κ} : (A → Type κ) → List A → Type κ
  All P [] = Unit
  All P (x ∷ xs) = P x × All P xs

  pub length-append : (xs ys : List A) → length (xs ++ ys) ≡ length xs + length ys
  length-append [] ys = omega arith
  length-append (x ∷ xs) ys = omega (arith, length-append xs ys)

  length-keep-le : (p : A → Bool) (xs : List A) → length (keep p xs) ≤ length xs
  length-keep-le p [] = omega arith
  length-keep-le p (x ∷ xs) = ground (arith, length-keep-le p xs)

  pub keep_idem : (p : A → Bool) (xs : List A) → keep p (keep p xs) ≡ keep p xs
  keep_idem p [] = refl
  keep_idem p (x ∷ xs) = ground (arith, keep_idem p xs)

module _ {ℓ κ} {A : Type ℓ} (P : A → Type κ) where
  pub All-append : (xs ys : List A) → All P xs → All P ys → All P (xs ++ ys)
  All-append [] ys hx hy = hy
  All-append (x ∷ xs) ys hx hy = (hx.0, All-append xs ys hx.1 hy)

  All-keep : (p : A → Bool) (xs : List A) → All P xs → All P (keep p xs)
  All-keep p [] h = tt
  All-keep p (x ∷ xs) h = ground (arith, All-keep p xs h.1)

module _ {ℓ κ μ} {A : Type ℓ} where
  pub All-map :
      (P : A → Type κ) (Q : A → Type μ) (xs : List A) → ((x : A) → P x → Q x) → All P xs → All Q xs
  All-map P Q [] f h = tt
  All-map P Q (x ∷ xs) f h = (f x h.0, All-map P Q xs f h.1)

-- Membership by recursion, with the place kept.
abbrev pub In : {A : Type 0} → A → List A → Type 0
In a [] = ⊥
In a (x ∷ xs) = (a ≡ x) ⊎ In a xs

module _ {A : Type 0} where
  pub In-append_left : (a : A) (xs ys : List A) → In a xs → In a (xs ++ ys)
  In-append_left a [] ys h = absurd h
  In-append_left a (x ∷ xs) ys (inl e) = inl e
  In-append_left a (x ∷ xs) ys (inr h) = inr (In-append_left a xs ys h)

  pub In-append_right : (a : A) (xs ys : List A) → In a ys → In a (xs ++ ys)
  In-append_right a [] ys h = h
  In-append_right a (x ∷ xs) ys h = inr (In-append_right a xs ys h)

  pub All-In : (P : A → Type 0) (a : A) (xs : List A) → All P xs → In a xs → P a
  All-In P a [] h m = absurd m
  All-In P a (x ∷ xs) h (inl e) = subst P (sym e) h.0
  All-In P a (x ∷ xs) h (inr m) = All-In P a xs h.1 m

  abbrev Found : (A → Bool) → List A → Type 0
  Found p xs = (a : A) × In a xs × (p a ≡ true)

  pub any_sound : (p : A → Bool) (xs : List A) → any p xs ≡ true → Found p xs
  any_sound p [] h = cc
  any_sound p (x ∷ xs) h = elim (Bool-cases (p x)) [
    | inl e ↦ (x, inl refl, e)
    | inr e ↦ let (a, m, q) = any_sound p xs (ground arith) in (a, inr m, q)
  ]

  pub any_complete : (p : A → Bool) (a : A) (xs : List A) → In a xs → p a ≡ true → any p xs ≡ true
  any_complete p a [] m h = absurd m
  any_complete p a (x ∷ xs) (inl e) h = let px : p x ≡ true = cc in rw px
  any_complete p a (x ∷ xs) (inr m) h = ground (arith, any_complete p a xs m h)

  In-keep : (p : A → Bool) (a : A) (xs : List A) → In a xs → p a ≡ true → In a (keep p xs)
  In-keep p a [] m h = absurd m
  In-keep p a (x ∷ xs) (inl e) h = let px : p x ≡ true = cc in rw px (inl e)
  In-keep p a (x ∷ xs) (inr m) h = elim (Bool-cases (p x)) [
    | inl e ↦ rw e (inr (In-keep p a xs m h))
    | inr e ↦ rw e (In-keep p a xs m h)
  ]
