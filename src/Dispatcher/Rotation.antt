-- ===== src/Dispatcher/Rotation.antt =====
-- sbc/dispatcher.go: several calls of `SelectTarget` in a row.
use comcent_ce.Common.{
  ℕ, zero, suc, ◌+◌, ◌%◌, ◌^◌, ◌<◌, ◌≡◌, refl, List, [], ◌∷◌, ◌++◌, Option, some, arith, Text,
  length, get_elem?, ap, ◌∙◌, sym, ◌⊎◌, inl, inr, append_assoc, length-append, append-nil,
}
use Prim.Native.Nat.add
use mathlib.Core.Path.{ap₂}
use comcent_ce.Dispatcher.{Dispatcher, next_counter, select_from, select_target}

-- `n` calls of SelectTarget, with what they return.
pub select_times : ℕ → Dispatcher → Dispatcher × List (Option Text)
select_times zero d = (d, [])
select_times (suc n) d =
    let (d', t) = select_target d in let (d'', ts) = select_times n d' in (d'', t ∷ ts)

-- some t₀, some t₁, …: the list as results.
abbrev pub found : List Text → List (Option Text)
found [] = []
found (t ∷ ts) = some t ∷ found ts

mod_next : (x n s : ℕ) → x % n ≡ s → s + 1 < n → (x + 1) % n ≡ s + 1
mod_next x n s e h = grind arith

mod_last : (x n s : ℕ) → x % n ≡ s → s + 1 ≡ n → (x + 1) % n ≡ 0
mod_last x n s e h = grind arith

mod_wrap : (x k n s : ℕ) → x % n ≡ s → s + k ≡ n → (x + k) % n ≡ 0
mod_wrap x k n s e h = grind arith

get_elem?-append {ℓ} :
    {A : Type ℓ} (xs : List A) (y : A) (ys : List A)
    → get_elem? (xs ++ (y ∷ ys)) (length xs) ≡ some y
get_elem?-append [] y ys = refl
get_elem?-append (x ∷ xs) y ys = get_elem?-append xs y ys

select_any :
    (d : Dispatcher) (ts : List Text)
    → 0 < length ts
    → select_from d ts ≡ (
      record d { counter = next_counter d.counter },
      get_elem? ts (next_counter d.counter % length ts),
    )
select_any d [] h = absurd (omega arith)
select_any d (t ∷ ts) h = refl

select_next :
    (d : Dispatcher) (xs : List Text) (y : Text) (ys : List Text)
    → d.targets ≡ xs ++ (y ∷ ys)
    → (d.counter + 1) % length d.targets ≡ length xs
    → d.counter + 1 < 2 ^ 64
    → select_target d ≡ (record d { counter = d.counter + 1 }, some y)
unfolding select_target
select_next d xs y ys e m h =
    let plain : next_counter d.counter ≡ d.counter + 1 = omega arith in
    let long : 0 < length d.targets = rw e (omega (arith, length-append xs (y ∷ ys))) in
    select_any d d.targets long
    ∙ rw (plain, m)
        (ap (λ (ts : List Text). (record d { counter = d.counter + 1 }, get_elem? ts (length xs))) e
          ∙ ap (λ (o : Option Text). (record d { counter = d.counter + 1 }, o))
              (get_elem?-append xs y ys))

-- Where the next call stands, if one is left.
abbrev At : Dispatcher → List Text → List Text → Type 0
At d xs ys = (length ys ≡ 0) ⊎ ((d.counter + 1) % length d.targets ≡ length xs)

At-next :
    (d : Dispatcher) (xs : List Text) (y : Text) (ys zs : List Text)
    → d.targets ≡ xs ++ (y ∷ (ys ++ zs))
    → (d.counter + 1) % length d.targets ≡ length xs
    → At (record d { counter = d.counter + 1 }) (xs ++ y ∷ []) ys
At-next d xs y [] zs e m = inl refl
At-next d xs y (z ∷ ys) zs e m = inr (
    mod_next (d.counter + 1) (length d.targets) (length xs) m
      (rw e (omega (arith, length-append xs (y ∷ ((z ∷ ys) ++ zs)), length-append (z ∷ ys) zs)))
    ∙ omega (arith, length-append xs (y ∷ [])))

-- A run of calls that does not pass the end of the list returns the targets one by one.
select_run :
    (d : Dispatcher) (xs ys zs : List Text)
    → d.targets ≡ xs ++ (ys ++ zs)
    → At d xs ys
    → d.counter + length ys < 2 ^ 64
    → select_times (length ys) d ≡ (record d { counter = d.counter + length ys }, found ys)
unfolding select_times
select_run d xs [] zs e m h = ap (λ (c : ℕ). (record d { counter = c }, [])) (omega arith)
select_run d xs (y ∷ ys) zs e (inl m) h = absurd (omega arith)
select_run d xs (y ∷ ys) zs e (inr m) h =
    let d' : Dispatcher = record d { counter = d.counter + 1 } in
    let rest =
      select_run d' (xs ++ y ∷ []) ys zs (e ∙ sym (append_assoc xs (y ∷ []) (ys ++ zs)))
        (At-next d xs y ys zs e m) (omega arith) in
    rw (select_next d xs y (ys ++ zs) e m (omega arith), rest)
      (ap (λ (c : ℕ). (record d { counter = c }, some y ∷ found ys)) (omega arith))

found-append : (xs ys : List Text) → found (xs ++ ys) ≡ found xs ++ found ys
found-append [] ys = refl
found-append (x ∷ xs) ys = ap (λ (r : List (Option Text)). some x ∷ r) (found-append xs ys)

abbrev then_select : ℕ → Dispatcher × List (Option Text) → Dispatcher × List (Option Text)
then_select n (e, xs) = let (f, ys) = select_times n e in (f, xs ++ ys)

select_times-add :
    (m n : ℕ) (d : Dispatcher) → select_times (m + n) d ≡ then_select n (select_times m d)
unfolding select_times
select_times-add zero n d = rw add.zero
select_times-add (suc m) n d = rw (add.suc, select_times-add m n (select_target d).0)

-- From a counter that does not wrap around on the way, one call for each target returns every target
-- once, in the order of the list, beginning where the counter stands.
pub select_times-rotation :
    (d : Dispatcher) (xs ys : List Text)
    → d.targets ≡ xs ++ ys
    → (d.counter + 1) % length d.targets ≡ length xs
    → d.counter + length d.targets < 2 ^ 64
    → select_times (length d.targets) d
      ≡ (record d { counter = d.counter + length d.targets }, found (ys ++ xs))
select_times-rotation d xs ys e m h =
    let size : length d.targets ≡ length ys + length xs =
      omega (arith, ap length e, length-append xs ys) in
    rw (size, select_times-add (length ys) (length xs) d)
      (rw
        (select_run d xs ys [] (e ∙ ap (λ (t : List Text). xs ++ t) (sym (append-nil ys))) (inr m)
          (omega arith))
        (rw
          (select_run (record d { counter = d.counter + length ys }) [] xs ys e back (omega arith))
          (ap₂ (λ (c : ℕ) (r : List (Option Text)). (record d { counter = c }, r)) (omega arith)
            (sym (found-append ys xs)))))
  where
    back : At (record d { counter = d.counter + length ys }) [] xs
    back = inr (
        ap (λ (c : ℕ). c % length d.targets) (omega arith)
        ∙ mod_wrap (d.counter + 1) (length ys) (length d.targets) (length xs) m
            (omega (arith, ap length e, length-append xs ys)))
