-- ===== src/Common/Dicts.antt =====
-- A Go map with string keys, as an association list. `delete` drops every entry of its key, and
-- a store replaces the entry in place, so that the keys stay distinct.
use mathlib.Core.Path.{◌≡◌, refl, subst}
use mathlib.Core.Logic.{◌≢◌, inl, inr}
use mathlib.Core.Option.{Option, none, some, some-injective, none-ne-some}
use mathlib.Core.List.{List, [], ◌∷◌}
use native.Mathlib.Omega.{arith}
use comcent_ce.Common.Tests.{if◌then◌else◌, Bool-cases}
use comcent_ce.Common.Texts.{Text, text_eq, text_eq_iff}

abbrev pub Dict {ℓ} : Type ℓ → Type ℓ
Dict V = List (Text × V)

module _ {ℓ} {V : Type ℓ} where
  -- v, ok := m[k]
  unfoldable pub lookup : Text → Dict V → Option V
  lookup k [] = none
  lookup k ((j, v) ∷ m) = if text_eq j k then some v else lookup k m

  -- m[k] = v
  unfoldable pub store : Text → V → Dict V → Dict V
  store k v [] = (k, v) ∷ []
  store k v ((j, w) ∷ m) = if text_eq j k then (k, v) ∷ m else (j, w) ∷ store k v m

  -- delete(m, k)
  unfoldable pub delete : Text → Dict V → Dict V
  delete k [] = []
  delete k ((j, w) ∷ m) = let rest = delete k m in if text_eq j k then rest else (j, w) ∷ rest

  pub lookup-store :
      (k j : Text) (v : V) (m : Dict V)
      → lookup j (store k v m) ≡ (if text_eq k j then some v else lookup j m)
  unfolding lookup store
  lookup-store k j v [] = refl
  lookup-store k j v ((i, w) ∷ m) =
      ground (arith, text_eq_iff k j, text_eq_iff i k, text_eq_iff i j, lookup-store k j v m)

  pub lookup-delete :
      (k j : Text) (m : Dict V) → lookup j (delete k m) ≡ (if text_eq k j then none else lookup j m)
  unfolding lookup delete
  lookup-delete k j [] = ground arith
  lookup-delete k j ((i, w) ∷ m) =
      ground (arith, text_eq_iff k j, text_eq_iff i k, text_eq_iff i j, lookup-delete k j m)

module _ {ℓ} {V : Type ℓ} where
  -- The key has no entry.
  abbrev pub IsAbsent : Text → Dict V → Type 0
  IsAbsent k [] = Unit {0}
  IsAbsent k ((j, v) ∷ m) = (j ≢ k) × IsAbsent k m

  -- Every key has one entry, as in a Go map.
  abbrev pub DistinctKeys : Dict V → Type 0
  DistinctKeys [] = Unit {0}
  DistinctKeys ((k, v) ∷ m) = IsAbsent k m × DistinctKeys m

  -- A predicate on every entry.
  abbrev pub AllValues {κ} : (V → Type κ) → Dict V → Type κ
  AllValues P [] = Unit
  AllValues P ((k, v) ∷ m) = P v × AllValues P m

  pub lookup-IsAbsent : (k : Text) (m : Dict V) → IsAbsent k m → lookup k m ≡ none
  unfolding lookup
  lookup-IsAbsent k [] h = refl
  lookup-IsAbsent k ((j, v) ∷ m) h = ground (arith, text_eq_iff j k, lookup-IsAbsent k m)

  -- A key that has an entry is not one that has none.
  pub lookup_past :
      (k j : Text) (v w : V) (m : Dict V)
      → IsAbsent j m
      → lookup k m ≡ some v
      → lookup k ((j, w) ∷ m) ≡ some v
  unfolding lookup
  lookup_past k j v w m h e =
      ground (arith, text_eq_iff j k, lookup-IsAbsent j m h, lookup-IsAbsent k m)

  store-IsAbsent :
      (k j : Text) (v : V) (m : Dict V) → k ≢ j → IsAbsent j m → IsAbsent j (store k v m)
  unfolding store
  store-IsAbsent k j v [] n h = (n, tt)
  store-IsAbsent k j v ((i, w) ∷ m) n h = ground (arith, store-IsAbsent k j v m n, text_eq_iff i k)

  delete-IsAbsent : (k j : Text) (m : Dict V) → IsAbsent j m → IsAbsent j (delete k m)
  unfolding delete
  delete-IsAbsent k j [] h = tt
  delete-IsAbsent k j ((i, w) ∷ m) h = ground (arith, delete-IsAbsent k j m)

  pub store-DistinctKeys :
      (k : Text) (v : V) (m : Dict V) → DistinctKeys m → DistinctKeys (store k v m)
  unfolding store
  store-DistinctKeys k v [] d = (tt, tt)
  store-DistinctKeys k v ((i, w) ∷ m) d = elim (Bool-cases (text_eq i k)) [
    | inl e ↦ rw e (let same : i ≡ k = (text_eq_iff i k).0 e in rw (← same) d)
    | inr e ↦ rw e (
      store-IsAbsent k i v m (λ q. ground (arith, text_eq_iff i k)) d.0,
      store-DistinctKeys k v m d.1,
    )
  ]

  pub delete-DistinctKeys : (k : Text) (m : Dict V) → DistinctKeys m → DistinctKeys (delete k m)
  unfolding delete
  delete-DistinctKeys k [] d = tt
  delete-DistinctKeys k ((i, w) ∷ m) d =
      ground (arith, delete-DistinctKeys k m d.1, delete-IsAbsent k i m d.0)

module _ {ℓ κ} {V : Type ℓ} (P : V → Type κ) where
  pub AllValues-lookup : (k : Text) (v : V) (m : Dict V) → AllValues P m → lookup k m ≡ some v → P v
  unfolding lookup
  AllValues-lookup k v [] h e = absurd (none-ne-some v e)
  AllValues-lookup k v ((j, w) ∷ m) h e = elim (Bool-cases (text_eq j k)) [
    | inl q ↦ subst P (some-injective _ _ (rw q at e)) h.0
    | inr q ↦ AllValues-lookup k v m h.1 (rw q at e)
  ]

  pub AllValues-store :
      (k : Text) (v : V) (m : Dict V) → AllValues P m → P v → AllValues P (store k v m)
  unfolding store
  AllValues-store k v [] h p = (p, tt)
  AllValues-store k v ((j, w) ∷ m) h p = ground (arith, AllValues-store k v m h.1 p)

  pub AllValues-delete : (k : Text) (m : Dict V) → AllValues P m → AllValues P (delete k m)
  unfolding delete
  AllValues-delete k [] h = tt
  AllValues-delete k ((j, w) ∷ m) h = ground (arith, AllValues-delete k m h.1)
