-- ===== src/CertReloader/Fresh.antt =====
-- sbc/cert_reloader.go: which certificate a connection gets.
use comcent_ce.Common.{
  ℕ, ◌+◌, ◌≤◌, ◌≡◌, refl, inl, inr, false, List, [], ◌∷◌, Option, some, arith, Bool-cases,
}
use mathlib.Core.Path.{subst}
use mathlib.Core.Option.{some-injective}
use comcent_ce.CertReloader.{
  CertReloader, refresh, new_cert_reloader, is_stale, get, serve, refresh_every,
}

module _ (Cert : Type 0) where
  -- The certificate was on disk at most the refresh time before `now`.
  abbrev IsFresh : (ℕ → Cert) → ℕ → Cert → Type 0
  IsFresh disk now cert = (t : ℕ) × (cert ≡ disk t) × (t ≤ now) × (now ≤ t + refresh_every)

  abbrev pub AllFresh : (ℕ → Cert) → List ℕ → List Cert → Type 0
  AllFresh disk [] certs = certs ≡ []
  AllFresh disk (now ∷ times) [] = ⊥
  AllFresh disk (now ∷ times) (cert ∷ certs) = IsFresh disk now cert × AllFresh disk times certs

  -- Times that do not fall, from `start` on.
  abbrev Ordered : ℕ → List ℕ → Type 0
  Ordered start [] = Unit {0}
  Ordered start (now ∷ times) = (start ≤ now) × Ordered now times

  -- Connections at the times, where the files can be read whenever they are.
  abbrev pub reading : (ℕ → Cert) → List ℕ → List (ℕ × Option Cert)
  reading disk [] = []
  reading disk (now ∷ times) = (now, some (disk now)) ∷ reading disk times

  -- The reloader has what was on disk when it was refreshed.
  abbrev HasDisk : (ℕ → Cert) → CertReloader Cert → Type 0
  HasDisk disk r = r.cert ≡ disk r.refreshed_at

  not_stale :
      (r : CertReloader Cert) (now : ℕ)
      → is_stale Cert r now ≡ false
      → now ≤ r.refreshed_at + refresh_every
  unfolding is_stale
  not_stale r now e = ground arith

  -- After a connection.
  get-IsFresh :
      (disk : ℕ → Cert) (r : CertReloader Cert) (now : ℕ)
      → HasDisk disk r
      → r.refreshed_at ≤ now
      → HasDisk disk (get Cert r now (some (disk now))).0
        × ((get Cert r now (some (disk now))).0.refreshed_at ≤ now)
        × IsFresh disk now (get Cert r now (some (disk now))).1
  unfolding get refresh
  get-IsFresh disk r now h l = elim (Bool-cases (is_stale Cert r now)) [
    | inl e ↦ rw e (refl, omega arith, (now, refl, omega arith, omega arith))
    | inr e ↦ rw e (h, l, (r.refreshed_at, h, l, not_stale r now e))
  ]

  serve_fresh :
      (disk : ℕ → Cert) (r : CertReloader Cert) (times : List ℕ)
      → HasDisk disk r
      → Ordered r.refreshed_at times
      → AllFresh disk times (serve Cert r (reading disk times))
  unfolding serve
  serve_fresh disk r [] h o = refl
  serve_fresh disk r (now ∷ times) h o =
      let (kept, before, fresh) = get-IsFresh disk r now h o.0 in
      (
        fresh,
        serve_fresh disk (get Cert r now (some (disk now))).0 times kept
            (ordered_from _ now times before o.1),
      )
    where
      ordered_from : (a b : ℕ) (times : List ℕ) → a ≤ b → Ordered b times → Ordered a times
      ordered_from a b [] l o = tt
      ordered_from a b (now ∷ times) l o = (omega (arith, o.0), o.1)

-- If the files can be read whenever a connection finds the certificate stale, each connection gets the
-- certificate as it was on disk at most five minutes earlier; for connections at times that do not fall,
-- from the creation of the reloader on.
pub serve-AllFresh :
    (Cert : Type 0) (disk : ℕ → Cert) (start : ℕ) (r : CertReloader Cert) (times : List ℕ)
    → new_cert_reloader Cert start (some (disk start)) ≡ some r
    → Ordered Cert start times
    → AllFresh Cert disk times (serve Cert r (reading Cert disk times))
unfolding new_cert_reloader
serve-AllFresh Cert disk start r times e o =
    subst
      (λ (q : CertReloader Cert). AllFresh Cert disk times (serve Cert q (reading Cert disk times)))
      (some-injective _ _ e)
      (serve_fresh Cert disk (record { cert = disk start; refreshed_at = start }) times refl o)
