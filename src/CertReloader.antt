-- ===== src/CertReloader.antt =====
-- sbc/cert_reloader.go. What tls.LoadX509KeyPair gives at a call is an argument, `none` for an error. A
-- connection's Get reads and writes under the lock in two steps; here its calls come one after another.
mod Tests
pub mod Fresh
use comcent_ce.Common.{ℕ, ◌+◌, ◌*◌, Bool, List, [], ◌∷◌, Option, none, some, ltb, if◌then◌else◌}
use comcent_ce.Clock.{minute}

abbrev pub refresh_every : ℕ
refresh_every = 5 * minute

module _ (Cert : Type 0) where
  pub record CertReloader : Type 0 where
    pub cert : Cert
    pub refreshed_at : ℕ

  -- refresh, with the time of its call of time.Now()
  pub refresh : CertReloader → ℕ → Option Cert → CertReloader
  refresh r now none = r
  refresh r now (some cert) = record { cert = cert; refreshed_at = now }

  -- newCertReloader
  pub new_cert_reloader : ℕ → Option Cert → Option CertReloader
  new_cert_reloader now none = none
  new_cert_reloader now (some cert) = some (record { cert = cert; refreshed_at = now })

  -- time.Since(r.refreshedAt) > r.refreshEvery
  pub is_stale : CertReloader → ℕ → Bool
  is_stale r now = ltb (r.refreshed_at + refresh_every) now

  -- Get: the certificate of the reloader that it leaves.
  pub get : CertReloader → ℕ → Option Cert → CertReloader × Cert
  unfolding is_stale
  get r now loaded =
      let r' = refresh r now loaded in if is_stale r now then (r', r'.cert) else (r, r.cert)

  -- The tries of waitForCertReloader, with their times; `none` while it waits.
  pub wait_for_cert_reloader : List (ℕ × Option Cert) → Option CertReloader
  unfolding new_cert_reloader
  wait_for_cert_reloader [] = none
  wait_for_cert_reloader ((now, loaded) ∷ tries) =
      let rest = wait_for_cert_reloader tries in
      elim (new_cert_reloader now loaded) [ none ↦ rest | some r ↦ some r ]

  -- The certificates that a sequence of connections gets.
  pub serve : CertReloader → List (ℕ × Option Cert) → List Cert
  unfolding get
  serve r [] = []
  serve r ((now, loaded) ∷ calls) = let (r', cert) = get r now loaded in cert ∷ serve r' calls
