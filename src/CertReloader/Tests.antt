-- ===== src/CertReloader/Tests.antt =====
-- sbc/cert_reloader.go: a certificate that changes on disk.
use comcent_ce.Common.{ℕ, ◌≡◌, ◌*◌, ◌/◌, refl, List, [], ◌∷◌, none, some, arith}
use comcent_ce.Clock.{minute}
use comcent_ce.CertReloader.{CertReloader, new_cert_reloader, wait_for_cert_reloader, serve}
use comcent_ce.CertReloader.Fresh.{AllFresh, reading, serve-AllFresh}

-- The certificate of an hour.
abbrev disk : ℕ → ℕ
disk t = t / (60 * minute)

abbrev created : CertReloader ℕ
created = record { cert = 0; refreshed_at = 58 * minute }

abbrev visits : List ℕ
visits = 59 * minute ∷ 61 * minute ∷ 64 * minute ∷ []

waits :
    wait_for_cert_reloader ℕ ((1, none) ∷ (2, some 7) ∷ (3, some 8) ∷ [])
    ≡ some (record { cert = 7; refreshed_at = 2 })
unfolding wait_for_cert_reloader
waits = refl

-- The second visit comes before the five minutes are over.
renewed : serve ℕ created (reading ℕ disk visits) ≡ 0 ∷ 0 ∷ 1 ∷ []
unfolding serve comcent_ce.CertReloader.refresh
renewed = refl

-- A load that fails leaves the certificate.
kept : serve ℕ created ((64 * minute, none) ∷ []) ≡ 0 ∷ []
unfolding serve comcent_ce.CertReloader.refresh
kept = refl

serve-AllFresh_example : AllFresh ℕ disk visits (serve ℕ created (reading ℕ disk visits))
unfolding new_cert_reloader
serve-AllFresh_example =
    serve-AllFresh ℕ disk (58 * minute) created visits refl
      (omega arith, (omega arith, (omega arith, tt)))
