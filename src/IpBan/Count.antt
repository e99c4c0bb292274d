-- ===== src/IpBan/Count.antt =====
-- sbc/ip_ban.go: when a source is banned, and for how long.
use comcent_ce.Common.{
  ap, ◌∙◌, ◌⊎◌, ℕ, zero, suc, ◌+◌, ◌*◌, ◌%◌, ◌^◌, ◌≤◌, ◌<◌, min, ◌≡◌, refl, List, [], ◌∷◌, arith,
  All, length, ltb, ltb_iff, Bool-cases, inl, inr,
}
use native.Mathlib.Nat.{pow-zero, pow-suc, one-le-pow}
use comcent_ce.IpBan.Record.{
  BanRecord, Limits, max_ban_time, double, ban_length, fail_record, forgive, restart, strike,
}

le-mul_pow : (n ban : ℕ) → ban ≤ ban * 2 ^ n
le-mul_pow n ban = let h : 1 ≤ 2 ^ n = one-le-pow n 2 (omega arith) in grind arith

mul-pow_suc : (n ban : ℕ) → ban * 2 ^ suc n ≡ ban * 2 * 2 ^ n
mul-pow_suc n ban = rw (pow-suc 2 n) (omega arith)

-- Doubling in an int64 never wraps around, and the cap makes it the plain power.
min-double :
    (n ban : ℕ) → ban < 2 ^ 63 → min (double n ban) max_ban_time ≡ min (ban * 2 ^ n) max_ban_time
unfolding double
min-double zero ban h = rw (pow-zero 2) (omega arith)
min-double (suc n) ban h = elim (Bool-cases (ltb ban max_ban_time)) [
  | inl t ↦
      let small : ban < max_ban_time = (ltb_iff ban max_ban_time).0 t in
      let plain : (ban * 2) % 2 ^ 64 ≡ ban * 2 = omega arith in
      rw (t, plain, mul-pow_suc n ban) (min-double n (ban * 2) (omega arith))
  | inr t ↦
      let big : max_ban_time ≤ ban = ground arith in rw t (omega (arith, le-mul_pow (suc n) ban))
]

-- A ban lasts the configured time, doubled once for each earlier ban that is remembered, and a day at
-- most; for a configured time below 2 ^ 63 nanoseconds.
ban_length_lem :
    (l : Limits) (bans : ℕ)
    → l.ban_time < 2 ^ 63
    → ban_length l bans ≡ min (l.ban_time * 2 ^ bans) max_ban_time
unfolding ban_length
ban_length_lem l bans h = min-double bans l.ban_time h

-- The record after failures at the times listed.
pub fail_times : Limits → List ℕ → BanRecord → BanRecord
fail_times l [] r = r
fail_times l (t ∷ ts) r = fail_times l ts (fail_record l t r)

-- A time inside the window that begins at `start`.
abbrev Within : Limits → ℕ → ℕ → Type 0
Within l start t = (start ≤ t) × (t < start + l.window)

-- A time at which the bans so far still count.
abbrev Remembered : BanRecord → ℕ → Type 0
Remembered r t = (r.bans ≡ 0) ⊎ (t < r.banned_until + max_ban_time)

abbrev InWindow : Limits → BanRecord → ℕ → Type 0
InWindow l r t = Within l r.window_start t × (r.banned_until ≤ t) × Remembered r t

fail_record-below :
    (l : Limits) (t : ℕ) (r : BanRecord)
    → InWindow l r t
    → r.failures + 1 < l.max_failures
    → fail_record l t r ≡ record r { failures = r.failures + 1 }
unfolding fail_record forgive restart strike
fail_record-below l t r w h = ground arith

fail_record_limit :
    (l : Limits) (t : ℕ) (r : BanRecord)
    → InWindow l r t
    → r.failures + 1 ≡ l.max_failures
    → fail_record l t r
      ≡ record r { failures = 0; bans = r.bans + 1; banned_until = t + ban_length l r.bans }
unfolding fail_record forgive restart strike
fail_record_limit l t r w h = ground arith

-- Failures at such times add up and ban nothing while their number stays below the limit.
fail_times-within :
    (l : Limits) (ts : List ℕ) (r : BanRecord)
    → All (InWindow l r) ts
    → r.failures + length ts < l.max_failures
    → fail_times l ts r ≡ record r { failures = r.failures + length ts }
unfolding fail_times
fail_times-within l [] r w h = ap (λ n. record r { failures = n }) (omega arith)
fail_times-within l (t ∷ ts) r w h =
    let one : fail_record l t r ≡ record r { failures = r.failures + 1 } =
      fail_record-below l t r w.0 (omega arith) in
    rw one (
      fail_times-within l ts (record r { failures = r.failures + 1 }) w.1 (omega arith)
      ∙ ap (λ n. record r { failures = n }) (omega arith))

-- A source that has failed `r.failures` times in its window is not banned by more failures inside the
-- window while the limit is not reached, and the failure at `t` that reaches it bans the source from
-- `t` on for the configured time, doubled for each ban that is remembered, and a day at most; for a
-- configured time below 2 ^ 63 nanoseconds.
pub fail_times_limit :
    (l : Limits) (ts : List ℕ) (t : ℕ) (r : BanRecord)
    → l.ban_time < 2 ^ 63
    → All (InWindow l r) ts
    → InWindow l r t
    → r.failures + length ts + 1 ≡ l.max_failures
    → ((fail_times l ts r).banned_until ≡ r.banned_until)
      × (fail_record l t (fail_times l ts r) ≡ record r {
        failures = 0;
        bans = r.bans + 1;
        banned_until = t + min (l.ban_time * 2 ^ r.bans) max_ban_time;
      })
fail_times_limit l ts t r k ws w h =
    let all = fail_times-within l ts r ws (omega arith) in
    rw all (refl, rw (← ban_length_lem l r.bans k) (fail_record_limit l t _ w (omega arith)))
