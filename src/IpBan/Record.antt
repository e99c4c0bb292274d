-- ===== src/IpBan/Record.antt =====
-- sbc/ip_ban.go: what one source's record remembers, and the part of `Fail` and `sweep` about it.
use comcent_ce.Common.{
  ℕ, zero, suc, ◌+◌, ◌*◌, ◌%◌, ◌^◌, min, Bool, ◌||◌, ◌&&◌, ltb, ◌==◌, if◌then◌else◌,
}
use comcent_ce.Clock.{before, since_at_least, hour}

-- The settings of an *IPBan; the durations are in nanoseconds.
pub record Limits : Type 0 where
  pub max_failures : ℕ
  pub window : ℕ
  pub ban_time : ℕ

pub record BanRecord : Type 0 where
  pub failures : ℕ
  pub window_start : ℕ
  pub bans : ℕ
  pub banned_until : ℕ

-- &ipBanRecord{}
abbrev pub new_record : BanRecord
new_record = record { failures = 0; window_start = 0; bans = 0; banned_until = 0 }

abbrev pub max_ban_time : ℕ
max_ban_time = 24 * hour

-- `for i := 0; i < r.bans && ban < maxBanTime; i++ { ban *= 2 }`: recursion on the rounds left. The
-- product is taken in an int64.
unfoldable pub double : ℕ → ℕ → ℕ
double zero ban = ban
double (suc n) ban =
    let more = double n ((ban * 2) % 2 ^ 64) in if ltb ban max_ban_time then more else ban

unfoldable pub ban_length : Limits → ℕ → ℕ
unfolding double
ban_length l bans = min (double bans l.ban_time) max_ban_time

-- Bans are forgotten a day after the last one ended.
unfoldable pub forgive : ℕ → BanRecord → BanRecord
forgive now r =
    if ltb 0 r.bans && since_at_least now r.banned_until max_ban_time
    then record r { bans = 0 }
    else r

unfoldable pub restart : Limits → ℕ → BanRecord → BanRecord
restart l now r =
    if since_at_least now r.window_start l.window
    then record r { failures = 0; window_start = now }
    else r

-- `r.failures++`, and the ban at the limit. The count stays below the limit, so it cannot wrap.
unfoldable pub strike : Limits → ℕ → BanRecord → BanRecord
strike l now r =
    if ltb (r.failures + 1) l.max_failures
    then record r { failures = r.failures + 1 }
    else record r { failures = 0; bans = r.bans + 1; banned_until = now + ban_length l r.bans }

unfoldable pub fail_record : Limits → ℕ → BanRecord → BanRecord
fail_record l now r =
    if before now r.banned_until then r else strike l now (restart l now (forgive now r))

-- The test of `sweep`.
unfoldable pub is_forgotten : Limits → ℕ → BanRecord → Bool
is_forgotten l now r =
    since_at_least now r.window_start l.window
    && (r.bans == 0 || since_at_least now r.banned_until max_ban_time)
