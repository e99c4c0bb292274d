-- ===== src/IpBan.antt =====
-- sbc/ip_ban.go: the ban list. `b.now()` is the argument `now`, and `b.neverBan(ip)` the argument
-- `never` of a call. A nil *IPBan, which bans nothing, is `none`. Fail reads the clock before it takes
-- the lock; a call here is one step at that time.
mod Tests
pub mod Record
pub mod Sweep
pub mod Count
pub mod Unswept
pub mod Protected
pub mod Rejected
use comcent_ce.Common.{
  ℕ, ◌||◌, ◌&&◌, Bool, true, false, [], ◌∷◌, Option, none, some, Text, Dict, lookup, store, text_eq,
  leb, if◌then◌else◌,
}
use comcent_ce.Common.Int.{ℤ, pos, pos_part, leb_ℤ}
use comcent_ce.Clock.{before, since_at_least}
use Record.{BanRecord, Limits, new_record, fail_record, is_forgotten}

pub record IpBan : Type 0 where
  pub limits : Limits
  pub open limits use *
  pub sources : Dict BanRecord
  pub last_sweep : ℕ

unfoldable pub new_ip_ban : ℤ → ℤ → ℤ → Option IpBan
new_ip_ban max_failures window ban_time =
    if leb_ℤ max_failures (pos 0) || leb_ℤ window (pos 0) || leb_ℤ ban_time (pos 0)
    then none
    else some (record {
      limits = record {
        max_failures = pos_part max_failures;
        window = pos_part window;
        ban_time = pos_part ban_time;
      };
      sources = [];
      last_sweep = 0;
    })

abbrev pub until : Option BanRecord → ℕ → Bool
until none now = false
until (some r) now = before now r.banned_until

pub banned : Option IpBan → ℕ → Text → Bool
banned none now ip = false
banned (some b) now ip = until (lookup ip b.sources) now

pub forget : Limits → ℕ → Dict BanRecord → Dict BanRecord
forget l now [] = []
forget l now ((ip, r) ∷ m) =
    let rest = forget l now m in if is_forgotten l now r then rest else (ip, r) ∷ rest

pub sweep : IpBan → ℕ → IpBan
unfolding forget
sweep b now =
    if since_at_least now b.last_sweep b.window
    then record b { sources = forget b.limits now b.sources; last_sweep = now }
    else b

abbrev pub or_new : Option BanRecord → BanRecord
or_new none = new_record
or_new (some r) = r

-- The body of `Fail` behind its guards.
pub count_failure : IpBan → ℕ → Text → IpBan
count_failure b now ip = record b {
  sources = store ip (fail_record b.limits now (or_new (lookup ip b.sources))) b.sources;
}

pub fail : Option IpBan → ℕ → Bool → Text → Option IpBan
unfolding count_failure sweep
fail none now never ip = none
fail (some b) now never ip =
    if text_eq ip [] || never then some b else some (count_failure (sweep b now) now ip)
