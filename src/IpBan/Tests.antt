-- ===== src/IpBan/Tests.antt =====
-- sbc/ip_ban.go: runs of the ban list.
use comcent_ce.Common.{
  ℕ, ◌+◌, ◌*◌, ◌^◌, min, ◌≤◌, ◌<◌, ◌≡◌, refl, Bool, true, false, List, [], ◌∷◌, Option, none, some,
  arith, Text, text, text_eq, lookup, ltb, length, All, inl, inr, if◌then◌else◌,
}
use comcent_ce.Clock.{second, minute}
use comcent_ce.IpBan.Record.{BanRecord, Limits, new_record, max_ban_time, ban_length, fail_record}
use comcent_ce.IpBan.{IpBan, new_ip_ban, banned, fail}
use comcent_ce.IpBan.Count.{fail_times, fail_times_limit}
use comcent_ce.IpBan.Unswept.{Failure, fail_all, keep_all, fail_all-refines}
use comcent_ce.IpBan.Rejected.{RejectedCalls}

abbrev three_a_minute : Limits
three_a_minute = record { max_failures = 3; window = minute; ban_time = 10 * minute }

abbrev new_ban : IpBan
new_ban = record { limits = three_a_minute; sources = []; last_sweep = 0 }

abbrev one_rejected : RejectedCalls
one_rejected = record { ids = (text "c0", 5) ∷ []; last_sweep = 0 }

abbrev scanner : Text
scanner = text "192.0.2.1"

abbrev guess : ℕ → Failure
guess t = record { time = t; never = false; ip = scanner }

-- Two failures, a third in the next window, and a caller that is never banned.
abbrev guesses : List Failure
guesses =
    guess (2 * minute)
    ∷ guess (2 * minute + second)
    ∷ record { time = 4 * minute; never = true; ip = text "203.0.113.7" }
    ∷ guess (5 * minute)
    ∷ []

banned_after_three :
    banned
      (fail
        (fail (fail (some new_ban) minute false scanner) minute false scanner)
        minute
        false
        scanner)
      (2 * minute)
      scanner
    ≡ true
unfolding banned fail lookup text_eq comcent_ce.Common.store fail_record
    comcent_ce.IpBan.Record.strike comcent_ce.IpBan.Record.restart comcent_ce.IpBan.Record.forgive
    ban_length
banned_after_three = refl

fail_all-refines_example :
    banned (fail_all (some new_ban) guesses) (6 * minute) scanner
    ≡ banned (some (keep_all new_ban guesses)) (6 * minute) scanner
fail_all-refines_example =
    fail_all-refines new_ban minute (6 * minute) guesses scanner refl (omega arith)
      (omega arith, (omega arith, (omega arith, (omega arith, tt)))) (omega arith)

fail_times_limit_example :
    ((fail_times three_a_minute (5 ∷ 7 ∷ []) new_record).banned_until ≡ new_record.banned_until)
    × (fail_record three_a_minute 9 (fail_times three_a_minute (5 ∷ 7 ∷ []) new_record)
        ≡ record new_record {
          failures = 0;
          bans = new_record.bans + 1;
          banned_until = 9 + min (three_a_minute.ban_time * 2 ^ new_record.bans) max_ban_time;
        })
fail_times_limit_example =
    fail_times_limit three_a_minute (5 ∷ 7 ∷ []) 9 new_record (omega arith)
      (
        ((omega arith, omega arith), omega arith, inl refl),
        (((omega arith, omega arith), omega arith, inl refl), tt),
      )
      ((omega arith, omega arith), omega arith, inl refl) refl
