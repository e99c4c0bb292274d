-- ===== src/IpBan/Sweep.antt =====
-- sbc/ip_ban.go: the records of one source in the list that forgets, beside those in a list that
-- does not.
use comcent_ce.Common.{ℕ, ◌+◌, ◌≤◌, ◌≡◌, ◌⊎◌, inl, inr, sym, ◌∙◌, true, false, arith, Bool-cases}
use comcent_ce.Clock.{before}
use comcent_ce.IpBan.Record.{
  BanRecord, Limits, new_record, max_ban_time, fail_record, forgive, restart, strike, is_forgotten,
}

-- The window of the record is over at `t`.
abbrev Over : Limits → ℕ → BanRecord → Type 0
Over l t r = r.window_start + l.window ≤ t

-- No ban is running at `t`, and none counts towards the next.
abbrev Quiet : ℕ → BanRecord → Type 0
Quiet t r = (r.banned_until ≤ t) × ((r.bans ≡ 0) ⊎ (r.banned_until + max_ban_time ≤ t))

abbrev SameBans : ℕ → BanRecord → BanRecord → Type 0
SameBans t r s = ((r.bans ≡ s.bans) × (r.banned_until ≡ s.banned_until)) ⊎ (Quiet t r × Quiet t s)

abbrev SameWindow : Limits → ℕ → BanRecord → BanRecord → Type 0
SameWindow l t r s =
    ((r.failures ≡ s.failures) × (r.window_start ≡ s.window_start)) ⊎ (Over l t r × Over l t s)

-- Two records that no failure from `t` on can tell apart.
pub record Same (l : Limits) (t : ℕ) (r s : BanRecord) : Type 0 where
  pub same_bans : SameBans t r s
  pub same_window : SameWindow l t r s
  pub calm : r.bans ≡ 0 → r.banned_until ≤ t

pub Same-later :
    (l : Limits) (t now : ℕ) (r s : BanRecord) → t ≤ now → Same l t r s → Same l now r s
Same-later l t now r s h q = record {
  same_bans = elim q.same_bans [ inl e ↦ inl e | inr c ↦ inr (omega arith) ];
  same_window = elim q.same_window [ inl e ↦ inl e | inr c ↦ inr (omega arith) ];
  calm = λ z. ground (arith, q.calm z);
}

-- Behind `forgive` the bans that count are equal.
forgive-Same :
    (l : Limits) (now : ℕ) (r s : BanRecord)
    → Same l now r s
    → r.banned_until ≤ now
    → Same l now (forgive now r) (forgive now s)
      × ((forgive now r).bans ≡ (forgive now s).bans)
      × ((forgive now r).banned_until ≤ now)
unfolding forgive
forgive-Same l now r s q h = ground (arith, q.same_bans, q.same_window)

-- Behind `restart` the counts are equal.
restart-Same :
    (l : Limits) (now : ℕ) (r s : BanRecord)
    → Same l now r s
    → Same l now (restart l now r) (restart l now s)
      × ((restart l now r).failures ≡ (restart l now s).failures)
      × ((restart l now r).window_start ≡ (restart l now s).window_start)
      × ((restart l now r).bans ≡ r.bans)
      × ((restart l now s).bans ≡ s.bans)
unfolding restart
restart-Same l now r s q = ground (arith, q.same_bans, q.same_window)

strike-Same :
    (l : Limits) (now : ℕ) (r s : BanRecord)
    → Same l now r s
    → r.failures ≡ s.failures
    → r.window_start ≡ s.window_start
    → r.bans ≡ s.bans
    → Same l now (strike l now r) (strike l now s)
unfolding strike
strike-Same l now r s q e f g = ground (arith, q.same_bans, q.same_window)

pub until-Same :
    (l : Limits) (now : ℕ) (r s : BanRecord)
    → Same l now r s
    → before now r.banned_until ≡ before now s.banned_until
until-Same l now r s q = ground (arith, q.same_bans)

pub fail-Same :
    (l : Limits) (now : ℕ) (r s : BanRecord)
    → Same l now r s
    → Same l now (fail_record l now r) (fail_record l now s)
unfolding fail_record
fail-Same l now r s q = elim (Bool-cases (before now r.banned_until)) [
  | inl t ↦
      let t' : before now s.banned_until ≡ true = sym (until-Same l now r s q) ∙ t in rw (t, t') q
  | inr t ↦
      let t' : before now s.banned_until ≡ false = sym (until-Same l now r s q) ∙ t in
      let (f, bans, _) = forgive-Same l now r s q (ground arith) in
      let (g, failures, start, br, bs) = restart-Same l now (forgive now r) (forgive now s) f in
      rw (t, t') (strike-Same l now _ _ g failures start (br ∙ bans ∙ sym bs))
]

pub forgotten-Same :
    (l : Limits) (now : ℕ) (r s : BanRecord)
    → l.window ≤ now
    → Same l now r s
    → is_forgotten l now r ≡ true
    → Same l now new_record s
unfolding is_forgotten
forgotten-Same l now r s h q f = ground (arith, q.same_bans, q.same_window)
