-- ===== src/IpBan/Unswept.antt =====
-- sbc/ip_ban.go: the ban list without `sweep`, as a specification of the one with it.
use comcent_ce.Common.{
  ℕ, ◌≤◌, ◌≡◌, inl, inr, sym, ◌∙◌, refl, Bool, ◌||◌, List, [], ◌∷◌, Option, none, some, arith, Text,
  Dict, lookup, lookup-store, DistinctKeys, IsAbsent, store-DistinctKeys, lookup-IsAbsent, text_eq,
  text_eq_iff, if◌then◌else◌, Bool-cases,
}
use comcent_ce.Clock.{before, since_at_least}
use comcent_ce.IpBan.Record.{BanRecord, Limits, new_record, is_forgotten}
use comcent_ce.IpBan.{IpBan, until, banned, forget, sweep, or_new, count_failure, fail}
use comcent_ce.IpBan.Sweep.{Same, Same-later, fail-Same, until-Same, forgotten-Same}

-- A call of `Fail`: its time, the answer of `neverBan`, and the source.
pub record Failure : Type 0 where
  pub time : ℕ
  pub never : Bool
  pub ip : Text

-- The calls of `Fail` that reach the list, in order.
unfoldable pub fail_all : Option IpBan → List Failure → Option IpBan
fail_all b [] = b
fail_all b (f ∷ fs) = fail_all (fail b f.time f.never f.ip) fs

-- The specification: the same list without `sweep`.
keep_failure : IpBan → Failure → IpBan
keep_failure b f = if text_eq f.ip [] || f.never then b else count_failure b f.time f.ip

pub keep_all : IpBan → List Failure → IpBan
keep_all b [] = b
keep_all b (f ∷ fs) = keep_all (keep_failure b f) fs

-- The times do not fall, and the first is not before `t`.
abbrev Ascending : ℕ → List Failure → Type 0
Ascending t [] = Unit {0}
Ascending t (f ∷ fs) = (t ≤ f.time) × Ascending f.time fs

abbrev last_time : ℕ → List Failure → ℕ
last_time t [] = t
last_time t (f ∷ fs) = last_time f.time fs

forget-IsAbsent :
    (l : Limits) (now : ℕ) (k : Text) (m : Dict BanRecord)
    → IsAbsent k m
    → IsAbsent k (forget l now m)
unfolding forget
forget-IsAbsent l now k [] h = tt
forget-IsAbsent l now k ((ip, r) ∷ m) h = ground (arith, forget-IsAbsent l now k m h.1)

forget-DistinctKeys :
    (l : Limits) (now : ℕ) (m : Dict BanRecord) → DistinctKeys m → DistinctKeys (forget l now m)
unfolding forget
forget-DistinctKeys l now [] d = tt
forget-DistinctKeys l now ((ip, r) ∷ m) d =
    ground (arith, forget-DistinctKeys l now m d.1, forget-IsAbsent l now ip m d.0)

abbrev remember : Limits → ℕ → Option BanRecord → Option BanRecord
remember l now none = none
remember l now (some r) = if is_forgotten l now r then none else some r

lookup-forget :
    (l : Limits) (now : ℕ) (k : Text) (m : Dict BanRecord)
    → DistinctKeys m
    → lookup k (forget l now m) ≡ remember l now (lookup k m)
unfolding forget lookup
lookup-forget l now k [] d = refl
lookup-forget l now k ((ip, r) ∷ m) d = ground (
  arith,
  lookup-forget l now k m d.1,
  text_eq_iff ip k,
  lookup-IsAbsent ip (forget l now m) (forget-IsAbsent l now ip m d.0),
  lookup-IsAbsent ip m d.0,
)

-- At time `t` no source is treated differently by the two lists.
record Unnoticed (t : ℕ) (b u : IpBan) : Type 0 where
  same_limits : b.limits ≡ u.limits
  keys : DistinctKeys b.sources
  same : (ip : Text) → Same b.limits t (or_new (lookup ip b.sources)) (or_new (lookup ip u.sources))

remember-Same :
    (l : Limits) (now : ℕ) (o : Option BanRecord) (s : BanRecord)
    → l.window ≤ now
    → Same l now (or_new o) s
    → Same l now (or_new (remember l now o)) s
remember-Same l now none s h q = q
remember-Same l now (some r) s h q = elim (Bool-cases (is_forgotten l now r)) [
  | inl f ↦ rw f (forgotten-Same l now r s h q f)
  | inr f ↦ rw f q
]

sweep-Unnoticed :
    (t now : ℕ) (b u : IpBan)
    → t ≤ now
    → b.limits.window ≤ now
    → Unnoticed t b u
    → Unnoticed now (sweep b now) u
unfolding sweep
sweep-Unnoticed t now b u h w q =
    elim (Bool-cases (since_at_least now b.last_sweep b.limits.window)) [
      | inl e ↦
          rw (e, sweep)
            (record {
              same_limits = q.same_limits;
              keys = forget-DistinctKeys b.limits now b.sources q.keys;
              same = λ ip. rw (lookup-forget b.limits now ip b.sources q.keys) (
                  remember-Same b.limits now (lookup ip b.sources) _ w
                    (Same-later b.limits t now _ _ h (q.same ip)));
            })
      | inr e ↦
          rw (e, sweep)
            (record {
              same_limits = q.same_limits;
              keys = q.keys;
              same = λ ip. Same-later b.limits t now _ _ h (q.same ip);
            })
    ]

count-Unnoticed :
    (now : ℕ) (b u : IpBan) (ip : Text)
    → Unnoticed now b u
    → Unnoticed now (count_failure b now ip) (count_failure u now ip)
unfolding count_failure
count-Unnoticed now b u ip q = record {
  same_limits = q.same_limits;
  keys = store-DistinctKeys ip _ b.sources q.keys;
  same = λ j. elim (Bool-cases (text_eq ip j)) [
    | inl e ↦
        rw (lookup-store ip j _ b.sources, lookup-store ip j _ u.sources, e, ← q.same_limits)
          (fail-Same b.limits now _ _ (q.same ip))
    | inr e ↦ rw (lookup-store ip j _ b.sources, lookup-store ip j _ u.sources, e) (q.same j)
  ];
}

limits-sweep : (b : IpBan) (now : ℕ) → (sweep b now).limits ≡ b.limits
unfolding sweep
limits-sweep b now = ground arith

abbrev Stays : ℕ → Option IpBan → IpBan → Type 0
Stays t none u = ⊥
Stays t (some b) u = Unnoticed t b u × (b.limits.window ≤ t)

fail-Stays :
    (t : ℕ) (b u : IpBan) (f : Failure)
    → t ≤ f.time
    → Unnoticed t b u
    → b.limits.window ≤ t
    → Stays f.time (fail (some b) f.time f.never f.ip) (keep_failure u f)
unfolding fail keep_failure
fail-Stays t b u f h q w = elim (Bool-cases (text_eq f.ip [] || f.never)) [
  | inl e ↦ rw e (
    record {
      same_limits = q.same_limits;
      keys = q.keys;
      same = λ ip. Same-later b.limits t f.time _ _ h (q.same ip);
    },
    omega arith,
  )
  | inr e ↦ rw e (
    count-Unnoticed f.time (sweep b f.time) u f.ip (sweep-Unnoticed t f.time b u h (omega arith) q),
    rw (limits-sweep b f.time) (omega arith),
  )
]

all-Stays :
    (fs : List Failure) (t : ℕ) (b u : IpBan)
    → Ascending t fs
    → Unnoticed t b u
    → b.limits.window ≤ t
    → Stays (last_time t fs) (fail_all (some b) fs) (keep_all u fs)
unfolding fail_all keep_all
all-Stays [] t b u a q w = (q, w)
all-Stays (f ∷ fs) t b u a q w =
    go (fail (some b) f.time f.never f.ip) (fail-Stays t b u f a.0 q w)
      (λ c. all-Stays fs f.time c _ a.1)
  where
    go :
        (o : Option IpBan)
        → Stays f.time o (keep_failure u f)
        → ((c : IpBan)
            → Unnoticed f.time c (keep_failure u f)
            → c.limits.window ≤ f.time
            → Stays (last_time f.time fs) (fail_all (some c) fs) (keep_all (keep_failure u f) fs))
        → Stays (last_time f.time fs) (fail_all o fs) (keep_all (keep_failure u f) fs)
    go none h rest = absurd h
    go (some c) h rest = rest c h.0 h.1

until-or_new : (o : Option BanRecord) (now : ℕ) → until o now ≡ before now (or_new o).banned_until
until-or_new none now = ground arith
until-or_new (some r) now = refl

Stays-banned :
    (t now : ℕ) (ip : Text) (o : Option IpBan) (u : IpBan)
    → t ≤ now
    → Stays t o u
    → banned o now ip ≡ banned (some u) now ip
unfolding banned
Stays-banned t now ip none u h q = absurd q
Stays-banned t now ip (some b) u h q =
    until-or_new (lookup ip b.sources) now
    ∙ until-Same b.limits now _ _ (Same-later b.limits t now _ _ h (q.0.same ip))
    ∙ sym (until-or_new (lookup ip u.sources) now)

new-Same : (l : Limits) (t : ℕ) → Same l t new_record new_record
new-Same l t = record {
  same_bans = inl (refl, refl);
  same_window = inl (refl, refl);
  calm = λ _. omega arith;
}

-- The list that forgets old sources bans at every moment exactly the sources that the list which
-- forgets none bans: from a list with no source yet, for every sequence of failures at times that do
-- not fall and lie at least a window after the zero time, at every later moment.
pub fail_all-refines :
    (b : IpBan) (t now : ℕ) (fs : List Failure) (ip : Text)
    → b.sources ≡ []
    → b.limits.window ≤ t
    → Ascending t fs
    → last_time t fs ≤ now
    → banned (fail_all (some b) fs) now ip ≡ banned (some (keep_all b fs)) now ip
unfolding lookup
fail_all-refines b t now fs ip e w a h =
    Stays-banned (last_time t fs) now ip _ _ h (all-Stays fs t b b a start w)
  where
    start : Unnoticed t b b
    start = record {
      same_limits = refl;
      keys = rw e tt;
      same = λ j. rw (e, lookup) (new-Same b.limits t);
    }
