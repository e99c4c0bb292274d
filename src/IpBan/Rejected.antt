-- ===== src/IpBan/Rejected.antt =====
-- sbc/ip_ban.go: `rejectedCalls`, the INVITEs that the controller turned away itself.
use comcent_ce.Common.{
  ℕ, ◌+◌, ◌≤◌, ◌≡◌, refl, Bool, true, false, not, [], ◌∷◌, Option, none, some, arith, Text, Dict,
  lookup, store, lookup-store, DistinctKeys, IsAbsent, lookup-IsAbsent, text_eq, text_eq_iff, ltb,
  if◌then◌else◌,
}
use comcent_ce.Clock.{since_at_least, minute}

-- The map is made at the first call of `add`; a map that is not made yet is empty here.
pub record RejectedCalls : Type 0 where
  pub ids : Dict ℕ
  pub last_sweep : ℕ

abbrev rejected_call_ttl : ℕ
rejected_call_ttl = minute

drop_old : ℕ → Dict ℕ → Dict ℕ
drop_old now [] = []
drop_old now ((id, at) ∷ m) =
    let rest = drop_old now m in
    if since_at_least now at rejected_call_ttl then rest else (id, at) ∷ rest

sweep_old : RejectedCalls → ℕ → RejectedCalls
unfolding drop_old
sweep_old r now =
    if since_at_least now r.last_sweep rejected_call_ttl
    then record { ids = drop_old now r.ids; last_sweep = now }
    else r

remember : RejectedCalls → ℕ → Text → RejectedCalls
remember r now id = record r { ids = store id now r.ids }

-- `call_id` is the request's Call-ID, if it has one.
pub add_rejected : RejectedCalls → ℕ → Bool → Option Text → RejectedCalls
unfolding sweep_old remember
add_rejected r now is_invite none = r
add_rejected r now is_invite (some id) = if is_invite then remember (sweep_old r now) now id else r

abbrev recent : Option ℕ → ℕ → Bool
recent none now = false
recent (some at) now = not (since_at_least now at rejected_call_ttl)

has_rejected : RejectedCalls → ℕ → Text → Bool
has_rejected r now id = recent (lookup id r.ids) now

drop_old-IsAbsent : (now : ℕ) (k : Text) (m : Dict ℕ) → IsAbsent k m → IsAbsent k (drop_old now m)
unfolding drop_old
drop_old-IsAbsent now k [] h = tt
drop_old-IsAbsent now k ((id, at) ∷ m) h = ground (arith, drop_old-IsAbsent now k m h.1)

drop_old-DistinctKeys : (now : ℕ) (m : Dict ℕ) → DistinctKeys m → DistinctKeys (drop_old now m)
unfolding drop_old
drop_old-DistinctKeys now [] d = tt
drop_old-DistinctKeys now ((id, at) ∷ m) d =
    ground (arith, drop_old-DistinctKeys now m d.1, drop_old-IsAbsent now id m d.0)

-- What `drop_old` forgets was no longer recent.
recent-drop_old :
    (now later : ℕ) (k : Text) (m : Dict ℕ)
    → now ≤ later
    → DistinctKeys m
    → recent (lookup k (drop_old now m)) later ≡ recent (lookup k m) later
unfolding drop_old lookup
recent-drop_old now later k [] h d = refl
recent-drop_old now later k ((id, at) ∷ m) h d = ground (
  arith,
  recent-drop_old now later k m h d.1,
  text_eq_iff id k,
  lookup-IsAbsent id (drop_old now m) (drop_old-IsAbsent now id m d.0),
  lookup-IsAbsent id m d.0,
)

recent-sweep_old :
    (r : RejectedCalls) (now later : ℕ) (k : Text)
    → now ≤ later
    → DistinctKeys r.ids
    → recent (lookup k (sweep_old r now).ids) later ≡ recent (lookup k r.ids) later
unfolding sweep_old
recent-sweep_old r now later k h d = ground (arith, recent-drop_old now later k r.ids h d)

-- An INVITE turned away at `now` is remembered for less than a minute from then on, and the sweep on
-- the way takes no other call's mark: at every later moment the other calls are answered as before.
-- No call is marked twice before.
has-add_rejected :
    (r : RejectedCalls) (now later : ℕ) (id k : Text)
    → now ≤ later
    → DistinctKeys r.ids
    → has_rejected (add_rejected r now true (some id)) later k
      ≡ (if text_eq id k then ltb later (now + rejected_call_ttl) else has_rejected r later k)
unfolding has_rejected add_rejected
has-add_rejected r now later id k h d =
    ground (arith, lookup-store id k now (sweep_old r now).ids, recent-sweep_old r now later k h d)
