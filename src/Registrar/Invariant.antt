-- ===== src/Registrar/Invariant.antt =====
-- sbc/registrar.go and sbc/nat_keepalive.go: sequences of calls, and the addresses of an AOR's contacts.
use comcent_ce.Common.{
  ◌+◌, ℕ, ◌≡◌, List, [], ◌∷◌, some, arith, Text, Dict, lookup, store, DistinctKeys, AllValues,
  store-DistinctKeys, delete-DistinctKeys, AllValues-lookup, AllValues-store, AllValues-delete,
  Option-cases, inl, inr, IsAbsent, Bool-cases,
}
use comcent_ce.Common.Int.{ℤ, pos, ltb_ℤ}
use comcent_ce.Registrar.Contacts.{
  Contact, Distinct, update_contact, find-address, replace-Distinct, remove-Distinct,
  update-Distinct, keep-Distinct,
}
use comcent_ce.Registrar.{
  Registrar, new_registrar, contacts_of, find, register, unregister, unregister_contact, is_live,
  reap_entries, reap, ping_answered, drop_or_keep, ping_missed,
}

-- Every AOR has one list of contacts, and these have distinct addresses.
pub record IsWellFormed (r : Registrar) : Type 0 where
  pub keys : DistinctKeys r.contacts
  pub addresses : AllValues Distinct r.contacts

pub contacts_of-Distinct :
    (r : Registrar) (aor : Text) → IsWellFormed r → Distinct (contacts_of r aor)
unfolding contacts_of
contacts_of-Distinct r aor w = elim (Option-cases (lookup aor r.contacts)) [
  | inl e ↦ rw (e, contacts_of) tt
  | inr (cs, e) ↦ rw (e, contacts_of) (AllValues-lookup Distinct aor cs r.contacts w.addresses e)
]

store-IsWellFormed :
    (r : Registrar) (aor : Text) (cs : List Contact)
    → IsWellFormed r
    → Distinct cs
    → IsWellFormed (record r { contacts = store aor cs r.contacts })
store-IsWellFormed r aor cs w d = record {
  keys = store-DistinctKeys aor cs r.contacts w.keys;
  addresses = AllValues-store Distinct aor cs r.contacts w.addresses d;
}

unregister-IsWellFormed :
    (r : Registrar) (aor : Text) → IsWellFormed r → IsWellFormed (unregister r aor)
unfolding unregister
unregister-IsWellFormed r aor w = record {
  keys = delete-DistinctKeys aor r.contacts w.keys;
  addresses = AllValues-delete Distinct aor r.contacts w.addresses;
}

register-IsWellFormed :
    (r : Registrar) (aor : Text) (c : Contact) → IsWellFormed r → IsWellFormed (register r aor c)
unfolding register
register-IsWellFormed r aor c w =
    store-IsWellFormed r aor _ w (replace-Distinct c _ (contacts_of-Distinct r aor w))

unregister_contact-IsWellFormed :
    (r : Registrar) (aor a : Text) → IsWellFormed r → IsWellFormed (unregister_contact r aor a)
unfolding unregister_contact
unregister_contact-IsWellFormed r aor a w = elim (Option-cases (find r aor a)) [
  | inl e ↦ rw (e, unregister_contact) w
  | inr (c, e) ↦
      rw (e, unregister_contact)
        (store-IsWellFormed r aor _ w (remove-Distinct a _ (contacts_of-Distinct r aor w)))
]

update-IsWellFormed :
    (r : Registrar) (aor a : Text) (c : Contact) (missed : ℕ)
    → find r aor a ≡ some c
    → IsWellFormed r
    → IsWellFormed (record r {
      contacts =
          store aor
            (update_contact a (record c { missed_pings = missed }) (contacts_of r aor))
            r.contacts;
    })
unfolding find
update-IsWellFormed r aor a c missed e w =
    store-IsWellFormed r aor _ w
      (update-Distinct a _ c _ e (find-address a c _ e) (contacts_of-Distinct r aor w))

ping_answered-IsWellFormed :
    (r : Registrar) (aor a : Text) → IsWellFormed r → IsWellFormed (ping_answered r aor a)
unfolding ping_answered
ping_answered-IsWellFormed r aor a w = elim (Option-cases (find r aor a)) [
  | inl e ↦ rw (e, ping_answered) w
  | inr (c, e) ↦ rw (e, ping_answered) (update-IsWellFormed r aor a c 0 e w)
]

drop_or_keep-IsWellFormed :
    (r : Registrar) (aor : Text) (cs : List Contact)
    → IsWellFormed r
    → Distinct cs
    → IsWellFormed (drop_or_keep r aor cs).0
drop_or_keep-IsWellFormed r aor [] w d = record {
  keys = delete-DistinctKeys aor r.contacts w.keys;
  addresses = AllValues-delete Distinct aor r.contacts w.addresses;
}
drop_or_keep-IsWellFormed r aor (c ∷ cs) w d = store-IsWellFormed r aor (c ∷ cs) w d

pub ping_missed-IsWellFormed :
    (r : Registrar) (aor a : Text) (max_missed : ℤ)
    → IsWellFormed r
    → IsWellFormed (ping_missed r aor a max_missed).0
unfolding ping_missed
ping_missed-IsWellFormed r aor a max_missed w = elim (Option-cases (find r aor a)) [
  | inl e ↦ rw (e, ping_missed) w
  | inr (c, e) ↦ elim (Bool-cases (ltb_ℤ (pos (c.missed_pings + 1)) max_missed)) [
    | inl t ↦ rw (e, ping_missed, t) (update-IsWellFormed r aor a c (c.missed_pings + 1) e w)
    | inr t ↦
        rw (e, ping_missed, t)
          (drop_or_keep-IsWellFormed r aor _ w (remove-Distinct a _ (contacts_of-Distinct r aor w)))
  ]
]

pub reap_entries-IsAbsent :
    (now : ℕ) (k : Text) (m : Dict (List Contact))
    → IsAbsent k m
    → IsAbsent k (reap_entries now m).0
unfolding reap_entries
reap_entries-IsAbsent now k [] h = tt
reap_entries-IsAbsent now k ((aor, list) ∷ m) h = ground (arith, reap_entries-IsAbsent now k m h.1)

reap_entries-DistinctKeys :
    (now : ℕ) (m : Dict (List Contact)) → DistinctKeys m → DistinctKeys (reap_entries now m).0
unfolding reap_entries
reap_entries-DistinctKeys now [] d = tt
reap_entries-DistinctKeys now ((aor, list) ∷ m) d =
    ground (arith, reap_entries-DistinctKeys now m d.1, reap_entries-IsAbsent now aor m d.0)

reap_entries-Distinct :
    (now : ℕ) (m : Dict (List Contact))
    → AllValues Distinct m
    → AllValues Distinct (reap_entries now m).0
unfolding reap_entries
reap_entries-Distinct now [] d = tt
reap_entries-Distinct now ((aor, list) ∷ m) d =
    ground (arith, reap_entries-Distinct now m d.1, keep-Distinct (is_live now) list d.0)

reap-IsWellFormed : (r : Registrar) (now : ℕ) → IsWellFormed r → IsWellFormed (reap r now).0
unfolding reap
reap-IsWellFormed r now w = record {
  keys = reap_entries-DistinctKeys now r.contacts w.keys;
  addresses = reap_entries-Distinct now r.contacts w.addresses;
}

-- The calls that change the registrar, in the order in which they take its lock.
pub data Call : Type 0 where
  registers : Text → Contact → Call
  unregisters : Text → Call
  unregisters_contact : Text → Text → Call
  reaps : ℕ → Call
  answers : Text → Text → Call
  misses : Text → Text → ℤ → Call

unfoldable pub step : Registrar → Call → Registrar
step r (registers aor c) = register r aor c
step r (unregisters aor) = unregister r aor
step r (unregisters_contact aor a) = unregister_contact r aor a
step r (reaps now) = (reap r now).0
step r (answers aor a) = ping_answered r aor a
step r (misses aor a max_missed) = (ping_missed r aor a max_missed).0

unfoldable pub run : Registrar → List Call → Registrar
run r [] = r
run r (c ∷ cs) = run (step r c) cs

step-IsWellFormed : (r : Registrar) (c : Call) → IsWellFormed r → IsWellFormed (step r c)
unfolding step
step-IsWellFormed r (registers aor c) w = register-IsWellFormed r aor c w
step-IsWellFormed r (unregisters aor) w = unregister-IsWellFormed r aor w
step-IsWellFormed r (unregisters_contact aor a) w = unregister_contact-IsWellFormed r aor a w
step-IsWellFormed r (reaps now) w = reap-IsWellFormed r now w
step-IsWellFormed r (answers aor a) w = ping_answered-IsWellFormed r aor a w
step-IsWellFormed r (misses aor a max_missed) w = ping_missed-IsWellFormed r aor a max_missed w

run_from : (r : Registrar) (cs : List Call) → IsWellFormed r → IsWellFormed (run r cs)
unfolding run
run_from r [] w = w
run_from r (c ∷ cs) w = run_from (step r c) cs (step-IsWellFormed r c w)

-- After any sequence of calls on a new registrar, every AOR has one list of contacts, and no two of
-- its contacts have the same address.
pub run-IsWellFormed : (cs : List Call) → IsWellFormed (run new_registrar cs)
unfolding new_registrar
run-IsWellFormed cs = run_from _ cs (record { keys = tt; addresses = tt })
