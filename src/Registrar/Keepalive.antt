-- ===== src/Registrar/Keepalive.antt =====
-- sbc/nat_keepalive.go: missed pings, one and several in a row.
use comcent_ce.Common.{
  ℕ, zero, suc, ◌+◌, ◌<◌, ◌≡◌, Bool, true, false, ◌&&◌, List, [], ◌∷◌, Option, none, some, arith,
  Text, lookup, store, lookup-delete, lookup-store, text_eq, text_eq_iff, ltb, ltb_iff, ap,
  if◌then◌else◌, Option-cases, Bool-cases, inl, inr,
}
use comcent_ce.Common.Int.{ℤ, pos, ltb_ℤ}
use comcent_ce.Registrar.Contacts.{
  Contact, find_contact, remove_contact, update_contact, find-remove, find-update, find-address,
}
use comcent_ce.Registrar.{Registrar, contacts_of, find, drop_or_keep, ping_missed}
use comcent_ce.Registrar.Laws.{find-store}
use comcent_ce.Registrar.Invariant.{IsWellFormed, contacts_of-Distinct, ping_missed-IsWellFormed}

find-drop_or_keep :
    (r : Registrar) (aor : Text) (cs : List Contact) (b address : Text)
    → find (drop_or_keep r aor cs).0 b address
      ≡ (if text_eq aor b then find_contact address cs else find r b address)
unfolding find find_contact
find-drop_or_keep r aor [] b address = ground (arith, lookup-delete aor b r.contacts)
find-drop_or_keep r aor (c ∷ cs) b address = find-store r aor (c ∷ cs) b address

-- What a missed ping leaves of the contact.
abbrev after_miss : ℤ → Option Contact → Option Contact
after_miss max_missed none = none
after_miss max_missed (some c) =
    if ltb_ℤ (pos (c.missed_pings + 1)) max_missed
    then some (record c { missed_pings = c.missed_pings + 1 })
    else none

module _ (r : Registrar) (aor a b address : Text) (c : Contact)
    (found : find r aor a ≡ some c) where
  counted :
      (missed : ℕ)
      → find
          (record r {
            contacts =
                store aor
                  (update_contact a (record c { missed_pings = missed }) (contacts_of r aor))
                  r.contacts;
          })
          b
          address
        ≡ (if text_eq aor b && text_eq a address
            then some (record c { missed_pings = missed })
            else find r b address)
  unfolding find
  counted missed =
      let new : Contact = record c { missed_pings = missed } in
      let cs = contacts_of r aor in
      ground (
        arith,
        find-store r aor (update_contact a new cs) b address,
        find-update address a new c cs found (find-address a c cs found),
        text_eq_iff aor b,
      )

  dropped :
      IsWellFormed r
      → find (drop_or_keep r aor (remove_contact a (contacts_of r aor))).0 b address
        ≡ (if text_eq aor b && text_eq a address then none else find r b address)
  unfolding find
  dropped w =
      let cs = contacts_of r aor in
      ground (
        arith,
        find-drop_or_keep r aor (remove_contact a cs) b address,
        find-remove address a cs (contacts_of-Distinct r aor w),
        text_eq_iff aor b,
      )

-- Where the registrar is well formed, a missed ping is counted on its contact, and takes it out if
-- that makes the limit; every other contact of every AOR is as before.
find-ping_missed :
    (r : Registrar) (aor a : Text) (max_missed : ℤ) (b address : Text)
    → IsWellFormed r
    → find (ping_missed r aor a max_missed).0 b address ≡ (
        if text_eq aor b && text_eq a address
        then after_miss max_missed (find r b address)
        else find r b address)
unfolding ping_missed
find-ping_missed r aor a max_missed b address w = elim (Option-cases (find r aor a)) [
  | inl e ↦ rw (e, ping_missed) (ground (arith, text_eq_iff aor b, text_eq_iff a address))
  | inr (c, e) ↦ elim (Bool-cases (ltb_ℤ (pos (c.missed_pings + 1)) max_missed)) [
    | inl t ↦
        rw (e, ping_missed, t)
          (ground (
            arith,
            counted r aor a b address c e (c.missed_pings + 1),
            text_eq_iff aor b,
            text_eq_iff a address,
          ))
    | inr t ↦
        rw (e, ping_missed, t)
          (ground
            (arith, dropped r aor a b address c e w, text_eq_iff aor b, text_eq_iff a address))
  ]
]

-- Whether an AOR has no entry in the map.
abbrev is_gone : Option (List Contact) → Bool
is_gone none = true
is_gone (some cs) = false

drop_or_keep-gone :
    (r : Registrar) (aor : Text) (cs : List Contact)
    → (drop_or_keep r aor cs).1 ≡ is_gone (lookup aor (drop_or_keep r aor cs).0.contacts)
drop_or_keep-gone r aor [] = ground (arith, lookup-delete aor aor r.contacts, text_eq_iff aor aor)
drop_or_keep-gone r aor (c ∷ cs) =
    ground (arith, lookup-store aor aor (c ∷ cs) r.contacts, text_eq_iff aor aor)

-- `pingMissed` reports true exactly when the contact was there and its AOR has no contact left.
ping_missed-reports :
    (r : Registrar) (aor a : Text) (max_missed : ℤ) (c : Contact)
    → find r aor a ≡ some c
    → (ping_missed r aor a max_missed).1
      ≡ is_gone (lookup aor (ping_missed r aor a max_missed).0.contacts)
unfolding ping_missed
ping_missed-reports r aor a max_missed c e =
    elim (Bool-cases (ltb_ℤ (pos (c.missed_pings + 1)) max_missed)) [
      | inl t ↦
          rw (e, ping_missed, t)
            (ground (
              arith,
              lookup-store aor aor
                  (update_contact a (record c { missed_pings = c.missed_pings + 1 })
                    (contacts_of r aor))
                  r.contacts,
              text_eq_iff aor aor,
            ))
      | inr t ↦
          rw (e, ping_missed, t) (drop_or_keep-gone r aor (remove_contact a (contacts_of r aor)))
    ]

-- `n` pings in a row that the contact does not answer.
pub miss_times : ℕ → Registrar → Text → Text → ℤ → Registrar
miss_times zero r aor a max_missed = r
miss_times (suc n) r aor a max_missed =
    (ping_missed (miss_times n r aor a max_missed) aor a max_missed).0

miss_times-IsWellFormed :
    (n : ℕ) (r : Registrar) (aor a : Text) (max_missed : ℤ)
    → IsWellFormed r
    → IsWellFormed (miss_times n r aor a max_missed)
unfolding miss_times
miss_times-IsWellFormed zero r aor a max_missed w = w
miss_times-IsWellFormed (suc n) r aor a max_missed w =
    ping_missed-IsWellFormed _ aor a max_missed (miss_times-IsWellFormed n r aor a max_missed w)

-- In a well-formed registrar a contact with no missed pings survives exactly the rows of misses that
-- are shorter than a positive limit, with the misses counted; from the limit on it is unregistered.
pub find-miss_times :
    (n : ℕ) (r : Registrar) (aor a : Text) (limit : ℕ) (c : Contact)
    → IsWellFormed r
    → 0 < limit
    → c.missed_pings ≡ 0
    → find r aor a ≡ some c
    → find (miss_times n r aor a (pos limit)) aor a
      ≡ (if ltb n limit then some (record c { missed_pings = n }) else none)
unfolding miss_times
find-miss_times zero r aor a limit c w h z e =
    rw ((ltb_iff 0 limit).1 h, e) (ap (λ (m : ℕ). some (record c { missed_pings = m })) z)
find-miss_times (suc n) r aor a limit c w h z e = ground (
  arith,
  find-ping_missed (miss_times n r aor a (pos limit)) aor a (pos limit) aor a
      (miss_times-IsWellFormed n r aor a (pos limit) w),
  find-miss_times n r aor a limit c w h z e,
  text_eq_iff aor aor,
  text_eq_iff a a,
)
