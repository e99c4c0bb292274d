-- ===== src/Registrar/Reap.antt =====
-- sbc/registrar.go: `reap` and the lookups that skip expired contacts.
use comcent_ce.Common.{
  ℕ, ◌≡◌, ◌≢◌, ◌↔◌, ◌∙◌, refl, sym, ap, List, [], ◌∷◌, some, arith, Text, Dict, lookup,
  lookup-store, DistinctKeys, IsAbsent, AllValues, lookup-IsAbsent, lookup_past, text_eq,
  text_eq_iff, keep, keep_idem, In, Bool-cases, inl, inr, ◌⊎◌,
}
use comcent_ce.Registrar.Contacts.{Contact, find_contact, remove_contact}
use comcent_ce.Registrar.{
  Registrar, contacts_of, or_nil, find, is_live, lookup_all, reap_entries, reap, unregister_contact,
}
use comcent_ce.Registrar.Invariant.{IsWellFormed, reap_entries-IsAbsent}

-- No list is empty, and every contact is live.
abbrev AllLive : ℕ → List Contact → Type 0
AllLive now cs = (cs ≢ []) × (keep (is_live now) cs ≡ cs)

list_cases :
    (cs : List Contact) → (cs ≡ []) ⊎ ((c : Contact) × (rest : List Contact) × (cs ≡ c ∷ rest))
list_cases [] = inl refl
list_cases (c ∷ rest) = inr (c, rest, refl)

module _ (now : ℕ) where
  lookup-reap_entries :
      (k : Text) (m : Dict (List Contact))
      → DistinctKeys m
      → or_nil (lookup k (reap_entries now m).0) ≡ keep (is_live now) (or_nil (lookup k m))
  unfolding or_nil lookup reap_entries
  lookup-reap_entries k [] d = refl
  lookup-reap_entries k ((aor, list) ∷ m) d = ground (
    arith,
    lookup-reap_entries k m d.1,
    text_eq_iff aor k,
    lookup-IsAbsent aor (reap_entries now m).0 (reap_entries-IsAbsent now aor m d.0),
    lookup-IsAbsent aor m d.0,
  )

  reap_entries-AllLive : (m : Dict (List Contact)) → AllValues (AllLive now) (reap_entries now m).0
  unfolding reap_entries
  reap_entries-AllLive [] = tt
  reap_entries-AllLive ((aor, list) ∷ m) = elim (list_cases (keep (is_live now) list)) [
    | inl e ↦ rw e (reap_entries-AllLive m)
    | inr (c, cs, e) ↦ rw e (
      ((λ q. cc), ap (keep (is_live now)) (sym e) ∙ keep_idem (is_live now) list ∙ e),
      reap_entries-AllLive m,
    )
  ]

  In-reap_entries :
      (k : Text) (cs : List Contact) (m : Dict (List Contact))
      → lookup k m ≡ some cs
      → keep (is_live now) cs ≡ []
      → In k (reap_entries now m).1
  unfolding lookup reap_entries
  In-reap_entries k cs [] e h = cc
  In-reap_entries k cs ((aor, list) ∷ m) e h = elim (Bool-cases (text_eq aor k)) [
    | inl q ↦
        let same : list ≡ cs = ground arith in
        let gone : keep (is_live now) list ≡ [] = ap (keep (is_live now)) same ∙ h in
        rw gone (inl (sym ((text_eq_iff aor k).0 q)))
    | inr q ↦ elim (list_cases (keep (is_live now) list)) [
      | inl n ↦ rw n (inr (In-reap_entries k cs m (rw q at e) h))
      | inr (c, rest, n) ↦ rw n (In-reap_entries k cs m (rw q at e) h)
    ]
  ]

  abbrev Emptied : Text → Dict (List Contact) → Type 0
  Emptied k m = (cs : List Contact) × (lookup k m ≡ some cs) × (keep (is_live now) cs ≡ [])

  further :
      (k aor : Text) (list : List Contact) (m : Dict (List Contact))
      → IsAbsent aor m
      → Emptied k m
      → Emptied k ((aor, list) ∷ m)
  further k aor list m h (cs, e, q) = (cs, lookup_past k aor cs list m h e, q)

  reap_entries_reported :
      (k : Text) (m : Dict (List Contact))
      → DistinctKeys m
      → In k (reap_entries now m).1
      → Emptied k m
  unfolding reap_entries
  reap_entries_reported k [] d h = absurd h
  reap_entries_reported k ((aor, list) ∷ m) d h = elim (list_cases (keep (is_live now) list)) [
    | inl n ↦
        let h' : In k (aor ∷ (reap_entries now m).1) = rw n at h in
        elim h' [
          | inl e ↦ (list, unfold lookup in rw ((text_eq_iff aor k).1 (sym e)), n)
          | inr r ↦ further k aor list m d.0 (reap_entries_reported k m d.1 r)
        ]
    | inr (c, rest, n) ↦ further k aor list m d.0 (reap_entries_reported k m d.1 (rw n at h))
  ]

-- In a well-formed registrar `reap` leaves every AOR exactly the contacts that were live, so that no
-- lookup at that time can tell the difference.
contacts_of-reap :
    (r : Registrar) (now : ℕ) (aor : Text)
    → IsWellFormed r
    → contacts_of (reap r now).0 aor ≡ lookup_all r now aor
unfolding contacts_of lookup_all reap
contacts_of-reap r now aor w = lookup-reap_entries now aor r.contacts w.keys

-- After `reap` every AOR in the map has a contact, and all of its contacts are live.
reap-AllLive : (r : Registrar) (now : ℕ) → AllValues (AllLive now) (reap r now).0.contacts
unfolding reap
reap-AllLive r now = reap_entries-AllLive now r.contacts

-- In a well-formed registrar `reap` reports exactly the AORs that were in the map with no live
-- contact.
reap-reports :
    (r : Registrar) (now : ℕ) (aor : Text)
    → IsWellFormed r
    → In aor (reap r now).1
      ↔ ((cs : List Contact) × (lookup aor r.contacts ≡ some cs) × (lookup_all r now aor ≡ []))
unfolding reap lookup_all contacts_of
reap-reports r now aor w = (
  λ h.
      let (cs, e, q) = reap_entries_reported now aor r.contacts w.keys h in
      (cs, e, rw (e, contacts_of) q),
  λ (cs, e, q). In-reap_entries now aor cs r.contacts e (rw (e, contacts_of) at q),
)

lookup-unregister_contact :
    (r : Registrar) (aor address : Text) (c : Contact)
    → lookup aor r.contacts ≡ some (c ∷ [])
    → c.address ≡ address
    → lookup aor (unregister_contact r aor address).contacts ≡ some []
unfolding unregister_contact find contacts_of find_contact remove_contact
lookup-unregister_contact r aor address c e a =
    ground (
      arith,
      lookup-store aor aor [] r.contacts,
      text_eq_iff aor aor,
      text_eq_iff c.address address,
    )

-- A client that unregisters the only contact of its AOR leaves the AOR in the map with no contact, so
-- that the next `reap` reports it as lapsed, whenever that is and whenever the contact would have
-- expired.
pub reap-unregister_contact :
    (r : Registrar) (aor address : Text) (now : ℕ) (c : Contact)
    → lookup aor r.contacts ≡ some (c ∷ [])
    → c.address ≡ address
    → In aor (reap (unregister_contact r aor address) now).1
unfolding reap
reap-unregister_contact r aor address now c e a =
    In-reap_entries now aor [] (unregister_contact r aor address).contacts
      (lookup-unregister_contact r aor address c e a) refl
