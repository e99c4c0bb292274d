-- ===== src/Registrar/Laws.antt =====
-- sbc/registrar.go and sbc/nat_keepalive.go: what each method changes, stated for every AOR and every
-- address.
use comcent_ce.Common.{
  List, ◌≡◌, ◌&&◌, Option, none, some, arith, Text, store, lookup-store, lookup-delete, text_eq,
  text_eq_iff, if◌then◌else◌, Option-cases, inl, inr,
}
use comcent_ce.Registrar.Contacts.{
  Contact, Distinct, find_contact, replace_contact, remove_contact, update_contact, find-replace,
  find-remove, find-update, find-address,
}
use comcent_ce.Registrar.{
  Registrar, contacts_of, find, register, unregister, unregister_contact, ping_answered,
}

-- The contacts of one AOR are replaced.
pub find-store :
    (r : Registrar) (aor : Text) (cs : List Contact) (b address : Text)
    → find (record r { contacts = store aor cs r.contacts }) b address
      ≡ (if text_eq aor b then find_contact address cs else find r b address)
unfolding find
find-store r aor cs b address = ground (arith, lookup-store aor b cs r.contacts)

-- A registration is found at its address from then on, in place of what was there; every other
-- contact of every AOR is as before.
pub find-register :
    (r : Registrar) (aor : Text) (c : Contact) (b address : Text)
    → find (register r aor c) b address
      ≡ (if text_eq aor b && text_eq c.address address then some c else find r b address)
unfolding register find
find-register r aor c b address = ground (
  arith,
  find-store r aor (replace_contact c (contacts_of r aor)) b address,
  find-replace address c (contacts_of r aor),
  text_eq_iff aor b,
)

-- After an unregistration no contact of the AOR is found; those of every other AOR are as before.
find-unregister :
    (r : Registrar) (aor b address : Text)
    → find (unregister r aor) b address ≡ (if text_eq aor b then none else find r b address)
unfolding find unregister find_contact
find-unregister r aor b address = ground (arith, lookup-delete aor b r.contacts)

-- Where the contacts of the AOR have distinct addresses, removing one leaves exactly the others.
find-unregister_contact :
    (r : Registrar) (aor a b address : Text)
    → Distinct (contacts_of r aor)
    → find (unregister_contact r aor a) b address
      ≡ (if text_eq aor b && text_eq a address then none else find r b address)
unfolding unregister_contact find
find-unregister_contact r aor a b address d = ground (
  arith,
  find-store r aor (remove_contact a (contacts_of r aor)) b address,
  find-remove address a (contacts_of r aor) d,
  text_eq_iff aor b,
  text_eq_iff a address,
)

abbrev reset : Option Contact → Option Contact
reset none = none
reset (some c) = some (record c { missed_pings = 0 })

-- An answered ping clears the missed pings of its contact, if it is still registered, and changes
-- nothing else.
find-ping_answered :
    (r : Registrar) (aor a b address : Text)
    → find (ping_answered r aor a) b address
      ≡ (if text_eq aor b && text_eq a address then reset (find r b address) else find r b address)
unfolding ping_answered find
find-ping_answered r aor a b address = elim (Option-cases (find r aor a)) [
  | inl e ↦ ground (arith, text_eq_iff aor b, text_eq_iff a address)
  | inr (c, e) ↦
      let new : Contact = record c { missed_pings = 0 } in
      let cs = contacts_of r aor in
      ground (
        arith,
        find-store r aor (update_contact a new cs) b address,
        find-update address a new c cs e (find-address a c cs e),
        text_eq_iff aor b,
        text_eq_iff a address,
      )
]
