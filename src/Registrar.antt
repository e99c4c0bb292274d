-- ===== src/Registrar.antt =====
-- sbc/registrar.go, and the registrar's part of sbc/nat_keepalive.go. A method takes the registrar
-- and returns the new one; `now` is the value of time.Now() in the call. Every method holds the
-- lock for its whole body, so a call is one step. A contact is found by its address, which stands
-- for the pointer that the Go code compares: the first contact of an AOR with that address.
mod Tests
pub mod Contacts
pub mod Laws
pub mod Invariant
pub mod Keepalive
pub mod Reap
pub mod Lookups
use comcent_ce.Common.{
  ℕ, ◌+◌, Bool, true, false, ◌&&◌, List, [], ◌∷◌, ◌++◌, Option, none, some, Text, Dict, lookup,
  store, delete, text_eq, ltb, length, keep, any, if◌then◌else◌,
}
use comcent_ce.Common.Int.{ℤ, pos, ltb_ℤ}
use comcent_ce.Clock.{before}
use comcent_ce.Go.Net.{split_host_port}
use comcent_ce.Sip.{Uri}
use Contacts.{Contact, replace_contact, remove_contact, update_contact, find_contact}

pub record Registrar : Type 0 where
  pub contacts : Dict (List Contact)

pub new_registrar : Registrar
new_registrar = record { contacts = [] }

pub or_nil : Option (List Contact) → List Contact
or_nil none = []
or_nil (some cs) = cs

-- r.contacts[aor], which is nil for a key that is not there.
pub contacts_of : Registrar → Text → List Contact
unfolding or_nil
contacts_of r aor = or_nil (lookup aor r.contacts)

pub register : Registrar → Text → Contact → Registrar
unfolding contacts_of
register r aor c = record r {
  contacts = store aor (replace_contact c (contacts_of r aor)) r.contacts;
}

pub unregister : Registrar → Text → Registrar
unregister r aor = record r { contacts = delete aor r.contacts }

pub find : Registrar → Text → Text → Option Contact
unfolding contacts_of
find r aor address = find_contact address (contacts_of r aor)

pub unregister_contact : Registrar → Text → Text → Registrar
unregister_contact r aor address = elim (find r aor address) [
  | none ↦ r
  | some c ↦ record r {
    contacts = store aor (remove_contact address (contacts_of r aor)) r.contacts;
  }
]

abbrev pub is_live : ℕ → Contact → Bool
is_live now c = before now c.expires_at

unfoldable pub lookup_all : Registrar → ℕ → Text → List Contact
unfolding contacts_of
lookup_all r now aor = keep (is_live now) (contacts_of r aor)

abbrev same_type : Bool → Contact → Bool
same_type true c = c.is_webrtc
same_type false c = if c.is_webrtc then false else true

unfoldable pub lookup_by_type : Registrar → ℕ → Text → Bool → List Contact
unfolding lookup_all
lookup_by_type r now aor webrtc = keep (same_type webrtc) (lookup_all r now aor)

pub is_registered : Registrar → ℕ → Text → Bool
unfolding lookup_all
is_registered r now aor = ltb 0 (length (lookup_all r now aor))

abbrev from_host : Text → Option (Text × Text) → Bool
from_host ip none = false
from_host ip (some (host, port)) = text_eq host ip

pub came_from : Text → ℕ → Contact → Bool
came_from ip now c = from_host ip (split_host_port c.address) && before now c.expires_at

pub has_source_ip : Registrar → ℕ → Text → Bool
unfolding came_from
has_source_ip r now ip = any (λ e. any (came_from ip now) e.1) r.contacts

-- One round of the loop of `reap`, in front of the rounds that follow.
abbrev reap_entry :
    Text → List Contact → Dict (List Contact) × List Text → Dict (List Contact) × List Text
reap_entry aor [] (kept, emptied) = (kept, aor ∷ emptied)
reap_entry aor (c ∷ cs) (kept, emptied) = ((aor, c ∷ cs) ∷ kept, emptied)

pub reap_entries : ℕ → Dict (List Contact) → Dict (List Contact) × List Text
reap_entries now [] = ([], [])
reap_entries now ((aor, list) ∷ m) = reap_entry aor (keep (is_live now) list) (reap_entries now m)

pub reap : Registrar → ℕ → Registrar × List Text
unfolding reap_entries
reap r now =
    let (kept, emptied) = reap_entries now r.contacts in (record r { contacts = kept }, emptied)

pub ping_answered : Registrar → Text → Text → Registrar
ping_answered r aor address = elim (find r aor address) [
  | none ↦ r
  | some c ↦ record r {
    contacts =
        store aor (update_contact address (record c { missed_pings = 0 }) (contacts_of r aor))
          r.contacts;
  }
]

-- r.contacts after the contact was taken out of its list, with the method's result.
abbrev drop_or_keep : Registrar → Text → List Contact → Registrar × Bool
drop_or_keep r aor [] = (record r { contacts = delete aor r.contacts }, true)
drop_or_keep r aor (c ∷ cs) = (record r { contacts = store aor (c ∷ cs) r.contacts }, false)

pub ping_missed : Registrar → Text → Text → ℤ → Registrar × Bool
ping_missed r aor address max_missed = elim (find r aor address) [
  | none ↦ (r, false)
  | some c ↦
      if ltb_ℤ (pos (c.missed_pings + 1)) max_missed
      then (
        record r {
          contacts =
              store aor
                (update_contact address (record c { missed_pings = c.missed_pings + 1 })
                  (contacts_of r aor))
                r.contacts;
        },
        false,
      )
      else drop_or_keep r aor (remove_contact address (contacts_of r aor))
]

pub record NatContact : Type 0 where
  pub aor : Text
  pub uri : Uri
  pub address : Text

module _ (parse_uri : Text → Option Uri) where
  -- The contacts of one AOR that are pinged.
  nat_contacts_in : ℕ → Text → List Contact → List NatContact
  nat_contacts_in now aor [] = []
  nat_contacts_in now aor (c ∷ cs) =
      let rest = nat_contacts_in now aor cs in
      if c.nat && before now c.expires_at
      then elim (parse_uri c.uri) [
        | none ↦ rest
        | some uri ↦ record { aor = aor; uri = uri; address = c.address } ∷ rest
      ]
      else rest

  nat_contacts_entries : ℕ → Dict (List Contact) → List NatContact
  nat_contacts_entries now [] = []
  nat_contacts_entries now ((aor, list) ∷ m) =
      nat_contacts_in now aor list ++ nat_contacts_entries now m

  pub nat_contacts : Registrar → ℕ → List NatContact
  unfolding nat_contacts_in nat_contacts_entries
  nat_contacts r now = nat_contacts_entries now r.contacts
