-- ===== src/Registrar/Contacts.antt =====
-- sbc/registrar.go: a contact, and the loops over the contacts of one AOR.
use comcent_ce.Common.{
  ℕ, ◌≡◌, refl, Bool, List, [], ◌∷◌, Option, none, some, arith, Text, text_eq, text_eq_iff, keep,
  if◌then◌else◌,
}

pub record Contact : Type 0 where
  pub uri : Text
  pub address : Text
  pub transport : Text
  pub is_webrtc : Bool
  pub expires_at : ℕ
  pub nat : Bool
  pub missed_pings : ℕ

-- The loop of `find`.
unfoldable pub find_contact : Text → List Contact → Option Contact
find_contact address [] = none
find_contact address (c ∷ cs) =
    if text_eq c.address address then some c else find_contact address cs

-- The loop of `Register`: replace the contact with the same address, or append.
unfoldable pub replace_contact : Contact → List Contact → List Contact
replace_contact c [] = c ∷ []
replace_contact c (existing ∷ cs) =
    if text_eq existing.address c.address then c ∷ cs else existing ∷ replace_contact c cs

-- append(list[:i], list[i+1:]...) at the first contact with the address.
unfoldable pub remove_contact : Text → List Contact → List Contact
remove_contact address [] = []
remove_contact address (c ∷ cs) =
    if text_eq c.address address then cs else c ∷ remove_contact address cs

-- A write through the pointer that `find` returns.
unfoldable pub update_contact : Text → Contact → List Contact → List Contact
update_contact address new [] = []
update_contact address new (c ∷ cs) =
    if text_eq c.address address then new ∷ cs else c ∷ update_contact address new cs

-- No two contacts of an AOR have the same address.
abbrev pub Distinct : List Contact → Type 0
Distinct [] = Unit {0}
Distinct (c ∷ cs) = (find_contact c.address cs ≡ none) × Distinct cs

pub find-replace :
    (a : Text) (c : Contact) (cs : List Contact)
    → find_contact a (replace_contact c cs)
      ≡ (if text_eq c.address a then some c else find_contact a cs)
unfolding find_contact replace_contact
find-replace a c [] = refl
find-replace a c (e ∷ cs) = ground (
  arith,
  find-replace a c cs,
  text_eq_iff c.address a,
  text_eq_iff e.address a,
  text_eq_iff e.address c.address,
)

pub find-remove :
    (a b : Text) (cs : List Contact)
    → Distinct cs
    → find_contact a (remove_contact b cs) ≡ (if text_eq b a then none else find_contact a cs)
unfolding find_contact remove_contact
find-remove a b [] d = ground arith
find-remove a b (c ∷ cs) d = ground (
  arith,
  find-remove a b cs d.1,
  text_eq_iff b a,
  text_eq_iff c.address a,
  text_eq_iff c.address b,
)

pub find-update :
    (a b : Text) (new c : Contact) (cs : List Contact)
    → find_contact b cs ≡ some c
    → new.address ≡ b
    → find_contact a (update_contact b new cs)
      ≡ (if text_eq b a then some new else find_contact a cs)
unfolding find_contact update_contact
find-update a b new c [] f e = cc
find-update a b new c (x ∷ cs) f e = ground (
  arith,
  find-update a b new c cs,
  text_eq_iff b a,
  text_eq_iff x.address a,
  text_eq_iff x.address b,
  text_eq_iff new.address a,
)

pub find-address :
    (a : Text) (c : Contact) (cs : List Contact) → find_contact a cs ≡ some c → c.address ≡ a
unfolding find_contact
find-address a c [] f = cc
find-address a c (x ∷ cs) f = ground (arith, find-address a c cs, text_eq_iff x.address a)

-- A contact stays unfound in a list from which contacts were taken out.
find-keep-none :
    (a : Text) (p : Contact → Bool) (cs : List Contact)
    → find_contact a cs ≡ none
    → find_contact a (keep p cs) ≡ none
unfolding find_contact
find-keep-none a p [] f = refl
find-keep-none a p (c ∷ cs) f = ground (arith, find-keep-none a p cs)

pub replace-Distinct :
    (c : Contact) (cs : List Contact) → Distinct cs → Distinct (replace_contact c cs)
unfolding replace_contact
replace-Distinct c [] d = (unfold find_contact in refl, tt)
replace-Distinct c (e ∷ cs) d = ground (
  arith,
  replace-Distinct c cs d.1,
  find-replace e.address c cs,
  text_eq_iff e.address c.address,
  text_eq_iff c.address e.address,
)

pub remove-Distinct : (a : Text) (cs : List Contact) → Distinct cs → Distinct (remove_contact a cs)
unfolding remove_contact
remove-Distinct a [] d = tt
remove-Distinct a (c ∷ cs) d =
    ground
      (arith, remove-Distinct a cs d.1, find-remove c.address a cs d.1, text_eq_iff a c.address)

pub update-Distinct :
    (a : Text) (new c : Contact) (cs : List Contact)
    → find_contact a cs ≡ some c
    → new.address ≡ a
    → Distinct cs
    → Distinct (update_contact a new cs)
unfolding update_contact find_contact
update-Distinct a new c [] f e d = tt
update-Distinct a new c (x ∷ cs) f e d = ground (
  arith,
  update-Distinct a new c cs,
  find-update x.address a new c cs,
  text_eq_iff x.address a,
  text_eq_iff a x.address,
)

pub keep-Distinct : (p : Contact → Bool) (cs : List Contact) → Distinct cs → Distinct (keep p cs)
keep-Distinct p [] d = tt
keep-Distinct p (c ∷ cs) d = ground (arith, keep-Distinct p cs d.1, find-keep-none c.address p cs)
