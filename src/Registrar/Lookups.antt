-- ===== src/Registrar/Lookups.antt =====
-- sbc/registrar.go: the questions that the proxy asks, against the contacts that are found one by one.
use comcent_ce.Common.{
  ℕ, ◌≡◌, ◌↔◌, refl, true, ◌&&◌, List, [], ◌∷◌, some, arith, Text, text_eq, text_eq_iff, keep, any,
  any_sound, any_complete, In, Bool-cases, Option-cases, inl, inr, ltb, length,
}
use comcent_ce.Clock.{before}
use comcent_ce.Go.Net.{split_host_port}
use comcent_ce.Registrar.Contacts.{Contact, Distinct, find_contact}
use comcent_ce.Registrar.{
  Registrar, contacts_of, find, is_live, is_registered, came_from, has_source_ip,
}
use comcent_ce.Registrar.Invariant.{IsWellFormed, contacts_of-Distinct}

module _ (now : ℕ) where
  live_found :
      (cs : List Contact)
      → ltb 0 (length (keep (is_live now) cs)) ≡ true
      → Distinct cs
      → (a : Text) × (c : Contact) × (find_contact a cs ≡ some c) × (is_live now c ≡ true)
  unfolding find_contact
  live_found [] h d = cc
  live_found (c ∷ cs) h d = elim (Bool-cases (is_live now c)) [
    | inl l ↦ (c.address, c, rw ((text_eq_iff c.address c.address).1 refl), l)
    | inr l ↦
        let (a, x, f, q) = live_found cs (ground arith) d.1 in
        (a, x, ground (arith, text_eq_iff c.address a), q)
  ]

  found_live :
      (a : Text) (c : Contact) (cs : List Contact)
      → find_contact a cs ≡ some c
      → is_live now c ≡ true
      → ltb 0 (length (keep (is_live now) cs)) ≡ true
  unfolding find_contact
  found_live a c [] f l = cc
  found_live a c (x ∷ cs) f l = ground (arith, found_live a c cs)

-- In a well-formed registrar an AOR counts as registered exactly when a contact of it can be found
-- that is live at the time.
is_registered_iff :
    (r : Registrar) (now : ℕ) (aor : Text)
    → IsWellFormed r
    → (is_registered r now aor ≡ true)
      ↔ ((a : Text) × (c : Contact) × (find r aor a ≡ some c) × (is_live now c ≡ true))
unfolding is_registered find
is_registered_iff r now aor w = (
  λ h. live_found now (contacts_of r aor) h (contacts_of-Distinct r aor w),
  λ (a, c, f, l). found_live now a c (contacts_of r aor) f l,
)

-- A contact of some AOR that registered from the host `ip` and is live.
abbrev pub LiveFrom : Registrar → ℕ → Text → Type 0
LiveFrom r now ip =
    (e : Text × List Contact) × In e r.contacts
    × (c : Contact) × In c e.1
    × (port : Text) × (split_host_port c.address ≡ some (ip, port))
    × (is_live now c ≡ true)

came_from_sound :
    (ip : Text) (now : ℕ) (c : Contact)
    → came_from ip now c ≡ true
    → (port : Text) × (split_host_port c.address ≡ some (ip, port)) × (is_live now c ≡ true)
unfolding came_from
came_from_sound ip now c h = elim (Option-cases (split_host_port c.address)) [
  | inl e ↦ cc (rw e at h)
  | inr ((host, port), e) ↦
      let h' : (text_eq host ip && before now c.expires_at) ≡ true = rw e at h in
      let same : host ≡ ip = (text_eq_iff host ip).0 (ground arith) in
      (port, rw e (rw same refl), ground arith)
]

came_from_complete :
    (ip port : Text) (now : ℕ) (c : Contact)
    → split_host_port c.address ≡ some (ip, port)
    → is_live now c ≡ true
    → came_from ip now c ≡ true
unfolding came_from
came_from_complete ip port now c e l = rw (e, (text_eq_iff ip ip).1 refl) l

-- `HasSourceIP` answers true exactly when some AOR has a live contact that registered from the host,
-- whatever the port.
pub has_source_ip_iff :
    (r : Registrar) (now : ℕ) (ip : Text) → (has_source_ip r now ip ≡ true) ↔ LiveFrom r now ip
unfolding has_source_ip
has_source_ip_iff r now ip = (
  λ h.
      let (e, m, q) =
        any_sound (λ (e : Text × List Contact). any (came_from ip now) e.1) r.contacts h in
      let (c, k, t) = any_sound (came_from ip now) e.1 q in
      let (port, p, l) = came_from_sound ip now c t in (e, m, c, k, port, p, l),
  λ (e, m, c, k, port, p, l).
      any_complete (λ (e : Text × List Contact). any (came_from ip now) e.1) e r.contacts m
        (any_complete (came_from ip now) c e.1 k (came_from_complete ip port now c p l)),
)
