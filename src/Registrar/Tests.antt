-- ===== src/Registrar/Tests.antt =====
-- sbc/registrar.go and sbc/nat_keepalive.go: runs of the registrar.
use comcent_ce.Common.{
  ℕ, ◌+◌, ◌<◌, ◌≡◌, ◌↔◌, refl, Bool, true, false, ◌&&◌, List, [], ◌∷◌, Option, none, some, arith,
  Text, text, text_eq, lookup, ltb, In, inl, inr, if◌then◌else◌,
}
use comcent_ce.Common.Int.{pos}
use comcent_ce.Fixtures.{alice, bob, home, office, phone, browser}
use comcent_ce.Registrar.Contacts.{Contact, Distinct}
use comcent_ce.Registrar.{
  Registrar, new_registrar, contacts_of, find, register, unregister_contact, lookup_all,
  is_registered, has_source_ip, is_live, reap, ping_missed, nat_contacts,
}
use comcent_ce.Registrar.Laws.{find-register}
use comcent_ce.Registrar.Invariant.{
  Call, registers, misses, step, run, IsWellFormed, run-IsWellFormed,
}
use comcent_ce.Registrar.Keepalive.{miss_times, find-miss_times}
use comcent_ce.Registrar.Reap.{reap-unregister_contact}

abbrev calls : List Call
calls = registers alice phone ∷ registers alice browser ∷ misses bob home (pos 3) ∷ []

abbrev two : Registrar
two = run new_registrar calls

abbrev one : Registrar
one = run new_registrar (registers alice phone ∷ [])

two-IsWellFormed : IsWellFormed two
two-IsWellFormed = run-IsWellFormed calls

lookup_all-two : lookup_all two 70 alice ≡ phone ∷ []
unfolding lookup_all contacts_of run step register ping_missed find lookup
    comcent_ce.Registrar.Contacts.find_contact comcent_ce.Common.store new_registrar text_eq
    comcent_ce.Registrar.Contacts.replace_contact
lookup_all-two = refl

reap-two : (reap two 120).1 ≡ alice ∷ []
unfolding reap run step register ping_missed find contacts_of
    comcent_ce.Registrar.Contacts.find_contact lookup comcent_ce.Common.store new_registrar text_eq
    comcent_ce.Registrar.Contacts.replace_contact
reap-two = refl

has_source_ip-two : has_source_ip two 70 (text "198.51.100.9") ≡ false
unfolding has_source_ip run step register ping_missed find contacts_of
    comcent_ce.Registrar.Contacts.find_contact lookup comcent_ce.Common.store new_registrar text_eq
    comcent_ce.Registrar.Contacts.replace_contact comcent_ce.Go.Net.split_host_port
    comcent_ce.Go.Strings.cut_last_byte comcent_ce.Go.Strings.contains_byte
has_source_ip-two = refl

find-register_example : find (register two bob phone) alice office ≡ (
    if text_eq bob alice && text_eq phone.address office then some phone else find two alice office)
find-register_example = find-register two bob phone alice office

run-IsWellFormed_example : IsWellFormed (run new_registrar calls)
run-IsWellFormed_example = run-IsWellFormed calls

find-miss_times_example :
    find (miss_times 3 one alice home (pos 3)) alice home
    ≡ (if ltb 3 3 then some (record phone { missed_pings = 3 }) else none)
unfolding run step register find contacts_of comcent_ce.Registrar.Contacts.find_contact lookup
    comcent_ce.Common.store new_registrar text_eq comcent_ce.Registrar.Contacts.replace_contact
find-miss_times_example =
    find-miss_times 3 one alice home 3 phone (run-IsWellFormed (registers alice phone ∷ []))
      (omega arith) refl refl

reap-unregister_contact_example : In alice (reap (unregister_contact one alice home) 20).1
unfolding run step register find contacts_of lookup comcent_ce.Common.store new_registrar text_eq
    comcent_ce.Registrar.Contacts.replace_contact
reap-unregister_contact_example = reap-unregister_contact one alice home 20 phone refl refl
