-- ===== src/Proxy/Affinity/Sticky.antt =====
-- sbc/proxy.go: selectTargetForUsers behind saveAffinity.
use comcent_ce.Common.{
  ℕ, ◌%◌, ◌≡◌, ◌≢◌, ◌∙◌, inl, inr, refl, sym, false, In, List, [], ◌∷◌, ◌++◌, some, arith, Text,
  text, text_eq, text_eq_iff, Dict, lookup, store, lookup-store, Bool-cases,
}
use mathlib.Core.Bool.{true≢false}
use comcent_ce.Dispatcher.{Dispatcher}
use comcent_ce.Proxy.Affinity.{
  calls_of, first_target, affine_target, select_target_for_users, save_users, save_affinity,
}

-- The user's only call is the one saved.
abbrev Only : Text → Text → Text → Dict (Dict Text) → Type 0
Only id fs_addr user affinity = calls_of (lookup user affinity) ≡ (id, fs_addr) ∷ []

save_again :
    (id fs_addr user : Text) (users : List Text) (affinity : Dict (Dict Text))
    → Only id fs_addr user affinity
    → Only id fs_addr user (save_users id fs_addr users affinity)
unfolding save_users calls_of store
save_again id fs_addr user [] affinity o = o
save_again id fs_addr user (other ∷ users) affinity o =
    save_again id fs_addr user users
      (store other (store id fs_addr (calls_of (lookup other affinity))) affinity)
      (rw (lookup-store other user (store id fs_addr (calls_of (lookup other affinity))) affinity)
        (elim (Bool-cases (text_eq other user)) [
          | inl e ↦
              let same : other ≡ user = (text_eq_iff other user).0 e in
              rw (e, same, o, (text_eq_iff id id).1 refl) refl
          | inr e ↦ rw e o
        ]))

save_first :
    (id fs_addr user : Text) (affinity : Dict (Dict Text))
    → calls_of (lookup user affinity) ≡ []
    → Only id fs_addr user
        (store user (store id fs_addr (calls_of (lookup user affinity))) affinity)
unfolding store calls_of
save_first id fs_addr user affinity e =
    rw
      (
        lookup-store user user (store id fs_addr (calls_of (lookup user affinity))) affinity,
        (text_eq_iff user user).1 refl,
        e,
      )
      refl

-- Where the user has no call yet, but is among the users of the one that is saved.
save_users-Only :
    (id fs_addr user : Text) (users : List Text) (affinity : Dict (Dict Text))
    → In user users
    → calls_of (lookup user affinity) ≡ []
    → Only id fs_addr user (save_users id fs_addr users affinity)
unfolding save_users
save_users-Only id fs_addr user [] affinity m e = absurd m
save_users-Only id fs_addr user (other ∷ users) affinity m e =
    let next = store other (store id fs_addr (calls_of (lookup other affinity))) affinity in
    elim (Bool-cases (text_eq other user)) [
      | inl q ↦
          let same : other ≡ user = (text_eq_iff other user).0 q in
          rw same (save_again id fs_addr user users _ (save_first id fs_addr user affinity e))
      | inr q ↦ save_users-Only id fs_addr user users next (later q m) (
          rw
            (
              lookup-store other user (store id fs_addr (calls_of (lookup other affinity)))
                  affinity,
              q,
            )
            e)
    ]
  where
    later : text_eq other user ≡ false → In user (other ∷ users) → In user users
    later q (inl same) = absurd (true≢false (sym ((text_eq_iff other user).1 (sym same)) ∙ q))
    later q (inr m') = m'

mod_one : (n : ℕ) → n % 1 ≡ 0
mod_one n = omega arith

select-Only :
    (chance : ℕ) (id fs_addr user : Text) (users : List Text) (affinity : Dict (Dict Text))
    (d : Dispatcher)
    → Only id fs_addr user affinity
    → select_target_for_users chance affinity d (user ∷ users) ≡ (d, some (text "sip:" ++ fs_addr))
unfolding select_target_for_users affine_target first_target
select-Only chance id fs_addr user users affinity d o =
    rw (o, select_target_for_users, mod_one chance) refl

-- Where a user has no call yet, once a call of several users, among them this one, is saved with a
-- FreeSWITCH, whose address is not empty, every selection for that user first answers it, whatever the
-- order in which Go ranges over the map, and the rotation of the dispatcher doesn't move.
pub select_target-save_affinity :
    (chance : ℕ) (id fs_addr user : Text) (saved users : List Text) (affinity : Dict (Dict Text))
    (d : Dispatcher)
    → fs_addr ≢ []
    → In user saved
    → calls_of (lookup user affinity) ≡ []
    → select_target_for_users chance (save_affinity id fs_addr saved affinity) d (user ∷ users)
      ≡ (d, some (text "sip:" ++ fs_addr))
unfolding save_affinity
select_target-save_affinity chance id fs_addr user saved users affinity d n m e =
    elim (Bool-cases (text_eq fs_addr [])) [
      | inl q ↦ absurd (n ((text_eq_iff fs_addr []).0 q))
      | inr q ↦ rw q (
          select-Only chance id fs_addr user users _ d
            (save_users-Only id fs_addr user saved affinity m e))
    ]
