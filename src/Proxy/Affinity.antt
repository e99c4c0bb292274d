-- ===== src/Proxy/Affinity.antt =====
-- sbc/proxy.go: which FreeSWITCH serves a user's calls. `affinity` maps a user to the targets of their
-- calls by Call-ID. Go ranges over a map in no fixed order: `chance`
-- picks the entry at which a loop that returns at once begins.
mod Tests
pub mod Calls
pub mod Sticky
use comcent_ce.Common.{
  ℕ, ◌%◌, Bool, true, false, not, ◌||◌, List, [], ◌∷◌, ◌++◌, Option, none, some, Text, text,
  text_eq, Dict, lookup, store, delete, length, get_elem?, any, if◌then◌else◌,
}
use comcent_ce.Go.Strings.{has_suffix}
use comcent_ce.Sip.{Uri}
use comcent_ce.Dispatcher.{Dispatcher, select_target}

-- comcentUsersForRequest, on the URIs of From and To
abbrev add_user : Text → List Text → Uri → List Text
add_user root users uri =
    if text_eq uri.user [] || not (has_suffix uri.host root)
    then users
    else if any (text_eq (uri.user ++ (b'@' ∷ uri.host))) users
    then users
    else users ++ (uri.user ++ (b'@' ∷ uri.host)) ∷ []

unfoldable pub comcent_users : Text → Uri → Uri → List Text
comcent_users root from to = add_user root (add_user root [] from) to

-- p.affinity[user], whose calls a nil map does not have.
unfoldable pub calls_of : Option (Dict Text) → Dict Text
calls_of none = []
calls_of (some calls) = calls

-- The target at which a loop over the calls begins.
first_target : ℕ → Dict Text → Option Text
first_target chance calls = elim (get_elem? calls (chance % length calls)) [
  | none ↦ none
  | some (id, target) ↦ some target
]

pub affine_target : ℕ → Dict (Dict Text) → List Text → Option Text
unfolding calls_of first_target
affine_target chance affinity [] = none
affine_target chance affinity (user ∷ users) =
    let rest = affine_target chance affinity users in
    elim (first_target chance (calls_of (lookup user affinity))) [
      | none ↦ rest
      | some target ↦ some target
    ]

-- selectTargetForUsers
unfoldable pub select_target_for_users :
    ℕ → Dict (Dict Text) → Dispatcher → List Text → Dispatcher × Option Text
unfolding affine_target
select_target_for_users chance affinity d users = elim (affine_target chance affinity users) [
  | some target ↦ (d, some (text "sip:" ++ target))
  | none ↦ select_target d
]

-- The loop of saveAffinity.
save_users : Text → Text → List Text → Dict (Dict Text) → Dict (Dict Text)
unfolding calls_of
save_users id fs_addr [] affinity = affinity
save_users id fs_addr (user ∷ users) affinity =
    save_users id fs_addr users
      (store user (store id fs_addr (calls_of (lookup user affinity))) affinity)

unfoldable pub save_affinity : Text → Text → List Text → Dict (Dict Text) → Dict (Dict Text)
unfolding save_users
save_affinity id fs_addr users affinity =
    if text_eq fs_addr [] then affinity else save_users id fs_addr users affinity

-- A user's calls are put back, or the user is deleted with the last one.
put_back : Text → Dict Text → Dict (Dict Text) → Dict (Dict Text)
put_back user [] affinity = delete user affinity
put_back user (c ∷ calls) affinity = store user (c ∷ calls) affinity

delete_user : Text → Text → Dict (Dict Text) → Dict (Dict Text)
unfolding put_back
delete_user id user affinity = elim (lookup user affinity) [
  | none ↦ affinity
  | some calls ↦ put_back user (delete id calls) affinity
]

pub delete_affinity : Text → List Text → Dict (Dict Text) → Dict (Dict Text)
unfolding delete_user
delete_affinity id [] affinity = affinity
delete_affinity id (user ∷ users) affinity = delete_affinity id users (delete_user id user affinity)
