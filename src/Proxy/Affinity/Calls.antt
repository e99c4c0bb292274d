-- ===== src/Proxy/Affinity/Calls.antt =====
-- sbc/proxy.go: what saveAffinity and deleteAffinity change.
use comcent_ce.Common.{
  ◌≡◌, ◌≢◌, inl, inr, refl, not, ◌&&◌, List, [], ◌∷◌, Option, none, some, arith, Text, text_eq,
  text_eq_iff, Dict, lookup, store, delete, lookup-store, lookup-delete, any, AllValues,
  AllValues-store, AllValues-delete, if◌then◌else◌, Option-cases, Bool-cases,
}
use comcent_ce.Proxy.Affinity.{
  calls_of, save_users, save_affinity, put_back, delete_user, delete_affinity,
}

-- The target of a user's call, if the call is known.
abbrev pub target_of : Dict (Dict Text) → Text → Text → Option Text
target_of affinity user id = lookup id (calls_of (lookup user affinity))

save_user-target :
    (id fs_addr user : Text) (affinity : Dict (Dict Text)) (other call : Text)
    → target_of
        (store user (store id fs_addr (calls_of (lookup user affinity))) affinity)
        other
        call
      ≡ (if text_eq user other && text_eq id call
          then some fs_addr
          else target_of affinity other call)
unfolding calls_of
save_user-target id fs_addr user affinity other call = ground (
  arith,
  lookup-store user other (store id fs_addr (calls_of (lookup user affinity))) affinity,
  lookup-store id call fs_addr (calls_of (lookup user affinity)),
  text_eq_iff user other,
)

save_users-target :
    (id fs_addr : Text) (users : List Text) (affinity : Dict (Dict Text)) (other call : Text)
    → target_of (save_users id fs_addr users affinity) other call ≡ (
        if any (λ u. text_eq u other) users && text_eq id call
        then some fs_addr
        else target_of affinity other call)
unfolding save_users
save_users-target id fs_addr [] affinity other call = refl
save_users-target id fs_addr (user ∷ users) affinity other call = ground (
  arith,
  save_users-target id fs_addr users
      (store user (store id fs_addr (calls_of (lookup user affinity))) affinity) other call,
  save_user-target id fs_addr user affinity other call,
)

-- Saving a call gives it the target for exactly its users, unless the address is empty; every other
-- call of every user keeps its target.
pub target_of-save_affinity :
    (id fs_addr : Text) (users : List Text) (affinity : Dict (Dict Text)) (other call : Text)
    → target_of (save_affinity id fs_addr users affinity) other call ≡ (
        if not (text_eq fs_addr []) && (any (λ u. text_eq u other) users && text_eq id call)
        then some fs_addr
        else target_of affinity other call)
unfolding save_affinity
target_of-save_affinity id fs_addr users affinity other call =
    ground (arith, save_users-target id fs_addr users affinity other call)

put_back-calls :
    (user other : Text) (calls : Dict Text) (affinity : Dict (Dict Text))
    → calls_of (lookup other (put_back user calls affinity))
      ≡ (if text_eq user other then calls else calls_of (lookup other affinity))
unfolding put_back calls_of
put_back-calls user other [] affinity = ground (arith, lookup-delete user other affinity)
put_back-calls user other (c ∷ calls) affinity =
    ground (arith, lookup-store user other (c ∷ calls) affinity)

delete_user-target :
    (id user : Text) (affinity : Dict (Dict Text)) (other call : Text)
    → target_of (delete_user id user affinity) other call
      ≡ (if text_eq user other && text_eq id call then none else target_of affinity other call)
unfolding delete_user calls_of lookup
delete_user-target id user affinity other call = elim (Option-cases (lookup user affinity)) [
  | inl e ↦ rw (e, delete_user) (ground (arith, text_eq_iff user other))
  | inr (calls, e) ↦
      rw (e, delete_user, put_back-calls user other (delete id calls) affinity)
        (ground (arith, text_eq_iff user other, lookup-delete id call calls))
]

-- Deleting a call deletes its target for exactly its users; every other call of every user keeps its
-- target.
pub target_of-delete_affinity :
    (id : Text) (users : List Text) (affinity : Dict (Dict Text)) (other call : Text)
    → target_of (delete_affinity id users affinity) other call ≡ (
        if any (λ u. text_eq u other) users && text_eq id call
        then none
        else target_of affinity other call)
unfolding delete_affinity
target_of-delete_affinity id [] affinity other call = refl
target_of-delete_affinity id (user ∷ users) affinity other call = ground (
  arith,
  target_of-delete_affinity id users (delete_user id user affinity) other call,
  delete_user-target id user affinity other call,
)

-- No user is kept without a call.
abbrev HasCalls : Dict (Dict Text) → Type 0
HasCalls affinity = AllValues (λ (calls : Dict Text). calls ≢ []) affinity

store_not_empty : (id fs_addr : Text) (calls : Dict Text) → store id fs_addr calls ≢ []
unfolding store
store_not_empty id fs_addr [] e = cc
store_not_empty id fs_addr ((k, v) ∷ calls) e = ground arith

save_users-HasCalls :
    (id fs_addr : Text) (users : List Text) (affinity : Dict (Dict Text))
    → HasCalls affinity
    → HasCalls (save_users id fs_addr users affinity)
unfolding save_users
save_users-HasCalls id fs_addr [] affinity h = h
save_users-HasCalls id fs_addr (user ∷ users) affinity h = save_users-HasCalls id fs_addr users _ (
    AllValues-store (λ (calls : Dict Text). calls ≢ []) user _ affinity h
      (store_not_empty id fs_addr (calls_of (lookup user affinity))))

put_back-HasCalls :
    (user : Text) (calls : Dict Text) (affinity : Dict (Dict Text))
    → HasCalls affinity
    → HasCalls (put_back user calls affinity)
unfolding put_back
put_back-HasCalls user [] affinity h =
    AllValues-delete (λ (calls : Dict Text). calls ≢ []) user affinity h
put_back-HasCalls user (c ∷ calls) affinity h =
    AllValues-store (λ (calls : Dict Text). calls ≢ []) user (c ∷ calls) affinity h (λ e. cc)

delete_user-HasCalls :
    (id user : Text) (affinity : Dict (Dict Text))
    → HasCalls affinity
    → HasCalls (delete_user id user affinity)
unfolding delete_user
delete_user-HasCalls id user affinity h = elim (Option-cases (lookup user affinity)) [
  | inl e ↦ rw (e, delete_user) h
  | inr (calls, e) ↦ rw (e, delete_user) (put_back-HasCalls user (delete id calls) affinity h)
]

delete_users-HasCalls :
    (id : Text) (users : List Text) (affinity : Dict (Dict Text))
    → HasCalls affinity
    → HasCalls (delete_affinity id users affinity)
unfolding delete_affinity
delete_users-HasCalls id [] affinity h = h
delete_users-HasCalls id (user ∷ users) affinity h =
    delete_users-HasCalls id users (delete_user id user affinity)
      (delete_user-HasCalls id user affinity h)

-- Neither saving a call nor deleting one leaves a user without a call behind.
affinity-HasCalls :
    (id fs_addr : Text) (users : List Text) (affinity : Dict (Dict Text))
    → HasCalls affinity
    → HasCalls (save_affinity id fs_addr users affinity)
      × HasCalls (delete_affinity id users affinity)
unfolding save_affinity
affinity-HasCalls id fs_addr users affinity h = elim (Bool-cases (text_eq fs_addr [])) [
  | inl e ↦ (rw e h, delete_users-HasCalls id users affinity h)
  | inr e ↦ (
    rw e (save_users-HasCalls id fs_addr users affinity h),
    delete_users-HasCalls id users affinity h,
  )
]
