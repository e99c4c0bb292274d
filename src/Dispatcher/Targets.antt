-- ===== src/Dispatcher/Targets.antt =====
-- sbc/dispatcher.go: the list of targets as a set.
use comcent_ce.Common.{
  ◌≡◌, refl, false, ◌||◌, List, [], ◌∷◌, ◌++◌, arith, Text, text_eq, text_eq_iff, not, ◌&&◌,
}
use comcent_ce.Dispatcher.{
  Dispatcher, is_target, add_target, remove_first, remove_target, fs_uri, is_from_fs,
}

-- No target stands twice.
abbrev pub AreDistinct : List Text → Type 0
AreDistinct [] = Unit {0}
AreDistinct (t ∷ ts) = (is_target t ts ≡ false) × AreDistinct ts

pub is_target-append :
    (uri v : Text) (ts : List Text)
    → is_target uri (ts ++ v ∷ []) ≡ (is_target uri ts || text_eq v uri)
unfolding is_target
is_target-append uri v [] = ground arith
is_target-append uri v (t ∷ ts) = ground (arith, is_target-append uri v ts)

-- A target that is added is in the list, and no other target comes or goes.
pub is_target-add :
    (d : Dispatcher) (uri v : Text)
    → is_target v (add_target d uri).targets ≡ (text_eq uri v || is_target v d.targets)
unfolding add_target
is_target-add d uri v = ground (arith, is_target-append v uri d.targets, text_eq_iff uri v)

is_target-remove_first :
    (uri v : Text) (ts : List Text)
    → AreDistinct ts
    → is_target v (remove_first uri ts) ≡ (not (text_eq uri v) && is_target v ts)
unfolding is_target remove_first
is_target-remove_first uri v [] d = ground arith
is_target-remove_first uri v (t ∷ ts) d = ground (
  arith,
  is_target-remove_first uri v ts d.1,
  text_eq_iff uri v,
  text_eq_iff t uri,
  text_eq_iff t v,
)

-- In a list with no target twice, a target that is removed is gone, and no other comes or goes.
pub is_target-remove :
    (d : Dispatcher) (uri v : Text)
    → AreDistinct d.targets
    → is_target v (remove_target d uri).targets ≡ (not (text_eq uri v) && is_target v d.targets)
unfolding remove_target
is_target-remove d uri v h = is_target-remove_first uri v d.targets h

append-AreDistinct :
    (uri : Text) (ts : List Text)
    → is_target uri ts ≡ false
    → AreDistinct ts
    → AreDistinct (ts ++ uri ∷ [])
unfolding is_target
append-AreDistinct uri [] e d = (refl, tt)
append-AreDistinct uri (t ∷ ts) e d = ground (
  arith,
  append-AreDistinct uri ts,
  is_target-append t uri ts,
  text_eq_iff uri t,
  text_eq_iff t uri,
)

pub add-AreDistinct :
    (d : Dispatcher) (uri : Text) → AreDistinct d.targets → AreDistinct (add_target d uri).targets
unfolding add_target
add-AreDistinct d uri h = ground (arith, append-AreDistinct uri d.targets)

remove_first-AreDistinct :
    (uri : Text) (ts : List Text) → AreDistinct ts → AreDistinct (remove_first uri ts)
unfolding remove_first
remove_first-AreDistinct uri [] d = tt
remove_first-AreDistinct uri (t ∷ ts) d =
    ground (arith, remove_first-AreDistinct uri ts d.1, is_target-remove_first uri t ts d.1)

pub remove-AreDistinct :
    (d : Dispatcher) (uri : Text)
    → AreDistinct d.targets
    → AreDistinct (remove_target d uri).targets
unfolding remove_target
remove-AreDistinct d uri h = remove_first-AreDistinct uri d.targets h

-- A source counts as FreeSWITCH exactly when its address with port 5070 is a target.
pub is_from_fs-target :
    (d : Dispatcher) (ip : Text) → is_from_fs d ip ≡ is_target (fs_uri ip) d.targets
unfolding is_from_fs is_target
is_from_fs-target d ip = refl
