-- ===== src/Dispatcher.antt =====
-- sbc/dispatcher.go: the FreeSWITCH targets, with the discovery loop of sbc/main.go in a child.
-- Every method holds the lock for its whole body. The counter is a uint64.
mod Tests
pub mod Targets
pub mod Rotation
pub mod Rpc
pub mod Discovery
use comcent_ce.Common.{
  ℕ, ◌+◌, ◌%◌, ◌^◌, Bool, List, [], ◌∷◌, ◌++◌, Option, none, some, Text, text, text_eq, length,
  get_elem?, any, if◌then◌else◌,
}

pub record Dispatcher : Type 0 where
  pub targets : List Text
  pub counter : ℕ

pub new_dispatcher : Dispatcher
new_dispatcher = record { targets = []; counter = 0 }

unfoldable pub is_target : Text → List Text → Bool
is_target uri targets = any (λ t. text_eq t uri) targets

pub add_target : Dispatcher → Text → Dispatcher
unfolding is_target
add_target d uri =
    if is_target uri d.targets then d else record d { targets = d.targets ++ uri ∷ [] }

-- The loop removes the first target that is equal.
pub remove_first : Text → List Text → List Text
remove_first uri [] = []
remove_first uri (t ∷ ts) = if text_eq t uri then ts else t ∷ remove_first uri ts

pub remove_target : Dispatcher → Text → Dispatcher
unfolding remove_first
remove_target d uri = record d { targets = remove_first uri d.targets }

-- d.counter.Add(1) wraps around in a uint64.
abbrev pub next_counter : ℕ → ℕ
next_counter c = (c + 1) % 2 ^ 64

abbrev select_from : Dispatcher → List Text → Dispatcher × Option Text
select_from d [] = (d, none)
select_from d (t ∷ ts) =
    let c = next_counter d.counter in
    (record d { counter = c }, get_elem? (t ∷ ts) (c % length (t ∷ ts)))

-- `none` stands for the result ("", false).
unfoldable pub select_target : Dispatcher → Dispatcher × Option Text
select_target d = select_from d d.targets

-- "sip:" + sourceIP + ":5070"
unfoldable pub fs_uri : Text → Text
fs_uri ip = text "sip:" ++ (ip ++ text ":5070")

pub is_from_fs : Dispatcher → Text → Bool
unfolding fs_uri
is_from_fs d ip = any (λ t. text_eq t (fs_uri ip)) d.targets

pub list_targets : Dispatcher → List Text
list_targets d = d.targets
