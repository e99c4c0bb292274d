-- ===== src/Dispatcher/Tests.antt =====
-- sbc/dispatcher.go: runs of the dispatcher.
use comcent_ce.Common.{
  ◌+◌, ◌≡◌, refl, true, not, ◌&&◌, ◌||◌, List, [], ◌∷◌, ◌++◌, some, arith, Text, text, text_eq,
  length, if◌then◌else◌,
}
use comcent_ce.Dispatcher.{Dispatcher, is_target, is_from_fs}
use comcent_ce.Dispatcher.Targets.{AreDistinct}
use comcent_ce.Dispatcher.Rotation.{select_times, found, select_times-rotation}
use comcent_ce.Dispatcher.Rpc.{RpcRequest}
use comcent_ce.Dispatcher.Discovery.{Discovery, seen, round, round_lem}

abbrev fs : List Text
fs = text "sip:10.0.0.1:5070" ∷ text "sip:10.0.0.2:5070" ∷ text "sip:10.0.0.3:5070" ∷ []

abbrev three : Dispatcher
three = record { targets = fs; counter = 4 }

abbrev discovered : Discovery
discovered = record { dispatcher = three; known = text "sip:10.0.0.2:5070" ∷ [] }

fs-AreDistinct : AreDistinct fs
unfolding is_target text_eq
fs-AreDistinct = (refl, (refl, (refl, tt)))

is_from_fs-three : is_from_fs three (text "10.0.0.2") ≡ true
unfolding is_from_fs is_target text_eq
is_from_fs-three = refl

abbrev addition : RpcRequest
addition = record {
  method = text "dispatcher.add";
  params = text "1" ∷ text "sip:10.0.0.1:5070" ∷ [];
  id = text "7";
}

select_times-rotation_example : select_times (length three.targets) three ≡ (
  record three { counter = three.counter + length three.targets },
  found (
      (text "sip:10.0.0.3:5070" ∷ [])
      ++ (text "sip:10.0.0.1:5070" ∷ text "sip:10.0.0.2:5070" ∷ [])),
)
select_times-rotation_example =
    select_times-rotation three (text "sip:10.0.0.1:5070" ∷ text "sip:10.0.0.2:5070" ∷ [])
      (text "sip:10.0.0.3:5070" ∷ []) refl refl (omega arith)

round_lem_example :
    (is_target
        (text "sip:10.0.0.2:5070")
        (round discovered (some (text "10.0.0.3" ∷ text "10.0.0.4" ∷ []))).known
      ≡ seen (text "10.0.0.3" ∷ text "10.0.0.4" ∷ []) (text "sip:10.0.0.2:5070"))
    × (is_target
          (text "sip:10.0.0.2:5070")
          (round discovered (some (text "10.0.0.3" ∷ text "10.0.0.4" ∷ []))).dispatcher.targets
        ≡ (if seen (text "10.0.0.3" ∷ text "10.0.0.4" ∷ []) (text "sip:10.0.0.2:5070")
            then is_target (text "sip:10.0.0.2:5070") discovered.dispatcher.targets
              || not (is_target (text "sip:10.0.0.2:5070") discovered.known)
            else is_target (text "sip:10.0.0.2:5070") discovered.dispatcher.targets
              && not (is_target (text "sip:10.0.0.2:5070") discovered.known)))
round_lem_example =
    round_lem discovered (text "10.0.0.3" ∷ text "10.0.0.4" ∷ []) (text "sip:10.0.0.2:5070")
      (fs-AreDistinct)
