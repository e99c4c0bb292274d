-- ===== src/Proxy/Affinity/Tests.antt =====
-- sbc/proxy.go: runs of the affinity of users.
use comcent_ce.Common.{◌≡◌, inl, inr, refl, [], ◌∷◌, ◌++◌, some, Text, text, Dict, lookup}
use comcent_ce.Fixtures.{alice, bob}
use comcent_ce.Dispatcher.{Dispatcher}
use comcent_ce.Proxy.Affinity.{calls_of, select_target_for_users, save_affinity}
use comcent_ce.Proxy.Affinity.Sticky.{select_target-save_affinity}

abbrev fs : Text
fs = text "10.0.0.1:5070"

abbrev dispatcher : Dispatcher
dispatcher = record {
  targets = text "sip:10.0.0.1:5070" ∷ text "sip:10.0.0.2:5070" ∷ [];
  counter = 0;
}

abbrev calls : Dict (Dict Text)
calls =
    (alice, (text "c1", fs) ∷ [])
    ∷ (bob, (text "c1", fs) ∷ (text "c2", text "10.0.0.2:5070") ∷ [])
    ∷ []

-- The call of alice is saved for bob too.
select_target-save_affinity_example :
    select_target_for_users 7
      (save_affinity (text "c1") fs (alice ∷ bob ∷ []) [])
      dispatcher
      (bob ∷ alice ∷ [])
    ≡ (dispatcher, some (text "sip:" ++ fs))
unfolding calls_of lookup
select_target-save_affinity_example =
    select_target-save_affinity 7 (text "c1") fs bob (alice ∷ bob ∷ []) (alice ∷ []) [] dispatcher
      (λ e. cc) (inr (inl refl)) refl
