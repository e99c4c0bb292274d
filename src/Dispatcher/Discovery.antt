-- ===== src/Dispatcher/Discovery.antt =====
-- sbc/main.go: the loop that looks FreeSWITCH up by its host name. A round is one pass of the loop;
-- `known` holds the keys of the map of that name, and a failed lookup is `none`.
use comcent_ce.Common.{
  ◌≡◌, refl, Bool, not, ◌&&◌, ◌||◌, List, [], ◌∷◌, ◌++◌, Option, none, some, arith, Text, text_eq,
  text_eq_iff, any, if◌then◌else◌,
}
use comcent_ce.Dispatcher.{Dispatcher, is_target, add_target, remove_target, fs_uri}
use comcent_ce.Dispatcher.Targets.{
  AreDistinct, add-AreDistinct, remove-AreDistinct, is_target-add, is_target-remove,
  is_target-append,
}

pub record Discovery : Type 0 where
  pub dispatcher : Dispatcher
  pub known : List Text

pub seen : List Text → Text → Bool
seen addrs uri = any (λ addr. text_eq (fs_uri addr) uri) addrs

discover_addr : Discovery → Text → Discovery
discover_addr s addr = if is_target (fs_uri addr) s.known then s else record {
  dispatcher = add_target s.dispatcher (fs_uri addr);
  known = s.known ++ fs_uri addr ∷ [];
}

discover_addrs : Discovery → List Text → Discovery
unfolding discover_addr
discover_addrs s [] = s
discover_addrs s (addr ∷ addrs) = discover_addrs (discover_addr s addr) addrs

-- `for uri := range known`, over the keys that the map has at the start.
forget_unseen : List Text → Dispatcher → List Text → Discovery
forget_unseen addrs d [] = record { dispatcher = d; known = [] }
forget_unseen addrs d (uri ∷ known) =
    let keep = forget_unseen addrs d known in
    let drop = forget_unseen addrs (remove_target d uri) known in
    if seen addrs uri then record keep { known = uri ∷ keep.known } else drop

pub round : Discovery → Option (List Text) → Discovery
unfolding discover_addrs forget_unseen
round s none = s
round s (some addrs) = let s' = discover_addrs s addrs in forget_unseen addrs s'.dispatcher s'.known

addr-known :
    (s : Discovery) (addr v : Text)
    → is_target v (discover_addr s addr).known ≡ (is_target v s.known || text_eq (fs_uri addr) v)
unfolding discover_addr
addr-known s addr v =
    ground (arith, text_eq_iff (fs_uri addr) v, is_target-append v (fs_uri addr) s.known)

addr-targets :
    (s : Discovery) (addr v : Text)
    → is_target v (discover_addr s addr).dispatcher.targets ≡ (
        is_target v s.dispatcher.targets
        || (text_eq (fs_uri addr) v && not (is_target (fs_uri addr) s.known)))
unfolding discover_addr
addr-targets s addr v = ground (arith, is_target-add s.dispatcher (fs_uri addr) v)

addr-AreDistinct :
    (s : Discovery) (addr : Text)
    → AreDistinct s.dispatcher.targets
    → AreDistinct (discover_addr s addr).dispatcher.targets
unfolding discover_addr
addr-AreDistinct s addr h = ground (arith, add-AreDistinct s.dispatcher (fs_uri addr) h)

addrs-known :
    (s : Discovery) (addrs : List Text) (v : Text)
    → is_target v (discover_addrs s addrs).known ≡ (is_target v s.known || seen addrs v)
unfolding discover_addrs seen
addrs-known s [] v = ground arith
addrs-known s (addr ∷ addrs) v =
    ground (arith, addrs-known (discover_addr s addr) addrs v, addr-known s addr v)

addrs-targets :
    (s : Discovery) (addrs : List Text) (v : Text)
    → is_target v (discover_addrs s addrs).dispatcher.targets
      ≡ (is_target v s.dispatcher.targets || (seen addrs v && not (is_target v s.known)))
unfolding discover_addrs seen
addrs-targets s [] v = ground arith
addrs-targets s (addr ∷ addrs) v = ground (
  arith,
  addrs-targets (discover_addr s addr) addrs v,
  addr-known s addr v,
  addr-targets s addr v,
  text_eq_iff (fs_uri addr) v,
)

addrs-AreDistinct :
    (s : Discovery) (addrs : List Text)
    → AreDistinct s.dispatcher.targets
    → AreDistinct (discover_addrs s addrs).dispatcher.targets
unfolding discover_addrs
addrs-AreDistinct s [] h = h
addrs-AreDistinct s (addr ∷ addrs) h =
    addrs-AreDistinct (discover_addr s addr) addrs (addr-AreDistinct s addr h)

forget-known :
    (addrs : List Text) (d : Dispatcher) (known : List Text) (v : Text)
    → is_target v (forget_unseen addrs d known).known ≡ (is_target v known && seen addrs v)
unfolding forget_unseen is_target
forget-known addrs d [] v = refl
forget-known addrs d (uri ∷ known) v = ground (
  arith,
  forget-known addrs d known v,
  forget-known addrs (remove_target d uri) known v,
  text_eq_iff uri v,
)

is_target-cons :
    (v uri : Text) (known : List Text)
    → is_target v (uri ∷ known) ≡ (text_eq uri v || is_target v known)
unfolding is_target
is_target-cons v uri known = refl

forget-targets :
    (addrs : List Text) (d : Dispatcher) (known : List Text) (v : Text)
    → AreDistinct d.targets
    → is_target v (forget_unseen addrs d known).dispatcher.targets
      ≡ (is_target v d.targets && (seen addrs v || not (is_target v known)))
unfolding forget_unseen
forget-targets addrs d [] v h = unfold is_target in ground arith
forget-targets addrs d (uri ∷ known) v h = ground (
  arith,
  forget-targets addrs d known v h,
  forget-targets addrs (remove_target d uri) known v (remove-AreDistinct d uri h),
  is_target-remove d uri v h,
  is_target-cons v uri known,
  text_eq_iff uri v,
)

-- After a round with a successful lookup the known targets are exactly those that the name resolves
-- to. A target that resolves is in the dispatcher if it was there or is new, and one that does not
-- resolve stays exactly if it was not discovered: what RPC added is left alone.
pub round_lem :
    (s : Discovery) (addrs : List Text) (v : Text)
    → AreDistinct s.dispatcher.targets
    → (is_target v (round s (some addrs)).known ≡ seen addrs v)
      × (is_target v (round s (some addrs)).dispatcher.targets ≡ (
          if seen addrs v
          then is_target v s.dispatcher.targets || not (is_target v s.known)
          else is_target v s.dispatcher.targets && not (is_target v s.known)))
unfolding round
round_lem s addrs v h =
    let s' = discover_addrs s addrs in
    (
      ground (arith, forget-known addrs s'.dispatcher s'.known v, addrs-known s addrs v),
      ground (
        arith,
        forget-targets addrs s'.dispatcher s'.known v (addrs-AreDistinct s addrs h),
        addrs-known s addrs v,
        addrs-targets s addrs v,
      ),
    )
