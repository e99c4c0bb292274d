-- ===== src/Dispatcher/Rpc.antt =====
-- sbc/dispatcher.go: `handleRPC`. The body is what the JSON decoder makes of it, `none` where it
-- fails; a parameter is the text that `%v` prints for it, and the id is passed through.
use comcent_ce.Common.{
  ℕ, ◌≡◌, ◌≢◌, ◌⊎◌, ◌↔◌, inl, inr, Bool, true, not, ◌||◌, List, [], ◌∷◌, Option, none, some, arith,
  Text, text, text_eq, text_eq_iff, get_elem?, if◌then◌else◌, Option-cases,
}
use comcent_ce.Dispatcher.{Dispatcher, add_target, remove_target, list_targets}
use comcent_ce.Dispatcher.Targets.{AreDistinct, add-AreDistinct, remove-AreDistinct}

pub record RpcRequest : Type 0 where
  pub method : Text
  pub params : List Text
  pub id : Text

-- An HTTP error with its status, the result "OK", or the RECORDS of the list, each with its targets.
pub data Reply : Type 0 where
  http_error : ℕ → Reply
  result_ok : Text → Reply
  records : List (List Text) → Text → Reply

on_second : (Dispatcher → Text → Dispatcher) → Dispatcher → Option Text → Dispatcher
on_second act d none = d
on_second act d (some uri) = act d uri

record_sets : List Text → List (List Text)
record_sets [] = []
record_sets (t ∷ ts) = (t ∷ ts) ∷ []

dispatch : Dispatcher → RpcRequest → Dispatcher × Reply
unfolding on_second record_sets
dispatch d req =
    if text_eq req.method (text "dispatcher.add")
    then (on_second add_target d (get_elem? req.params 1), result_ok req.id)
    else if text_eq req.method (text "dispatcher.remove")
    then (on_second remove_target d (get_elem? req.params 1), result_ok req.id)
    else if text_eq req.method (text "dispatcher.list")
    then (d, records (record_sets (list_targets d)) req.id)
    else (d, http_error 404)

abbrev decoded : Dispatcher → Option RpcRequest → Dispatcher × Reply
decoded d none = (d, http_error 400)
decoded d (some req) = dispatch d req

is_authorized : Text → Text → Bool
is_authorized expected token = not (text_eq token [] || not (text_eq token expected))

handle_rpc : Dispatcher → Text → Text → Option RpcRequest → Dispatcher × Reply
handle_rpc d expected token body =
    if is_authorized expected token then decoded d body else (d, http_error 401)

is_authorized_iff :
    (expected token : Text)
    → (is_authorized expected token ≡ true) ↔ ((token ≢ []) × (token ≡ expected))
unfolding is_authorized
is_authorized_iff expected token = ground (arith, text_eq_iff token [], text_eq_iff token expected)

-- A request whose token is missing or is not the configured one is answered with status 401 and
-- changes nothing, whatever its body.
handle_rpc_unauthorized :
    (d : Dispatcher) (expected token : Text) (body : Option RpcRequest)
    → (token ≡ []) ⊎ (token ≢ expected)
    → handle_rpc d expected token body ≡ (d, http_error 401)
unfolding handle_rpc is_authorized
handle_rpc_unauthorized d expected token body h =
    ground (arith, text_eq_iff token [], text_eq_iff token expected)

dispatch-AreDistinct :
    (d : Dispatcher) (req : RpcRequest)
    → AreDistinct d.targets
    → AreDistinct (dispatch d req).0.targets
unfolding dispatch
dispatch-AreDistinct d req h = elim (Option-cases (get_elem? req.params 1)) [
  | inl e ↦ ground arith
  | inr (uri, e) ↦ ground (arith, add-AreDistinct d uri h, remove-AreDistinct d uri h)
]

-- No request makes a target stand twice.
handle_rpc-AreDistinct :
    (d : Dispatcher) (expected token : Text) (body : Option RpcRequest)
    → AreDistinct d.targets
    → AreDistinct (handle_rpc d expected token body).0.targets
unfolding handle_rpc
handle_rpc-AreDistinct d expected token none h = ground arith
handle_rpc-AreDistinct d expected token (some req) h = ground (arith, dispatch-AreDistinct d req h)
