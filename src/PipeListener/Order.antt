-- ===== src/PipeListener/Order.antt =====
-- sbc/pipe_listener.go: what becomes of a connection.
use comcent_ce.Common.{
  ◌≤◌, ◌≡◌, refl, ap, false, List, [], ◌∷◌, ◌++◌, arith, length, length-append, append_assoc,
}
use comcent_ce.PipeListener.{
  capacity, PipeListener, new_pipe_listener, Step, send, refuse, accept, fail, close, Reach, here,
  next,
}

module _ (Conn : Type 0) where
  -- The list is an interleaving of two.
  pub data Merges : List Conn → List Conn → List Conn → Type 0 where
    both_empty : Merges [] [] []
    left : {xs ys zs : List Conn} (c : Conn) → Merges xs ys zs → Merges (c ∷ xs) ys (c ∷ zs)
    right : {xs ys zs : List Conn} (c : Conn) → Merges xs ys zs → Merges xs (c ∷ ys) (c ∷ zs)

  Merges-append_left :
      {xs ys zs : List Conn} (c : Conn) → Merges xs ys zs → Merges (xs ++ c ∷ []) ys (zs ++ c ∷ [])
  Merges-append_left c both_empty = left c both_empty
  Merges-append_left c (left d m) = left d (Merges-append_left c m)
  Merges-append_left c (right d m) = right d (Merges-append_left c m)

  Merges-append_right :
      {xs ys zs : List Conn} (c : Conn) → Merges xs ys zs → Merges xs (ys ++ c ∷ []) (zs ++ c ∷ [])
  Merges-append_right c both_empty = right c both_empty
  Merges-append_right c (left d m) = left d (Merges-append_right c m)
  Merges-append_right c (right d m) = right d (Merges-append_right c m)

  -- The channel keeps to its capacity, and none is refused before Close. Those that were injected are
  -- those that were refused among those that were accepted or wait, each in the order of their Inject.
  pub record IsOrderly (l : PipeListener Conn) : Type 0 where
    pub within : length l.ch ≤ capacity
    pub open_refuses_none : l.closed ≡ false → l.refused ≡ []
    pub ordered : Merges (l.accepted ++ l.ch) l.refused l.injected

  new-IsOrderly : IsOrderly (new_pipe_listener Conn)
  unfolding new_pipe_listener
  new-IsOrderly = record {
    within = omega arith;
    open_refuses_none = λ e. refl;
    ordered = both_empty;
  }

  Step-IsOrderly : {l m : PipeListener Conn} → Step Conn l m → IsOrderly l → IsOrderly m
  Step-IsOrderly {l} (send c room) h = record {
    within = omega (arith, length-append l.ch (c ∷ []));
    open_refuses_none = h.open_refuses_none;
    ordered = rw (← append_assoc l.accepted l.ch (c ∷ [])) (Merges-append_left c h.ordered);
  }
  Step-IsOrderly {l} (refuse c closed) h = record {
    within = h.within;
    open_refuses_none = λ e. cc;
    ordered = Merges-append_right c h.ordered;
  }
  Step-IsOrderly {l} (accept c rest e) h = record {
    within = omega (arith, h.within, ap length e);
    open_refuses_none = h.open_refuses_none;
    ordered = rw (append_assoc l.accepted (c ∷ []) rest) (rw e at h.ordered);
  }
  Step-IsOrderly (fail closed) h = h
  Step-IsOrderly close h = record {
    within = h.within;
    open_refuses_none = λ e. cc;
    ordered = h.ordered;
  }

  IsOrderly-Reach : {l m : PipeListener Conn} → IsOrderly l → Reach Conn l m → IsOrderly m
  IsOrderly-Reach h here = h
  IsOrderly-Reach h (next r st) = Step-IsOrderly st (IsOrderly-Reach h r)

-- In every state of a pipe listener, its channel keeps to its capacity, none is refused before Close, and
-- the connections that were injected are those that were refused and those that were accepted or wait,
-- interleaved, each in the order of their Inject: none is lost, doubled or overtaken.
pub Reach-IsOrderly :
    (Conn : Type 0) (l : PipeListener Conn)
    → Reach Conn (new_pipe_listener Conn) l
    → IsOrderly Conn l
Reach-IsOrderly Conn l r = IsOrderly-Reach Conn (new-IsOrderly Conn) r
