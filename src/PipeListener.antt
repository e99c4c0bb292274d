-- ===== src/PipeListener.antt =====
-- sbc/pipe_listener.go. The calls of Inject, Accept and Close come from different goroutines; a step is the
-- moment at which one of them goes through. Where both cases of a select are ready, Go takes either. A
-- call that has no step waits. The history of the connections is kept beside the channel.
mod Tests
pub mod Order
pub mod Prefix
use comcent_ce.Common.{ℕ, ◌<◌, ◌≡◌, Bool, true, false, List, [], ◌∷◌, ◌++◌, length}

abbrev pub capacity : ℕ
capacity = 16

module _ (Conn : Type 0) where
  pub record PipeListener : Type 0 where
    pub ch : List Conn
    pub closed : Bool
    -- Those that Inject was called with and has returned for, in order, those that Accept has returned,
    -- and those that Inject has closed.
    pub injected : List Conn
    pub accepted : List Conn
    pub refused : List Conn

  pub new_pipe_listener : PipeListener
  new_pipe_listener = record { ch = []; closed = false; injected = []; accepted = []; refused = [] }

  -- The two cases of Inject's select, those of Accept's, and Close.
  pub data Step (l : PipeListener) : PipeListener → Type 0 where
    send :
        (c : Conn)
        → length l.ch < capacity
        → Step l (record l { ch = l.ch ++ c ∷ []; injected = l.injected ++ c ∷ [] })
    refuse :
        (c : Conn)
        → l.closed ≡ true
        → Step l (record l { injected = l.injected ++ c ∷ []; refused = l.refused ++ c ∷ [] })
    accept :
        (c : Conn) (rest : List Conn)
        → l.ch ≡ c ∷ rest
        → Step l (record l { ch = rest; accepted = l.accepted ++ c ∷ [] })
    fail : l.closed ≡ true → Step l l
    close : Step l (record l { closed = true })

  pub data Reach (s : PipeListener) : PipeListener → Type 0 where
    here : Reach s s
    next : {t u : PipeListener} → Reach s t → Step t u → Reach s u
