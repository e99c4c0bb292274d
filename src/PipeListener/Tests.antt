-- ===== src/PipeListener/Tests.antt =====
-- sbc/pipe_listener.go: two connections, of which one comes after Close.
use comcent_ce.Common.{ℕ, refl, true, [], ◌∷◌, arith}
use comcent_ce.PipeListener.{
  PipeListener, new_pipe_listener, send, refuse, accept, fail, close, Reach, here, next,
}
use comcent_ce.PipeListener.Order.{IsOrderly, Reach-IsOrderly}

abbrev last : PipeListener ℕ
last = record { ch = []; closed = true; injected = 1 ∷ 2 ∷ []; accepted = 1 ∷ []; refused = 2 ∷ [] }

reached : Reach ℕ (new_pipe_listener ℕ) last
unfolding new_pipe_listener
reached =
    next (next (next (next here (send 1 (omega arith))) (accept 1 [] refl)) close) (refuse 2 refl)

-- After Close a connection may still enter the channel, and wait there.
abbrev stranded : PipeListener ℕ
stranded = record { ch = 1 ∷ []; closed = true; injected = 1 ∷ []; accepted = []; refused = [] }

strands : Reach ℕ (new_pipe_listener ℕ) stranded
unfolding new_pipe_listener
strands = next (next (next here close) (send 1 (omega arith))) (fail refl)

Reach-IsOrderly_example : IsOrderly ℕ last
Reach-IsOrderly_example = Reach-IsOrderly ℕ last reached
