-- ===== src/Core/Simulate.antt =====
-- The loop of `spin1_start` (spin_emu_api.c). What a callback of the application does is an argument,
-- and so is what signal handlers and the receiver thread do between two rounds and while the process
-- is suspended. The signal masks, and `ticks` and `run`, which nothing reads, are left out.
use spi_nnaker_emulator.Base.{ℕ, zero, suc, ◌+◌, true, false, List, [], ◌∷◌, none, some, put}
use spi_nnaker_emulator.Base.Outcome.{Outcome, ok, fault, spent, ◌>>=◌}
use spi_nnaker_emulator.Events.{Event, call, pick}
use spi_nnaker_emulator.Core.Runtime.{Runtime}

-- The oldest event of the picked type is taken off its list, and its callback is called.
unfoldable pub call_first : (Event → Runtime → Runtime) → ℕ → List Event → Runtime → Outcome Runtime
call_first cback id [] s = fault
call_first cback id (ev ∷ rest) s = ok (
    cback ev (record s {
      events = call ev (record s.events {
        evinfo = put s.events.evinfo id (record (s.events.evinfo id) { queue = rest });
      });
    }))

-- A round of the loop.
unfoldable pub start_round : (Event → Runtime → Runtime) → Runtime → Outcome Runtime
unfolding pick call_first
start_round cback s = elim (pick s.events.evinfo) [
  | none ↦ ok s
  | some id ↦ call_first cback id (s.events.evinfo id).queue s
]

-- The loop of `spin1_start` from round `k` on: what it returns, and the state. `other k` is what the
-- handlers and the other thread do behind round `k`.
unfoldable pub spin1_start :
    ℕ → (Event → Runtime → Runtime) → (ℕ → Runtime → Runtime) → ℕ → Runtime → Outcome (ℕ × Runtime)
unfolding start_round
spin1_start zero cback other k s = spent
spin1_start (suc fuel) cback other k s = elim s.emu_quit [
  | true ↦ ok (s.retval, s)
  | false ↦ start_round cback s >>= λ s'. spin1_start fuel cback other (k + 1) (other k s')
]
