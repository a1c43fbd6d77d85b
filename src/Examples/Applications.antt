-- ===== src/Examples/Applications.antt =====
-- An application on a core of a chip that has a root core already, and a root core that gets the
-- packets of the barrier.
use spi_nnaker_emulator.Base.{ℕ, ◌≡◌, ◌<◌, ◌^◌, [], ◌∷◌, map, refl, arith, true, false, List, Bool}
use spi_nnaker_emulator.Base.Outcome.{ok}
use spi_nnaker_emulator.McQueue.{Mc}
use spi_nnaker_emulator.Wire.RoundTrip.{IsWord}
use spi_nnaker_emulator.Core.Packets.{Core, rdy1_key, rdy2_key, rdygo_key}
use spi_nnaker_emulator.Core.Receive.{read_packets}
use spi_nnaker_emulator.Core.Arrivals.{packet, arrival}
use spi_nnaker_emulator.Core.Ready.{IsCounted, read_packets-IsCounted}
use spi_nnaker_emulator.Examples.Cores.{core_one, calls_nothing}
use spi_nnaker_emulator.Core.Program.{Exec, zeroed, cmd_as}
use spi_nnaker_emulator.Core.Lock.{lock_name, lock_api_root}
use spi_nnaker_emulator.Core.Application.{Application, start_application}
use spi_nnaker_emulator.Core.Started.{IsReady, start_application-IsReady}
use spi_nnaker_emulator.Examples.Programs.{print, atoi, process, start, noise}
use spi_nnaker_emulator.Examples.Barriers.{barrier, view}
use spi_nnaker_emulator.Examples.Starts.{locks}

abbrev all_held : List ℕ → Bool
all_held name = true

start_application-IsReady_example :
    (e : Exec) × (a : Application) × (l' : (List ℕ → Bool)) × (cmd_as print process start noise
      ≡ ok e)
    × (start_application locks print atoi 50 view e.argv zeroed barrier all_held ≡ ok (a, l'))
    × IsReady process false barrier a
    × (l' (lock_name print (process.tmpdir) 3 lock_api_root) ≡ true)
start_application-IsReady_example =
    start_application-IsReady locks print atoi process start noise 50 50 view barrier all_held
      (λ n h. refl)
      (record {
        chip_fits = omega arith;
        core_fits = omega arith;
        x_fits = omega arith;
        y_fits = omega arith;
        slow_down_fits = omega arith;
      })
      (omega arith) (omega arith) (omega arith) (omega arith)

abbrev ready : ℕ → Mc
ready key = record { key = key; payload = 0; has_payload = 0 }

ready-IsWord : (key : ℕ) → key < 2 ^ 32 → IsWord (ready key)
ready-IsWord key h = record { key_fits = h; payload_fits = omega arith }

abbrev round : List Mc
round = ready rdy1_key ∷ ready rdygo_key ∷ ready rdy1_key ∷ ready rdy2_key ∷ []

read_packets-IsCounted_example :
    (s' : Core) × (read_packets calls_nothing (map arrival (map packet round)) core_one ≡ ok s')
    × IsCounted round core_one s'
read_packets-IsCounted_example =
    read_packets-IsCounted calls_nothing round core_one
      (
        ready-IsWord rdy1_key (omega arith),
        (
          ready-IsWord rdygo_key (omega arith),
          (ready-IsWord rdy1_key (omega arith), (ready-IsWord rdy2_key (omega arith), tt)),
        ),
      )
      refl (omega arith) (omega arith)
